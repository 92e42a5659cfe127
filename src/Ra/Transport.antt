-- ===== src/Ra/Transport.antt =====
-- service_provider/network_ra.cpp: one request and its response over a socket. As it stands the file is
-- not accepted by a compiler: `send_request` declares `bytes_received` twice, and casts a pointer to a
-- structure to read and to return the response. Here the second declaration is read as the first, and the
-- casts as the pointer casts that they are written for.
pub mod Leaks
pub mod Bounds
pub mod Single
use sgx_nfv.Prelude.{
  ℕ, zero, suc, ◌+◌, ◌-◌, ◌*◌, Bool, true, false, not, ◌||◌, Option, none, some, List, [], ◌∷◌,
  ◌++◌, ltb, leb, if◌then◌else◌, get_or, length, take, drop, ◌==◌, ℤ, pos, negsuc, Outcome, done,
  fault, spinning, ◌>>=◌,
}
use sgx_nfv.Nfv.Text.{format_int, to_int}
use sgx_nfv.Packet.{add_int}
use sgx_nfv.Ra.Client.{Request}
use sgx_nfv.Ra.Crypto.{Bytes}

-- What the calls give. A socket and a connection are had or not; `getaddrinfo` is none where it fails, and
-- else says of each address found whether it is AF_INET. In round `i`, `realloc i n` says whether `n`
-- bytes are to be had, and `recv i` is none where it fails and empty where the peer has closed, and gives at most the 1000 bytes
-- asked for, which nothing here depends on; a block
-- is fresh only in round 0, with the bytes `heap n`.
pub record Peer : Type 0 where
  pub socket : Bool
  pub getaddrinfo : Option (List Bool)
  pub connect : Bool
  pub send : Request → Bool
  pub realloc : ℕ → ℕ → Bool
  pub heap : ℕ → Bytes
  pub recv : ℕ → Option Bytes

-- The result, and what is open or allocated at the end: sockets, lists of addresses, blocks; and the
-- requests sent.
pub record Exchange : Type 0 where
  pub result : ℤ
  pub sockets : ℕ
  pub infos : ℕ
  pub blocks : ℕ
  pub sent : List Request

-- `sizeof(ra_samp_request_header_t)`, and as much for a response
abbrev pub header_size : ℕ
header_size = 8

-- an `int`, as the `size_t` that `realloc` and `send` take
abbrev pub to_size : ℤ → ℕ
to_size (pos n) = n
to_size (negsuc n) = 0xffff_ffff_ffff_ffff - n

-- `buffer_size = sizeof(ra_samp_request_header_t) + request->size`
abbrev pub buffer_size : Request → ℕ
buffer_size r = to_size (to_int (pos (header_size + r.size)))

-- `recv` into the block at an offset: the bytes have to fit.
unfoldable pub received_at : Bytes → ℕ → Bytes → Outcome Bytes
received_at block offset bytes =
    if ltb (length block) (offset + length bytes)
    then fault
    else done (take offset block ++ (bytes ++ drop (offset + length bytes) block))

-- `current_response.size + sizeof(ra_samp_response_header_t)`: the size stands at byte 3 of the header.
unfoldable pub current_response_size : Bytes → Outcome ℤ
current_response_size block =
    if ltb (length block) header_size
    then fault
    else done (
        to_int (
          pos (
            get_or block 3 0
            + 0x100 * get_or block 4 0
            + 0x1_0000 * get_or block 5 0
            + 0x100_0000 * get_or block 6 0
            + header_size)))

-- `received_size >= current_response_size`
abbrev pub covers : ℕ → ℤ → Bool
covers received (pos n) = leb n received
covers received (negsuc n) = true

-- the block before the loop has none; `realloc` to the same size keeps the bytes
abbrev pub block_or : Peer → ℕ → Option Bytes → Bytes
block_or p n none = p.heap n
block_or p n (some b) = b

abbrev pub is_empty : Bytes → Bool
is_empty [] = true
is_empty (_ ∷ _) = false

-- whether there is a block
abbrev pub held : Option Bytes → ℕ
held none = 0
held (some b) = 1

-- the test of a call for failure, and what follows it
abbrev pub given_or :
    {A : Type 0} → Option A → Outcome Exchange → (A → Outcome Exchange) → Outcome Exchange
given_or none failure next = failure
given_or (some a) failure next = next a

-- `while(iter != NULL && iter->ai_family != AF_INET)`: whether an address is left
unfoldable pub find_inet : List Bool → Bool
find_inet [] = false
find_inet (true ∷ infos) = true
find_inet (false ∷ infos) = find_inet infos

module _ (p : Peer) (request : Request) where
  abbrev pub ends : ℤ → ℕ → Outcome Exchange
  ends ret blocks =
      done (record { result = ret; sockets = 1; infos = 1; blocks = blocks; sent = request ∷ [] })

  -- The loop, from round `i` on. A `realloc` that fails leaves the old block allocated, and loses it.
  unfoldable pub receive : ℕ → ℕ → ℕ → ℕ → Option Bytes → Outcome Exchange
  receive zero i received_size buffer_offset recv_buffer = spinning
  receive (suc fuel) i received_size buffer_offset recv_buffer =
      let n = buffer_size request in
      add_int received_size 1000 >>= λ received.
      if not (p.realloc i n)
      then ends (negsuc 0) (held recv_buffer)
      else given_or (p.recv i) (ends (negsuc 0) 1) λ piece.
        received_at (block_or p n recv_buffer) buffer_offset piece >>= λ block.
        add_int buffer_offset 1000 >>= λ offset. current_response_size block >>= λ size.
        let rest = receive fuel (i + 1) received offset (some block) in
        if covers received size || is_empty piece then ends (pos 0) 1 else rest

  -- The test is of `serverinfo`; what is followed is `iter`. The request goes out with the bytes that its
  -- size says, which have to be there.
  unfoldable pub transmit : ℕ → List Bool → Outcome Exchange
  transmit fuel [] =
      done (record { result = negsuc 0; sockets = 1; infos = 0; blocks = 0; sent = [] })
  transmit fuel (info ∷ infos) =
      let unsent : Outcome Exchange =
        done (record { result = negsuc 0; sockets = 1; infos = 1; blocks = 0; sent = [] }) in
      if not (find_inet (info ∷ infos))
      then fault
      else if not p.connect
      then unsent
      else if ltb (header_size + length request.body) (buffer_size request)
      then fault
      else if not (p.send request)
      then unsent
      else receive fuel 0 0 0 none

  unfoldable pub send_request : ℕ → ℤ → Outcome Exchange
  send_request fuel server_port =
      let give_up : ℕ → Outcome Exchange = λ sockets.
        done (record { result = negsuc 0; sockets = sockets; infos = 0; blocks = 0; sent = [] }) in
      if not p.socket
      then give_up 0
      else if ltb 99 (length (format_int server_port))
      then give_up 1
      else given_or p.getaddrinfo (give_up 1) λ infos. transmit fuel infos

-- `int port = 8000`
abbrev pub port : ℤ
port = pos 8000

-- `false` is a NULL `server_url` or `p_resp`, `none` a NULL request. The pointer is what `*p_resp` is
-- left with, none where it is not written: `p_resp_msg`, which has an indeterminate value and is handed
-- on by value.
unfoldable pub ra_network_send_receive :
    Peer → ℕ → ℕ → Bool → Option Request → Bool → Outcome (ℤ × Option ℕ × Option Exchange)
ra_network_send_receive p fuel indeterminate server_url none p_resp = done (negsuc 0, none, none)
ra_network_send_receive p fuel indeterminate server_url (some p_req) p_resp =
    if not server_url
    then done (negsuc 0, none, none)
    else if not p_resp
    then done (negsuc 0, none, none)
    else send_request p p_req fuel port >>= λ e. done (e.result, some indeterminate, some e)

-- `live` are the addresses of the blocks; to free another one is undefined.
unfoldable pub ra_free_network_response_buffer : Option ℕ → List ℕ → Outcome (List ℕ)
ra_free_network_response_buffer none live = done live
ra_free_network_response_buffer (some resp) [] = fault
ra_free_network_response_buffer (some resp) (address ∷ live) =
    let rest = ra_free_network_response_buffer (some resp) live in
    if resp == address then done live else (rest >>= λ left. done (address ∷ left))
