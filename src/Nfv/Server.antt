-- ===== src/Nfv/Server.antt =====
-- `handle_connection` of NFV_Basic_SGX/sgx/enclave_enclave1/untrusted/App.cpp and of
-- NFV_Basic_No_SGX/App.cpp, which differ only in the processing of the data and in the count that
-- they report, and the processing of NFV_Basic_No_SGX/App.cpp.
pub mod Request
pub mod Ends
pub mod Reply
pub mod Newlines
pub mod Pieces
use sgx_nfv.Prelude.{
  ℕ, zero, suc, ◌+◌, ◌-◌, Bool, true, false, ◌||◌, not, Option, none, some, List, [], ◌∷◌, ◌++◌,
  ltb, leb, ◌==◌, if◌then◌else◌, length, take, drop, replicate, ℤ, pos, negsuc, Outcome, done,
  fault, spinning, ◌>>=◌,
}
use sgx_nfv.Nfv.Text.{Bytes, strtol, format_int, to_int, to_uint}
use sgx_nfv.Packet.{read, add_int}

-- What `recv` gives: -1, or at most 1000 bytes; no byte when the peer has closed.
pub data Recv : Type 0 where
  failed : Recv
  got : Bytes → Recv

-- One round of the receiving loop: `grown` is none where `realloc` fails and else says whether it
-- moved the block; `fresh` is what the 1000 new bytes hold.
pub record Round : Type 0 where
  pub grown : Option Bool
  pub fresh : Bytes
  pub received : Recv

pub record Peer : Type 0 where
  pub allocated : Bool
  pub first : Recv
  pub rounds : List Round

-- The calls of `close` and `free`, the arguments of the processing and what is handed to the last `send`,
-- whose failure is only printed: the code goes on the same way.
pub record Handled : Type 0 where
  pub closes : ℕ
  pub frees : ℕ
  pub processed : Option (Bytes × ℕ)
  pub sent : Option Bytes

-- The receive buffer; `moved` once the pointer `data` points into a block that was given back.
pub record Buffer : Type 0 where
  pub cells : Bytes
  pub moved : Bool
  pub total : ℕ

-- The bytes received in a part of the buffer that held `old`.
abbrev pub received_over : Bytes → Bytes → Bytes
received_over bytes old = take 1000 (bytes ++ drop (length bytes) old)

-- The 1000 bytes of `calloc`.
unfoldable pub blank : Bytes
blank = replicate 1000 0

-- `strncmp(literal, s, n) == 0`, for a literal of `n` characters; it reads up to the first difference.
unfoldable pub starts_with : Bytes → Bytes → Outcome Bool
starts_with [] s = done true
starts_with (c ∷ cs) [] = fault
starts_with (c ∷ cs) (b ∷ s) = let rest = starts_with cs s in if c == b then rest else done false

-- `strtol` on a buffer: it reads past the end where one more digit would have counted.
unfoldable pub strtol_within : Bytes → Outcome (ℤ × ℕ)
strtol_within s = if ltb (length s) (strtol (s ++ (b'0' ∷ []))).1 then fault else done (strtol s)

-- `header_len + data_length` on `long`, then cut to `int`
unfoldable pub total_of : ℕ → ℤ → Outcome ℤ
total_of header_len (pos n) =
    if leb (header_len + n) 0x7fff_ffff_ffff_ffff
    then done (to_int (pos (header_len + n)))
    else fault
total_of header_len (negsuc n) =
    done (to_int (if ltb n header_len then pos (header_len - suc n) else negsuc (n - header_len)))

-- `total_received < total_data`
abbrev pub is_short : ℕ → ℤ → Bool
is_short received (pos n) = ltb received n
is_short received (negsuc n) = false

-- The rounds of the loop; none where it gives up. With no round left it waits for the peer.
unfoldable pub receive : ℤ → List Round → Buffer → Outcome (Option Buffer)
receive total_data [] b = if is_short b.total total_data then spinning else done (some b)
receive total_data (r ∷ rs) b =
    let go_on = λ (m : Bool) (bytes : Bytes). add_int (length b.cells) 1000 >>= λ size.
    add_int b.total (length bytes) >>= λ total. receive total_data rs (record {
      cells = b.cells ++ received_over bytes r.fresh;
      moved = b.moved || m;
      total = total;
    }) in
    let round : Outcome (Option Buffer) = elim r.grown [
      | none ↦ done none
      | some m ↦ elim r.received [ failed ↦ done none | got bytes ↦ go_on m bytes ]
    ] in
    if is_short b.total total_data then round else done (some b)

abbrev pub gave_up : Handled
gave_up = record { closes = 1; frees = 1; processed = none; sent = none }

-- `sprintf((char*)response, "OK:%i", count)`, sent with its terminator
abbrev pub response : ℤ → Bytes
response count = b'O' ∷ b'K' ∷ b':' ∷ (format_int count ++ (0 ∷ []))

-- `process` is what the data are handed to, with their length cut to `unsigned int`; `report` is the
-- count that the response names. To hand the processing a pointer into a block that `realloc` gave back
-- is undefined behaviour, and a `fault`.
module _ (process : Bytes → ℕ → Outcome ℤ) (report : ℤ → ℤ) where
  unfoldable pub finish : ℕ → ℤ → Option Buffer → Outcome Handled
  finish header_len data_length none = done gave_up
  finish header_len data_length (some b) =
      let answer : ℤ → Outcome Handled = λ count. done (record {
        closes = 1;
        frees = 1;
        processed = some (drop header_len b.cells, to_uint data_length);
        sent = some (response (report count));
      }) in
      if b.moved
      then fault
      else (process (drop header_len b.cells) (to_uint data_length) >>= answer)

  -- From the buffer on, in which `received` bytes were received.
  unfoldable pub parse : Bytes → ℕ → List Round → Outcome Handled
  parse cells received rounds =
      starts_with (b'd' ∷ b'a' ∷ b't' ∷ b'a' ∷ b'_' ∷ b'l' ∷ b'e' ∷ b'n' ∷ b':' ∷ []) cells >>= λ a.
      let number = strtol_within (drop 9 cells) >>= λ x.
      starts_with (b'|' ∷ b'd' ∷ b'a' ∷ b't' ∷ b'a' ∷ b':' ∷ []) (drop (9 + x.1) cells) >>= λ b.
      let body = total_of (9 + x.1 + 6) (x.0) >>= λ total_data.
      receive total_data rounds (record { cells = cells; moved = false; total = received })
      >>= finish (9 + x.1 + 6) (x.0) in
      if b then body else done gave_up in
      if a then number else done gave_up

  -- Nothing tests the result of the first `recv`: after -1 the buffer is all zero.
  unfoldable pub handle_connection : Peer → Outcome Handled
  handle_connection p =
      let start : Outcome Handled = elim p.first [
        | failed ↦ parse (received_over [] blank) 0 p.rounds
        | got bytes ↦ parse (received_over bytes blank) (length bytes) p.rounds
      ] in
      if p.allocated
      then start
      else done (record { closes = 1; frees = 0; processed = none; sent = none })

-- `process_packet` of NFV_Basic_No_SGX/App.cpp: `n` rounds of the loop are left.
unfoldable pub count_from : ℕ → Bytes → ℕ → ℕ → Outcome ℕ
count_from zero d i count = done count
count_from (suc n) d i count = read d i >>= λ b.
    add_int count (if b == 0x0a then 1 else 0) >>= λ c. add_int i 1 >>= λ j. count_from n d j c

unfoldable pub process_packet : Bytes → ℕ → Outcome ℤ
unfolding count_from
process_packet d len = count_from len d 0 0 >>= λ n. done (pos n)

-- The server of NFV_Basic_No_SGX reports the count; that of NFV_Basic_SGX reports `enclave_return`,
-- which stays 0.
unfoldable pub handle_connection_no_sgx : Peer → Outcome Handled
handle_connection_no_sgx = handle_connection process_packet (λ count. count)

unfoldable pub handle_connection_sgx : (Bytes → ℕ → Outcome ℤ) → Peer → Outcome Handled
handle_connection_sgx call_process_packet_sgx =
    handle_connection call_process_packet_sgx (λ count. pos 0)
