-- ===== src/Nfv/Client.antt =====
-- `sendData` of click_experiments/basicelement.cc and its copies in basicelementnosgx.cc,
-- basicelementsha256.cc and basicelementnosgxsha256.cc.
pub mod Exchange
pub mod Closing
pub mod Copies
use sgx_nfv.Prelude.{
  ℕ, ◌+◌, Bool, true, false, Option, none, some, List, [], ◌∷◌, ◌++◌, if◌then◌else◌, length, take,
  drop, set, ℤ, pos, negsuc, is_negative, Outcome, done, fault, ◌>>=◌,
}
use sgx_nfv.Nfv.Server.{Recv, failed, got, starts_with, strtol_within}
use sgx_nfv.Nfv.Text.{Bytes, format_int, to_int}

-- What the network answers. `addrinfo` is none where `getaddrinfo` fails, and else says of each entry
-- whether it is of the family AF_INET; `fresh` is what the 100 bytes of `recv_buff` hold.
pub record Net : Type 0 where
  pub socket : Bool
  pub addrinfo : Option (List Bool)
  pub connect : Bool
  pub send_header : Bool
  pub send_data : Bool
  pub fresh : Bytes
  pub reply : Recv

-- The result, the calls of `close` and `freeaddrinfo`, and what was handed to `send`.
pub record Sent : Type 0 where
  pub result : ℤ
  pub closes : ℕ
  pub frees : ℕ
  pub sends : List Bytes

-- `sprintf((char*)header, "data_len:%i|data:", length)`
abbrev pub header : ℕ → Bytes
header length =
    b'd'
    ∷ b'a'
    ∷ b't'
    ∷ b'a'
    ∷ b'_'
    ∷ b'l'
    ∷ b'e'
    ∷ b'n'
    ∷ b':'
    ∷ (format_int (to_int (pos length)) ++ (b'|' ∷ b'd' ∷ b'a' ∷ b't' ∷ b'a' ∷ b':' ∷ []))

-- The loop over `serverinfo`: whether an entry of the family AF_INET was found.
abbrev pub has_inet : List Bool → Bool
has_inet [] = false
has_inet (true ∷ es) = true
has_inet (false ∷ es) = has_inet es

-- An answer of the peer in `recv_buff`, with `recv_buff[99] = 0`.
unfoldable pub read_reply : Bytes → Outcome ℤ
read_reply buff =
    let ok =
      strtol_within (drop 3 buff) >>= λ x. done (if is_negative (x.0) then negsuc 1 else x.0) in
    starts_with (b'O' ∷ b'K' ∷ b':' ∷ []) buff >>= λ a. if a then ok else done (negsuc 1)

-- What follows a connection: the first `recv` always ends the `do … while`. An answer "ERROR" and a
-- malformed one give the same result.
unfoldable pub talk : Bytes → ℕ → Net → Outcome Sent
talk bytes len n =
    let sends = header len ∷ bytes ∷ [] in
    let answer : Outcome ℤ = elim n.reply [
      | failed ↦ done (negsuc 0)
      | got b ↦ read_reply (set (take 100 (b ++ drop (length b) n.fresh)) 99 0)
    ] in
    if n.send_header
    then if n.send_data
      then (answer >>= λ r. done (record { result = r; closes = 1; frees = 1; sends = sends }))
      else done (record { result = negsuc 0; closes = 1; frees = 1; sends = sends })
    else done (record { result = negsuc 0; closes = 1; frees = 1; sends = header len ∷ [] })

-- `data` and `length`; the pointer `iter` is followed even where the loop found no entry.
unfoldable pub send_data : Bytes → ℕ → Net → Outcome Sent
send_data bytes len n =
    let refused : Outcome Sent =
      done (record { result = negsuc 0; closes = 1; frees = 1; sends = [] }) in
    let connected : List Bool → Outcome Sent = λ entries.
      if has_inet entries then (if n.connect then talk bytes len n else refused) else fault in
    let looked_up : Outcome Sent = elim n.addrinfo [
      | none ↦ done (record { result = negsuc 0; closes = 1; frees = 0; sends = [] })
      | some entries ↦ elim entries [ [] ↦ refused | e ∷ es ↦ connected (e ∷ es) ]
    ] in
    if n.socket
    then looked_up
    else done (record { result = negsuc 0; closes = 0; frees = 0; sends = [] })
