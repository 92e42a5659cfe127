-- ===== src/Nfv/Client/Exchange.antt =====
-- The client and the server of NFV_Basic_No_SGX over one connection.
use sgx_nfv.Prelude.{
  ℕ, zero, suc, ◌+◌, ◌-◌, ◌%◌, ◌/◌, ◌≤◌, ◌<◌, ◌≡◌, refl, ◌∙◌, ap, Bool, true, some, List, [], ◌∷◌,
  ◌++◌, arith, length, set, take, drop, length-append, pos, done,
}
use mathlib.Core.List.{append_assoc}
use sgx_nfv.Nfv.Text.{Bytes, format_int, decimal}
use sgx_nfv.Nfv.Server.{
  got, Round, response, starts_with, strtol_within, process_packet, handle_connection_no_sgx,
}
use sgx_nfv.Nfv.Server.Request.{
  request, padding, strtol_within-format_int, handle_connection-request,
}
use sgx_nfv.Nfv.Server.Newlines.{newlines, newlines_le, process_packet-newlines}
use sgx_nfv.Nfv.Client.{header, has_inet, read_reply, talk, send_data}

length-decimal : (f n : ℕ) → length (decimal f n) ≤ f
unfolding decimal
length-decimal zero n = omega arith
length-decimal (suc f) n =
    ground
      (arith, length-decimal f (n / 10), length-append (decimal f (n / 10)) ((b'0' + n % 10) ∷ []))

length-format_int : (n : ℕ) → length (format_int (pos n)) ≤ 10
unfolding format_int
length-format_int n = length-decimal 10 n

take-front :
    (n : ℕ) (xs ys : Bytes) → length xs ≤ n → take n (xs ++ ys) ≡ xs ++ take (n - length xs) ys
take-front n [] ys h = ap (λ (k : ℕ). take k ys) (omega arith)
take-front zero (x ∷ xs) ys h = absurd (omega arith)
take-front (suc n) (x ∷ xs) ys h =
    let e : n - length xs ≡ suc n - suc (length xs) = omega arith in
    ap (◌∷◌ x) (take-front n xs ys (omega arith) ∙ ap (λ (k : ℕ). xs ++ take k ys) e)

take-length : (xs ys : Bytes) → take (length xs) (xs ++ ys) ≡ xs
take-length [] ys = refl
take-length (x ∷ xs) ys = ap (◌∷◌ x) (take-length xs ys)

set-front :
    (xs ys : Bytes) (i v : ℕ) → length xs ≤ i → set (xs ++ ys) i v ≡ xs ++ set ys (i - length xs) v
set-front [] ys i v h = ap (λ (k : ℕ). set ys k v) (omega arith)
set-front (x ∷ xs) ys zero v h = absurd (omega arith)
set-front (x ∷ xs) ys (suc i) v h =
    let e : i - length xs ≡ suc i - suc (length xs) = omega arith in
    ap (◌∷◌ x) (set-front xs ys i v (omega arith) ∙ ap (λ (k : ℕ). xs ++ set ys k v) e)

-- The buffer of the client that holds an answer, after its last byte was set to 0.
abbrev held : Bytes → Bytes → Bytes
held bytes fresh = set (take 100 (bytes ++ drop (length bytes) fresh)) 99 0

held-front :
    (bytes fresh : Bytes) → length bytes ≤ 99 → (rest : Bytes) × (held bytes fresh ≡ bytes ++ rest)
held-front bytes fresh h =
    let old = drop (length bytes) fresh in
    (
      set (take (100 - length bytes) old) (99 - length bytes) 0,
      ap (λ (x : Bytes). set x 99 0) (take-front 100 bytes old (omega arith))
          ∙ set-front bytes (take (100 - length bytes) old) 99 0 h,
    )

-- The client reads back the count that an answer names, whatever follows it in the buffer.
read_reply-response :
    (n : ℕ) (fresh : Bytes)
    → n < 0x8000_0000
    → read_reply (held (response (pos n)) fresh) ≡ done (pos n)
unfolding read_reply starts_with
read_reply-response n fresh h =
    let text = format_int (pos n) in
    let size : length (response (pos n)) ≤ 99 =
      omega (arith, length-format_int n, length-append text (0 ∷ [])) in
    let (rest, e) = held-front (response (pos n)) fresh size in
    let split = append_assoc text (0 ∷ []) rest in
    let read = ap strtol_within split ∙ strtol_within-format_int n 0 rest h refl in
    ap read_reply e ∙ rw read refl

-- A client whose connection does not fail, and whose request fits the first 1000 bytes and comes in one
-- piece, gets from the server the number of line feeds in its data, as the result of `sendData`, and not
-- the amount of data sent that the documentation of `sendData` names. On both sides everything is closed
-- and freed once.
pub send_data-handle_connection :
    (d : Bytes) (entries : List Bool) (fresh : Bytes) (rounds : List Round)
    → length (request d) ≤ 1000
    → has_inet entries ≡ true
    → (reply : Bytes) × (handle_connection_no_sgx
          (record { allocated = true; first = got (header (length d) ++ d); rounds = rounds })
        ≡ done (record {
          closes = 1;
          frees = 1;
          processed = some (d ++ padding (request d), length d);
          sent = some reply;
        }))
      × (send_data d (length d) (record {
        socket = true;
        addrinfo = some entries;
        connect = true;
        send_header = true;
        send_data = true;
        fresh = fresh;
        reply = got reply;
      })
          ≡ done (record {
            result = pos (newlines d);
            closes = 1;
            frees = 1;
            sends = header (length d) ∷ d ∷ [];
          }))
unfolding handle_connection_no_sgx send_data talk
send_data-handle_connection d [] fresh rounds h inet = cc
send_data-handle_connection d (e ∷ es) fresh rounds h inet =
    let body = d ++ padding (request d) in
    let small : length d ≤ 1000 = omega (arith, length-append (header (length d)) d) in
    let count =
      process_packet-newlines body (length d) (omega (arith, length-append d (padding (request d))))
        (omega arith) in
    let same : take (length d) body ≡ d = take-length d (padding (request d)) in
    let few : newlines d < 0x8000_0000 = omega (arith, newlines_le d) in
    (
      response (pos (newlines d)),
      handle_connection-request process_packet (λ count. count) d rounds h ∙ rw (count, same) refl,
      rw (inet, read_reply-response (newlines d) fresh few) refl,
    )
