-- ===== src/Nfv/Server/Request.antt =====
-- Requests with a well-formed header, and those that arrive whole in the first `recv`.
use sgx_nfv.Prelude.{
  take-all, drop-append, ℕ, zero, suc, ◌+◌, ◌%◌, ◌≤◌, ◌<◌, ◌≡◌, refl, ◌∙◌, ap, sym, true, false,
  Option, List, [], ◌∷◌, ◌++◌, arith, ltb, leb, length, drop, length-append, length-replicate,
  length-drop, some, ℤ, pos, Outcome, done, ◌>>=◌,
}
use mathlib.Core.List.{append_assoc, ◌++◌}
use native.Mathlib.Nat.{zero-add}
use sgx_nfv.Nfv.Text.{Bytes, digit, strtol, format_int, to_int}
use sgx_nfv.Nfv.Text.Numbers.{strtol-format_int}
use sgx_nfv.Nfv.Client.{header}
use sgx_nfv.Nfv.Server.{
  got, blank, Round, Handled, Buffer, received_over, starts_with, strtol_within, total_of, receive,
  finish, parse, handle_connection, response,
}

drop_nil : (b : ℕ) → drop {A = ℕ} b [] ≡ []
drop_nil zero = refl
drop_nil (suc b) = refl

-- The part of the buffer behind the bytes received is zero.
abbrev pub padding : Bytes → Bytes
padding bytes = drop (length bytes) blank

length-blank : length blank ≡ 1000
unfolding blank
length-blank = length-replicate {A = ℕ} 1000 0

received_over-padding :
    (bytes : Bytes) → length bytes ≤ 1000 → received_over bytes blank ≡ bytes ++ padding bytes
received_over-padding bytes h = take-all 1000 (bytes ++ padding bytes) (
    omega
      (arith, length-append bytes (padding bytes), length-drop (length bytes) blank, length-blank))

pub strtol_within-format_int :
    (n c : ℕ) (rest : Bytes)
    → n < 0x8000_0000
    → digit c ≡ 36
    → strtol_within (format_int (pos n) ++ (c ∷ rest)) ≡ done (pos n, length (format_int (pos n)))
unfolding strtol_within
strtol_within-format_int n c rest h e =
    let text = format_int (pos n) in
    let longer : strtol ((text ++ (c ∷ rest)) ++ (b'0' ∷ [])) ≡ (pos n, length text) =
      ap strtol (append_assoc text (c ∷ rest) (b'0' ∷ []))
      ∙ strtol-format_int n c (rest ++ (b'0' ∷ [])) h e in
    let enough : ltb (length (text ++ (c ∷ rest))) (length text) ≡ false =
      ground (arith, length-append text (c ∷ rest)) in
    rw (longer, enough, strtol-format_int n c rest h e)

drop_plus : (a b : ℕ) (xs : Bytes) → drop (a + b) xs ≡ drop b (drop a xs)
drop_plus zero b xs = ap (λ (n : ℕ). drop n xs) (zero-add b)
drop_plus (suc a) b [] =
    let e : suc a + b ≡ suc (a + b) = omega arith in
    ap (λ (n : ℕ). drop {A = ℕ} n []) e ∙ sym (drop_nil b)
drop_plus (suc a) b (x ∷ xs) =
    let e : suc a + b ≡ suc (a + b) = omega arith in
    ap (λ (n : ℕ). drop n (x ∷ xs)) e ∙ drop_plus a b xs

-- What the client sends for `d`, in one piece.
abbrev pub request : Bytes → Bytes
request d = header (length d) ++ d

pub receive_whole :
    (n : ℕ) (rounds : List Round) (b : Buffer)
    → b.total ≡ n
    → receive (pos n) rounds b ≡ done (some b)
unfolding receive
receive_whole n [] b h = ground arith
receive_whole n (r ∷ rs) b h = let e : ltb b.total n ≡ false = ground arith in rw e

to_int_small : (n : ℕ) → n < 0x8000_0000 → to_int (pos n) ≡ pos n
to_int_small n h = ground arith

-- `|data:` and what follows it
abbrev tagged : Bytes → Bytes
tagged body = b'|' ∷ b'd' ∷ b'a' ∷ b't' ∷ b'a' ∷ b':' ∷ body

-- The buffer that holds a request of `n` bytes, and `body` from its data on.
abbrev pub framed : ℕ → Bytes → Bytes
framed n body =
    b'd'
    ∷ b'a'
    ∷ b't'
    ∷ b'a'
    ∷ b'_'
    ∷ b'l'
    ∷ b'e'
    ∷ b'n'
    ∷ b':'
    ∷ (format_int (pos n) ++ tagged body)

abbrev pub digits : ℕ → ℕ
digits n = length (format_int (pos n))

pub header-framed : (n : ℕ) (d : Bytes) → n < 0x8000_0000 → header n ++ d ≡ framed n d
header-framed n d small =
    let lead : Bytes → Bytes =
      λ t. b'd' ∷ b'a' ∷ b't' ∷ b'a' ∷ b'_' ∷ b'l' ∷ b'e' ∷ b'n' ∷ b':' ∷ t in
    ap (λ (z : ℤ). lead ((format_int z ++ tagged []) ++ d)) (to_int_small n small)
    ∙ ap lead (append_assoc (format_int (pos n)) (tagged []) d)

cells-framed :
    (n : ℕ) (d : Bytes)
    → length (header n ++ d) ≤ 1000
    → n < 0x8000_0000
    → received_over (header n ++ d) blank ≡ framed n (d ++ padding (header n ++ d))
cells-framed n d h small =
    let lead : Bytes → Bytes =
      λ t. b'd' ∷ b'a' ∷ b't' ∷ b'a' ∷ b'_' ∷ b'l' ∷ b'e' ∷ b'n' ∷ b':' ∷ t in
    let pad = padding (header n ++ d) in
    received_over-padding (header n ++ d) h
    ∙ ap (λ (x : Bytes). x ++ pad) (header-framed n d small)
    ∙ ap lead (append_assoc (format_int (pos n)) (tagged d) pad)

drop-framed : (n : ℕ) (body : Bytes) → drop (9 + digits n + 6) (framed n body) ≡ body
drop-framed n body =
    drop_plus (9 + digits n) 6 (framed n body)
    ∙ ap (drop 6)
        (drop_plus 9 (digits n) (framed n body) ∙ drop-append (format_int (pos n)) (tagged body))

pub length-framed :
    (n : ℕ) (d : Bytes) → n < 0x8000_0000 → length (header n ++ d) ≡ 9 + digits n + 6 + length d
length-framed n d small =
    ap length (header-framed n d small)
    ∙ omega (arith, length-append (format_int (pos n)) (tagged d))

length-header : (n : ℕ) (d : Bytes) → length d ≤ length (header n ++ d)
length-header n d = omega (arith, length-append (header n) d)

module _ (process : Bytes → ℕ → Outcome ℤ) (report : ℤ → ℤ) where
  -- What is done with `n` bytes of data that are all in the buffer.
  abbrev pub served : Bytes → ℕ → Outcome Handled
  served body n = process body n >>= λ count. done (record {
    closes = 1;
    frees = 1;
    processed = some (body, n);
    sent = some (response (report count));
  })

  pub finish-framed :
      (n : ℕ) (body : Bytes) (total : ℕ)
      → n < 0x8000_0000
      → finish process report
          (9 + digits n + 6)
          (pos n)
          (some (record { cells = framed n body; moved = false; total = total }))
        ≡ served body n
  unfolding finish
  finish-framed n body total small =
      let cut : n % 0x1_0000_0000 ≡ n = omega arith in rw (drop-framed n body, cut)

  -- A well-formed header leaves the rounds of the receiving loop.
  parse-framed :
      (n received : ℕ) (body : Bytes) (rounds : List Round)
      → 9 + digits n + 6 + n < 0x8000_0000
      → parse process report (framed n body) received rounds ≡ (
          receive
            (pos (9 + digits n + 6 + n))
            rounds
            (record { cells = framed n body; moved = false; total = received })
          >>= finish process report (9 + digits n + 6) (pos n))
  unfolding parse starts_with total_of
  parse-framed n received body rounds h =
      let sum : leb (9 + digits n + 6 + n) 0x7fff_ffff_ffff_ffff ≡ true = ground arith in
      let int = to_int_small (9 + digits n + 6 + n) h in
      let total : total_of (9 + digits n + 6) (pos n) ≡ done (pos (9 + digits n + 6 + n)) =
        rw (sum, int) refl in
      let tag =
        drop_plus 9 (digits n) (framed n body) ∙ drop-append (format_int (pos n)) (tagged body) in
      rw
        (strtol_within-format_int n b'|' (b'd' ∷ b'a' ∷ b't' ∷ b'a' ∷ b':' ∷ body) (omega arith)
          refl)
        (rw (tag, total) refl)

  -- The connection of a client that announces `n` bytes and whose first bytes are those of `d`.
  pub handle_connection-framed :
      (n : ℕ) (d : Bytes) (rounds : List Round)
      → length (header n ++ d) ≤ 1000
      → n < 0x7fff_0000
      → handle_connection process report
          (record { allocated = true; first = got (header n ++ d); rounds = rounds })
        ≡ (receive (pos (9 + digits n + 6 + n)) rounds (record {
          cells = framed n (d ++ padding (header n ++ d));
          moved = false;
          total = 9 + digits n + 6 + length d;
        })
            >>= finish process report (9 + digits n + 6) (pos n))
  unfolding handle_connection
  handle_connection-framed n d rounds h small =
      let size = length-framed n d (omega arith) in
      let body = d ++ padding (header n ++ d) in
      ap (λ (cells : Bytes). parse process report cells (length (header n ++ d)) rounds)
        (cells-framed n d h (omega arith))
      ∙ ap (λ (k : ℕ). parse process report (framed n body) k rounds) size
      ∙ parse-framed n (9 + digits n + 6 + length d) body rounds (omega arith)

  -- A request that arrives in one piece and fits the first 1000 bytes is processed once: the processing
  -- gets its data, which zero bytes follow, with their length. Where it returns, the count that it
  -- gives is answered, and the connection is closed and the buffer freed once. No further byte is
  -- received.
  pub handle_connection-request :
      (d : Bytes) (rounds : List Round)
      → length (request d) ≤ 1000
      → handle_connection process report
          (record { allocated = true; first = got (request d); rounds = rounds })
        ≡ served (d ++ padding (request d)) (length d)
  handle_connection-request d rounds h =
      let n = length d in
      let small = length-header n d in
      let body = d ++ padding (request d) in
      let whole : Buffer = record {
        cells = framed n body;
        moved = false;
        total = 9 + digits n + 6 + n;
      } in
      handle_connection-framed n d rounds h (omega arith)
      ∙ ap (λ (o : Outcome (Option Buffer)). o >>= finish process report (9 + digits n + 6) (pos n))
          (receive_whole (9 + digits n + 6 + n) rounds whole refl)
      ∙ finish-framed n body (9 + digits n + 6 + n) (omega arith)
