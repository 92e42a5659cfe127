-- ===== src/Nfv/Server/Pieces.antt =====
-- Requests that arrive in several pieces.
use sgx_nfv.Prelude.{
  ℕ, ◌+◌, ◌-◌, ◌*◌, ◌≤◌, ◌<◌, ◌≡◌, ◌∙◌, refl, sym, ap, true, false, some, List, [], ◌∷◌, ◌++◌, map,
  ltb, arith, length, take, drop, replicate, length-append, take-append, take_plus-append,
  drop-replicate, ℤ, pos, Outcome, done, ◌>>=◌,
}
use mathlib.Core.List.{append_assoc, append-nil}
use sgx_nfv.Packet.{add_int}
use sgx_nfv.Nfv.Text.{Bytes, format_int}
use sgx_nfv.Nfv.Client.{header}
use sgx_nfv.Nfv.Server.{got, Round, receive, received_over, blank, finish, handle_connection}
use sgx_nfv.Nfv.Server.Request.{
  receive_whole, padding, framed, digits, served, header-framed, length-framed, finish-framed,
  handle_connection-framed,
}

-- A piece for which `realloc` extends the block in place.
abbrev pub piece : Bytes → Bytes → Round
piece fresh p = record { grown = some false; fresh = fresh; received = got p }

abbrev pub joined : List Bytes → Bytes
joined [] = []
joined (p ∷ ps) = p ++ joined ps

-- Every piece fills its part of the buffer.
abbrev pub AreFull : List Bytes → Type 0
AreFull [] = Unit
AreFull (p ∷ ps) = (length p ≡ 1000) × AreFull ps

receive-piece :
    (t : ℕ) (p fresh cells : Bytes) (total : ℕ) (rs : List Round)
    → total < t
    → length cells + 1000 < 0x8000_0000
    → total + length p < 0x8000_0000
    → receive (pos t) (piece fresh p ∷ rs) (record { cells = cells; moved = false; total = total })
      ≡ receive (pos t) rs (record {
        cells = cells ++ received_over p fresh;
        moved = false;
        total = total + length p;
      })
unfolding receive
receive-piece t p fresh cells total rs more room count =
    let short : ltb total t ≡ true = ground arith in
    let size : add_int (length cells) 1000 ≡ done (length cells + 1000) = ground arith in
    let sum : add_int total (length p) ≡ done (total + length p) = ground arith in
    rw (short, size, sum) refl

received_over-full : (p fresh : Bytes) → length p ≡ 1000 → received_over p fresh ≡ p
received_over-full p fresh full =
    ap (λ (n : ℕ). take n (p ++ drop (length p) fresh)) (sym full)
    ∙ take-append p (drop (length p) fresh)

receive_pieces :
    (ps : List Bytes) (t : ℕ) (last fresh cells : Bytes) (total : ℕ) (rest : List Round)
    → AreFull ps
    → total + 1000 * length ps + length last ≡ t
    → 1 ≤ length last
    → length cells + 1000 * length ps + 1000 < 0x8000_0000
    → t < 0x8000_0000
    → receive
        (pos t)
        (map (piece []) ps ++ (piece fresh last ∷ rest))
        (record { cells = cells; moved = false; total = total })
      ≡ done (
          some (record {
            cells = cells ++ (joined ps ++ received_over last fresh);
            moved = false;
            total = t;
          }))
receive_pieces [] t last fresh cells total rest full ends some_bytes room small =
    let total' : total + length last ≡ t = omega arith in
    receive-piece t last fresh cells total rest (omega arith) (omega arith) (omega arith)
    ∙ receive_whole t rest
        (record {
          cells = cells ++ received_over last fresh;
          moved = false;
          total = total + length last;
        })
        total'
    ∙ ap
        (λ (n : ℕ).
          Outcome.done
            (some (record { cells = cells ++ received_over last fresh; moved = false; total = n })))
        total'
receive_pieces (p ∷ ps) t last fresh cells total rest full ends some_bytes room small =
    let same = received_over-full p [] (full.0) in
    let longer : length (cells ++ p) ≡ length cells + 1000 =
      omega (arith, length-append cells p, full.0) in
    receive-piece t p [] cells total (map (piece []) ps ++ (piece fresh last ∷ rest)) (omega arith)
      (omega arith) (omega (arith, full.0))
    ∙ ap
        (λ (b : Bytes).
          receive (pos t) (map (piece []) ps ++ (piece fresh last ∷ rest))
            (record { cells = cells ++ b; moved = false; total = total + length p }))
        same
    ∙ receive_pieces ps t last fresh (cells ++ p) (total + length p) rest (full.1)
        (omega (arith, full.0)) some_bytes (omega (arith, longer)) small
    ∙ ap (λ (b : Bytes). Outcome.done (some (record { cells = b; moved = false; total = t })))
        (append_assoc cells p (joined ps ++ received_over last fresh)
          ∙ ap (λ (b : Bytes). cells ++ b)
              (sym (append_assoc p (joined ps) (received_over last fresh))))

-- Behind 1000 bytes received there is no padding.
framed-full :
    (n : ℕ) (d : Bytes)
    → length (header n ++ d) ≡ 1000
    → framed n (d ++ padding (header n ++ d)) ≡ framed n d
unfolding blank
framed-full n d full =
    let none_left : 1000 - length (header n ++ d) ≡ 0 = omega arith in
    let empty : padding (header n ++ d) ≡ [] =
      drop-replicate (length (header n ++ d)) 1000 0
      ∙ ap (λ (k : ℕ). replicate {A = ℕ} k 0) none_left in
    ap (λ (x : Bytes). framed n (d ++ x)) empty ∙ ap (λ (x : Bytes). framed n x) (append-nil d)

framed-append : (n : ℕ) (d e : Bytes) → framed n d ++ e ≡ framed n (d ++ e)
framed-append n d e =
    ap (λ t. b'd' ∷ b'a' ∷ b't' ∷ b'a' ∷ b'_' ∷ b'l' ∷ b'e' ∷ b'n' ∷ b':' ∷ t)
      (append_assoc (format_int (pos n)) (b'|' ∷ b'd' ∷ b'a' ∷ b't' ∷ b'a' ∷ b':' ∷ d) e)

length-joined : (ps : List Bytes) → AreFull ps → length (joined ps) ≡ 1000 * length ps
length-joined [] full = omega arith
length-joined (p ∷ ps) full =
    omega (arith, length-append p (joined ps), full.0, length-joined ps full.1)

-- The bytes of the request, at the front of the last part of the buffer.
take-last :
    (last fresh : Bytes) → length last ≤ 1000 → take (length last) (received_over last fresh) ≡ last
take-last last fresh small =
    let back = drop (length last) fresh in
    let whole : 1000 ≡ length last + (1000 - length last) = omega arith in
    ap (λ (k : ℕ). take (length last) (take k (last ++ back))) whole
    ∙ ap (take (length last)) (take_plus-append last back (1000 - length last))
    ∙ take-append last (take (1000 - length last) back)

module _ (process : Bytes → ℕ → Outcome ℤ) (report : ℤ → ℤ) where
  -- A request of less than 0x7fff_0000 bytes that arrives in pieces of 1000 bytes, the first with the header
  -- and the last of at least one byte, while `realloc` extends the buffer in place, is processed once with its length, and the data
  -- handed over begin with all the bytes of the request, in order. Where the processing returns, its
  -- count is answered, and the connection is closed and the buffer freed once.
  pub handle_connection-pieces :
      (n : ℕ) (d last fresh : Bytes) (ps : List Bytes) (rest : List Round)
      → length (header n ++ d) ≡ 1000
      → AreFull ps
      → 1 ≤ length last
      → length last ≤ 1000
      → n ≡ length d + 1000 * length ps + length last
      → n < 0x7fff_0000
      → (body : Bytes) × (handle_connection process report (record {
        allocated = true;
        first = got (header n ++ d);
        rounds = map (piece []) ps ++ (piece fresh last ∷ rest);
      })
          ≡ served process report body n)
        × (take n body ≡ d ++ (joined ps ++ last))
  handle_connection-pieces n d last fresh ps rest full pieces some_bytes fits sum small =
      let rounds = map (piece []) ps ++ (piece fresh last ∷ rest) in
      let end = received_over last fresh in
      let body = d ++ (joined ps ++ end) in
      let size : length d + 1000 * length ps + length last
          ≡ length d + (length (joined ps) + length last) =
        omega (arith, length-joined ps pieces) in
      let total = 9 + digits n + 6 + length d in
      let all = 9 + digits n + 6 + n in
      let length_cells : length (framed n d) ≡ 1000 =
        ap length (sym (header-framed n d (omega arith))) ∙ full in
      let thousand : total ≡ 1000 = sym (length-framed n d (omega arith)) ∙ full in
      let received =
        receive_pieces ps all last fresh (framed n d) total rest pieces (omega (arith, sum))
          some_bytes (omega (arith, length_cells, sum)) (omega (arith, thousand, sum)) in
      (
        body,
        handle_connection-framed process report n d rounds (omega arith) small
            ∙ ap
                (λ (cells : Bytes).
                  receive (pos all) rounds (record { cells = cells; moved = false; total = total })
                  >>= finish process report (9 + digits n + 6) (pos n))
                (framed-full n d full)
            ∙ ap (λ (o : Outcome _). o >>= finish process report (9 + digits n + 6) (pos n))
                received
            ∙ ap
                (λ (cells : Bytes).
                  finish process report (9 + digits n + 6) (pos n)
                    (some (record { cells = cells; moved = false; total = all })))
                (framed-append n d (joined ps ++ received_over last fresh))
            ∙ finish-framed process report n body all (omega arith),
        ap (λ (k : ℕ). take k body) (sum ∙ size)
            ∙ take_plus-append d (joined ps ++ end) (length (joined ps) + length last)
            ∙ ap (λ (x : Bytes). d ++ x)
                (take_plus-append (joined ps) end (length last)
                  ∙ ap (λ (x : Bytes). joined ps ++ x) (take-last last fresh fits)),
      )
