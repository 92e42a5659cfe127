-- ===== src/Nfv/Text/Numbers.antt =====
-- sprintf with %i and strtol with base 0.
use sgx_nfv.Prelude.{
  ℕ, zero, suc, ◌+◌, ◌*◌, ◌/◌, ◌%◌, ◌^◌, ◌≤◌, ◌<◌, ◌≡◌, refl, ◌∙◌, ap, sym, inl, inr, true, false,
  ◌||◌, [], ◌∷◌, ◌++◌, arith, ltb, ◌==◌, if◌then◌else◌, length, pos, Bool-cases, length-append,
}
use mathlib.Core.List.{append_assoc, append-nil}
use native.Mathlib.Nat.{pow-suc}
use sgx_nfv.Nfv.Text.{
  Bytes, digit, is_space, scan, scan_prefixed, long_pos, strtol, decimal, format_int,
}

-- The character after the number is no digit.
abbrev pub Ended : Bytes → Type 0
Ended [] = Unit
Ended (c ∷ cs) = 10 ≤ digit c

scan_end : (n k : ℕ) (rest : Bytes) → Ended rest → scan 10 n k rest ≡ (n, k)
unfolding scan
scan_end n k [] h = refl
scan_end n k (c ∷ cs) h = let e : ltb (digit c) 10 ≡ false = ground arith in rw e

digit-low : (d : ℕ) → d < 10 → digit (b'0' + d) ≡ d
digit-low d h = ground arith

scan_digit :
    (d n k : ℕ) (rest : Bytes)
    → d < 10
    → scan 10 n k ((b'0' + d) ∷ rest) ≡ scan 10 (n * 10 + d) (k + 1) rest
unfolding scan
scan_digit d n k rest h =
    let e : digit (b'0' + d) ≡ d = digit-low d h in
    let low : ltb d 10 ≡ true = ground arith in rw (e, low)

scan-decimal :
    (f n k : ℕ) (rest : Bytes)
    → n < 10 ^ suc f
    → scan 10 0 k (decimal (suc f) n ++ rest) ≡ scan 10 n (k + length (decimal (suc f) n)) rest
unfolding decimal
scan-decimal zero n k rest h =
    let low : ltb n 10 ≡ true = ground arith in
    rw low
      (scan_digit n 0 k rest (omega arith) ∙ ap (λ (v : ℕ). scan 10 v (k + 1) rest) (omega arith))
scan-decimal (suc f) n k rest h = elim (Bool-cases (ltb n 10)) [
  | inl low ↦
      rw low (
        scan_digit n 0 k rest (ground arith) ∙ ap (λ (v : ℕ). scan 10 v (k + 1) rest) (omega arith))
  | inr high ↦
      let more = decimal (suc f) (n / 10) in
      let last = b'0' + n % 10 in
      let smaller : n / 10 < 10 ^ suc f = omega (arith, pow-suc 10 (suc f)) in
      let size : k + length (more ++ (last ∷ [])) ≡ k + length more + 1 =
        omega (arith, length-append more (last ∷ [])) in
      rw (high, size, append_assoc)
        (scan-decimal f (n / 10) k (last ∷ rest) smaller
          ∙ scan_digit (n % 10) (n / 10) (k + length more) rest (omega arith)
          ∙ ap (λ (v : ℕ). scan 10 v (k + length more + 1) rest) (omega arith))
]

-- The digits that are written stand for the number.
pub scan-decimal_whole :
    (f n : ℕ) → n < 10 ^ suc f → scan 10 0 0 (decimal (suc f) n) ≡ (n, length (decimal (suc f) n))
scan-decimal_whole f n h =
    let text = decimal (suc f) n in
    let whole : text ++ [] ≡ text = append-nil text in
    let none_before : 0 + length text ≡ length text = omega arith in
    ap (scan 10 0 0) (sym whole)
    ∙ scan-decimal f n 0 [] h
    ∙ scan_end n (0 + length text) [] tt
    ∙ ap (λ (k : ℕ). (n, k)) none_before

-- The first digit of a positive number is not '0'.
decimal_first :
    (f n : ℕ)
    → 0 < n
    → n < 10 ^ suc f
    → (x : ℕ) × (xs : Bytes) × (decimal (suc f) n ≡ x ∷ xs) × (b'1' ≤ x) × (x ≤ b'9')
unfolding decimal
decimal_first zero n p h =
    let low : ltb n 10 ≡ true = ground arith in (b'0' + n, [], rw low, omega arith, omega arith)
decimal_first (suc f) n p h = elim (Bool-cases (ltb n 10)) [
  | inl low ↦ (b'0' + n, [], rw low, omega arith, ground arith)
  | inr high ↦
      let smaller : n / 10 < 10 ^ suc f = omega (arith, pow-suc 10 (suc f)) in
      let (x, xs, e, lo, hi) = decimal_first f (n / 10) (ground arith) smaller in
      (x, xs ++ ((b'0' + n % 10) ∷ []), rw (high, e), lo, hi)
]

scan_prefixed-decimal :
    (x : ℕ) (cs : Bytes) → b'1' ≤ x → x ≤ b'9' → scan_prefixed (x ∷ cs) ≡ scan 10 0 0 (x ∷ cs)
unfolding scan_prefixed
scan_prefixed-decimal x [] lo hi = let e : x == b'0' ≡ false = ground arith in rw e
scan_prefixed-decimal x (y ∷ []) lo hi = let e : x == b'0' ≡ false = ground arith in rw e
scan_prefixed-decimal x (y ∷ h ∷ cs) lo hi = let e : x == b'0' ≡ false = ground arith in rw e

scan_prefixed_zero : (c : ℕ) (cs : Bytes) → digit c ≡ 36 → scan_prefixed (b'0' ∷ c ∷ cs) ≡ (0, 1)
unfolding scan_prefixed scan
scan_prefixed_zero c [] h = rw h
scan_prefixed_zero c (h ∷ cs) e = let x : c == b'x' || c == b'X' ≡ false = ground arith in rw (x, e)

-- A number at the start of the text is read by its digits alone.
strtol_digits :
    (x : ℕ) (cs : Bytes)
    → b'0' ≤ x
    → x ≤ b'9'
    → strtol (x ∷ cs)
      ≡ (let (v, k) = scan_prefixed (x ∷ cs) in if k == 0 then (pos 0, 0) else (long_pos v, 0 + k))
unfolding strtol
strtol_digits x cs lo hi =
    let a : is_space x ≡ false = ground arith in
    let b : x == b'-' ≡ false = ground arith in
    let d : x == b'+' ≡ false = ground arith in rw (a, b, d)

strtol_scanned :
    (x n k : ℕ) (cs : Bytes)
    → b'1' ≤ x
    → x ≤ b'9'
    → n < 0x8000_0000
    → scan 10 0 0 (x ∷ cs) ≡ (n, suc k)
    → strtol (x ∷ cs) ≡ (pos n, suc k)
strtol_scanned x n k cs lo hi small e =
    let v : long_pos n ≡ pos n = ground arith in
    let p : scan_prefixed (x ∷ cs) ≡ (n, suc k) = scan_prefixed-decimal x cs lo hi ∙ e in
    let nonzero : suc k == 0 ≡ false = ground arith in
    let sum : 0 + suc k ≡ suc k = omega arith in
    strtol_digits x cs (omega arith) hi ∙ rw (p, nonzero, v, sum)

-- What `sprintf` writes with `%i` for a number that an `int` can hold, `strtol` with base 0 reads back,
-- up to the first character behind it, where that is no letter and no digit.
pub strtol-format_int :
    (n c : ℕ) (rest : Bytes)
    → n < 0x8000_0000
    → digit c ≡ 36
    → strtol (format_int (pos n) ++ (c ∷ rest)) ≡ (pos n, length (format_int (pos n)))
strtol-format_int zero c rest h e =
    let z : format_int (pos 0) ≡ b'0' ∷ [] = unfold format_int decimal in refl in
    rw z
      (strtol_digits b'0' (c ∷ rest) (omega arith) (omega arith) ∙ rw (scan_prefixed_zero c rest e))
strtol-format_int (suc n) c rest h e =
    let z : format_int (pos (suc n)) ≡ decimal 10 (suc n) = unfold format_int in refl in
    let (x, xs, first, lo, hi) = decimal_first 9 (suc n) (omega arith) (omega arith) in
    let shape : decimal 10 (suc n) ++ (c ∷ rest) ≡ x ∷ (xs ++ (c ∷ rest)) = rw first in
    let read = scan-decimal 9 (suc n) 0 (c ∷ rest) (omega arith) in
    let stop = scan_end (suc n) (0 + length (decimal 10 (suc n))) (c ∷ rest) (omega arith) in
    let size : 0 + length (decimal 10 (suc n)) ≡ suc (length xs) = omega (arith, ap length first) in
    rw (z, first)
      (strtol_scanned x (suc n) (length xs) (xs ++ (c ∷ rest)) lo hi h
        (ap (scan 10 0 0) (sym shape) ∙ read ∙ stop ∙ ap (λ (k : ℕ). (suc n, k)) size))
