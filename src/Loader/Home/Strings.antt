-- ===== src/Loader/Home/Strings.antt =====
-- Strings in buffers whose rest is zero.
use sgx_nfv.Prelude.{
  take-all, take-append, ℕ, zero, suc, ◌+◌, ◌-◌, ◌≤◌, ◌≡◌, ◌≢◌, refl, ◌∙◌, ap, sym, true, false, [],
  ◌∷◌, ◌++◌, ltb, arith, length, take, drop, replicate, length-append, length-replicate,
  drop-replicate, done,
}
use mathlib.Core.List.{append_assoc}
use sgx_nfv.Loader.{Bytes}
use sgx_nfv.Loader.Home.{string_of, write_at, strncpy, strncat}

-- A text of C: no byte of it is zero.
abbrev pub NoZero : Bytes → Type 0
NoZero [] = Unit
NoZero (b ∷ bs) = (b ≢ 0) × NoZero bs

pub NoZero-append : (s t : Bytes) → NoZero s → NoZero t → NoZero (s ++ t)
NoZero-append [] t hs ht = ht
NoZero-append (b ∷ s) t hs ht = (hs.0, NoZero-append s t hs.1 ht)

-- A buffer that begins with `s` and is zero from there on, for `k` bytes.
abbrev pub padded : Bytes → ℕ → Bytes
padded s k = s ++ replicate k 0

pub string_of-padded : (s : Bytes) (k : ℕ) → NoZero s → string_of (padded s k) ≡ s
unfolding string_of
string_of-padded [] zero h = refl
string_of-padded [] (suc k) h = refl
string_of-padded (b ∷ s) k h = ground (arith, string_of-padded s k h.1, h.0)

length-padded : (s : Bytes) (k : ℕ) → length (padded s k) ≡ length s + k
length-padded s k = omega (arith, length-append s (replicate k 0), length-replicate {A = ℕ} k 0)

take-padded : (s : Bytes) (k : ℕ) → take (length s) (padded s k) ≡ s
take-padded s k = take-append s (replicate k 0)

drop-padded : (s : Bytes) (n k : ℕ) → drop (length s + n) (padded s k) ≡ replicate (k - n) 0
drop-padded [] n k = ap (λ (m : ℕ). drop m (replicate k 0)) (omega arith) ∙ drop-replicate n k 0
drop-padded (b ∷ s) n k =
    let e : length (b ∷ s) + n ≡ suc (length s + n) = omega arith in
    ap (λ (m : ℕ). drop m (padded (b ∷ s) k)) e ∙ drop-padded s n k

replicate-append : (j k : ℕ) → replicate {A = ℕ} j 0 ++ replicate k 0 ≡ replicate (j + k) 0
replicate-append zero k = ap (λ (m : ℕ). replicate {A = ℕ} m 0) (omega arith)
replicate-append (suc j) k =
    let e : suc (j + k) ≡ suc j + k = omega arith in
    ap (◌∷◌ 0) (replicate-append j k) ∙ ap (λ (m : ℕ). replicate {A = ℕ} m 0) e

-- A text and `j` zero bytes behind it, written at the end of a string that has room.
write_at-padded :
    (s t : Bytes) (j k : ℕ)
    → length t + j ≤ k
    → write_at (padded s k) (length s) (padded t j) ≡ done (padded (s ++ t) (k - length t))
unfolding write_at
write_at-padded s t j k room =
    let inside : ltb (length (padded s k)) (length s + length (padded t j)) ≡ false =
      ground (arith, length-padded s k, length-padded t j) in
    let behind : drop (length s + length (padded t j)) (padded s k)
        ≡ replicate (k - (length t + j)) 0 =
      ap (λ (m : ℕ). drop (length s + m) (padded s k)) (length-padded t j)
      ∙ drop-padded s (length t + j) k in
    let zeros : j + (k - (length t + j)) ≡ k - length t = omega arith in
    rw (inside, behind, take-padded s k)
      (ap done (
        ap (λ (x : Bytes). s ++ x)
          (append_assoc t (replicate j 0) (replicate (k - (length t + j)) 0))
        ∙ sym (append_assoc s t (replicate j 0 ++ replicate (k - (length t + j)) 0))
        ∙ ap (λ (x : Bytes). (s ++ t) ++ x) (replicate-append j (k - (length t + j)))
        ∙ ap (λ (m : ℕ). (s ++ t) ++ replicate m 0) zeros))

-- `strncpy` of a whole string, and of a string with its terminator, into a zero buffer.
pub strncpy-padded :
    (s : Bytes) (j k : ℕ)
    → length s + j ≤ k
    → strncpy (replicate k 0) s (length s + j) ≡ done (padded s (k - length s))
unfolding strncpy
strncpy-padded s j k room =
    let n : length s + j - length s ≡ j = omega arith in
    let all : take (length s + j) s ≡ s = take-all (length s + j) s (omega arith) in
    rw (all, n) (write_at-padded [] s j k room)

-- `strncat` behind a string, where there is room for the text and its terminator.
pub strncat-padded :
    (s t : Bytes) (n k : ℕ)
    → NoZero s
    → length t ≤ n
    → length t + 1 ≤ k
    → strncat (padded s k) t n ≡ done (padded (s ++ t) (k - length t))
unfolding strncat
strncat-padded s t n k text whole room =
    let ends : ltb (length s) (length (padded s k)) ≡ true = ground (arith, length-padded s k) in
    rw (string_of-padded s k text, ends, take-all n t whole) (write_at-padded s t 1 k room)
