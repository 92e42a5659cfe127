-- ===== src/Benchmark/Sums.antt =====
-- Prefix sums of bytes, and the memory benchmark.
use sgx_nfv.Prelude.{
  ℕ, suc, ◌+◌, ◌-◌, ◌%◌, ◌≡◌, refl, ◌∙◌, ap, sym, List, [], ◌∷◌, ◌++◌, set, get_elem?, some, length,
  arith, length-append, done,
}
use mathlib.Core.List.{append_assoc}
use sgx_nfv.Benchmark.{accumulate, ecall_stress_memory}

-- The sums of the bytes of a list, from `acc` on, each as one byte.
unfoldable pub prefix_sums : ℕ → List ℕ → List ℕ
prefix_sums acc [] = []
prefix_sums acc (x ∷ xs) = (x + acc) % 0x100 ∷ prefix_sums ((x + acc) % 0x100) xs

get_elem?-append : (xs ys : List ℕ) (y : ℕ) → get_elem? (xs ++ (y ∷ ys)) (length xs) ≡ some y
get_elem?-append [] ys y = refl
get_elem?-append (x ∷ xs) ys y = get_elem?-append xs ys y

set-append : (xs ys : List ℕ) (y v : ℕ) → set (xs ++ (y ∷ ys)) (length xs) v ≡ xs ++ (v ∷ ys)
set-append [] ys y v = refl
set-append (x ∷ xs) ys y v = ap (◌∷◌ x) (set-append xs ys y v)

accumulate_round :
    (n i : ℕ) (d : List ℕ) (a b : ℕ)
    → get_elem? d i ≡ some a
    → get_elem? d (i - 1) ≡ some b
    → accumulate (suc n) i d ≡ accumulate n (i + 1) (set d i ((a + b) % 0x100))
unfolding accumulate
accumulate_round n i d a b at before = ground (arith, at, before)

accumulate-prefix_sums :
    (front rest tail : List ℕ) (p : ℕ)
    → accumulate (length rest) (length front + 1) (front ++ (p ∷ (rest ++ tail)))
      ≡ done (front ++ (p ∷ (prefix_sums p rest ++ tail)))
unfolding accumulate prefix_sums
accumulate-prefix_sums front [] tail p = refl
accumulate-prefix_sums front (x ∷ rest) tail p =
    let v = (x + p) % 0x100 in
    let d = front ++ (p ∷ (x ∷ (rest ++ tail))) in
    let shape : d ≡ (front ++ (p ∷ [])) ++ (x ∷ (rest ++ tail)) =
      sym (append_assoc front (p ∷ []) (x ∷ (rest ++ tail))) in
    let size : length (front ++ (p ∷ [])) ≡ length front + 1 = length-append front (p ∷ []) in
    let at : get_elem? d (length front + 1) ≡ some x =
      rw (shape, sym size) (get_elem?-append (front ++ (p ∷ [])) (rest ++ tail) x) in
    let before : get_elem? d (length front + 1 - 1) ≡ some p =
      ap (get_elem? d) (omega arith) ∙ get_elem?-append front (x ∷ (rest ++ tail)) p in
    let changed : set d (length front + 1) v ≡ (front ++ (p ∷ [])) ++ (v ∷ (rest ++ tail)) =
      rw (shape, sym size) (set-append (front ++ (p ∷ [])) (rest ++ tail) x v) in
    let more = accumulate-prefix_sums (front ++ (p ∷ [])) rest tail v in
    let round : accumulate (suc (length rest)) (length front + 1) d
        ≡ accumulate (length rest) (length front + 1 + 1) (set d (length front + 1) v) =
      accumulate_round (length rest) (length front + 1) d x p at before in
    round
    ∙ ap (λ (l : List ℕ). accumulate (length rest) (length front + 1 + 1) l) changed
    ∙ ap (λ (k : ℕ). accumulate (length rest) (k + 1) ((front ++ (p ∷ [])) ++ (v ∷ (rest ++ tail))))
        (sym size)
    ∙ more
    ∙ ap done (append_assoc front (p ∷ []) (v ∷ (prefix_sums v rest ++ tail)))

-- On a buffer that begins with the announced bytes, one at least, the benchmark leaves the first byte,
-- puts in place of each other announced byte the sum of the bytes up to it, modulo 256, and does not
-- touch what follows.
pub ecall_stress_memory-prefix_sums :
    (p : ℕ) (rest tail : List ℕ)
    → ecall_stress_memory (p ∷ (rest ++ tail)) (suc (length rest))
      ≡ done (p ∷ (prefix_sums p rest ++ tail))
unfolding ecall_stress_memory
ecall_stress_memory-prefix_sums p rest tail =
    let rounds : suc (length rest) - 1 ≡ length rest = omega arith in
    let first : 1 ≡ 0 + 1 = omega arith in
    ap (λ (n : ℕ). accumulate n 1 (p ∷ (rest ++ tail))) rounds
    ∙ ap (λ (i : ℕ). accumulate (length rest) i (p ∷ (rest ++ tail))) first
    ∙ accumulate-prefix_sums [] rest tail p
