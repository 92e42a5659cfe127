-- ===== src/Packet/Packing.antt =====
-- What the inspection counts: how many copies of the packet's own prefix fit into it side by side.
use sgx_nfv.Prelude.{ℕ, ◌+◌, ◌≤◌, ◌<◌, ◌≡◌, ◌≢◌, sym, List, [], ◌∷◌, arith, get_elem?, length}
use mathlib.Core.Path.{subst}

-- The first `s` bytes occur again at `p`.
abbrev pub Occurs : List ℕ → ℕ → ℕ → Type 0
Occurs d s p = (i : ℕ) → i < s → get_elem? d (p + i) ≡ get_elem? d i

-- `ps` are ascending positions from `start` on where the prefix occurs, no two of them overlapping,
-- all within the first `len` bytes.
abbrev pub Packing : List ℕ → ℕ → ℕ → ℕ → List ℕ → Type 0
Packing d len s start [] = Unit
Packing d len s start (p ∷ ps) =
    (start ≤ p) × (p + s ≤ len) × Occurs d s p × Packing d len s (p + s) ps

-- `n` is the size of the largest packing from `start` on.
pub record IsLargest (d : List ℕ) (len s start n : ℕ) : Type 0 where
  pub packing : List ℕ
  pub fits : Packing d len s start packing
  pub size : length packing ≡ n
  pub largest : (ps : List ℕ) → Packing d len s start ps → length ps ≤ n

module _ (d : List ℕ) (len s : ℕ) where
  pub Packing-mono : (a b : ℕ) (ps : List ℕ) → a ≤ b → Packing d len s b ps → Packing d len s a ps
  Packing-mono a b [] h k = tt
  Packing-mono a b (p ∷ ps) h k = (omega arith, k.1, k.2, k.3)

  -- Past the last place where the prefix fits there is nothing.
  Packing-end : (a : ℕ) (ps : List ℕ) → len < a + s → Packing d len s a ps → length ps ≤ 0
  Packing-end a [] h k = omega arith
  Packing-end a (p ∷ ps) h k = absurd (omega arith)

  pub IsLargest-end : (a : ℕ) → len < a + s → IsLargest d len s a 0
  IsLargest-end a h = record {
    packing = [];
    fits = tt;
    size = omega arith;
    largest = λ ps k. Packing-end a ps h k;
  }

  Packing-skip :
      (a : ℕ) (ps : List ℕ) → ¬ Occurs d s a → Packing d len s a ps → Packing d len s (a + 1) ps
  Packing-skip a [] no_copy k = tt
  Packing-skip a (p ∷ ps) no_copy k = (omega (arith, ne), k.1, k.2, k.3)
    where
      ne : a ≢ p
      ne e = no_copy (subst (λ x. Occurs d s x) (sym e) k.2)

  -- Where the prefix does not occur, the packings are those from the next byte on.
  pub IsLargest-skip :
      (a n : ℕ) → ¬ Occurs d s a → IsLargest d len s (a + 1) n → IsLargest d len s a n
  IsLargest-skip a n no_copy l = record {
    packing = l.packing;
    fits = Packing-mono a (a + 1) l.packing (omega arith) l.fits;
    size = l.size;
    largest = λ ps k. l.largest ps (Packing-skip a ps no_copy k);
  }

  Packing-jump :
      (a n : ℕ) (ps : List ℕ)
      → ((qs : List ℕ) → Packing d len s (a + s) qs → length qs ≤ n)
      → Packing d len s a ps
      → length ps ≤ n + 1
  Packing-jump a n [] h k = omega arith
  Packing-jump a n (p ∷ ps) h k =
      omega (arith, h ps (Packing-mono (a + s) (p + s) ps (omega arith) k.3))

  -- Taking the first occurrence is never worse than leaving it.
  pub IsLargest-jump :
      (a n : ℕ)
      → Occurs d s a
      → a + s ≤ len
      → IsLargest d len s (a + s) n
      → IsLargest d len s a (n + 1)
  IsLargest-jump a n o h l = record {
    packing = a ∷ l.packing;
    fits = (omega arith, h, o, l.fits);
    size = omega (arith, l.size);
    largest = λ ps k. Packing-jump a n ps l.largest k;
  }
