-- ===== src/Packet/Compare.antt =====
-- The inner loop of the inspection, which compares the prefix with the bytes at `index`.
use sgx_nfv.Prelude.{
  ℕ, zero, suc, ◌+◌, ◌≤◌, ◌<◌, ◌≡◌, ◌⊎◌, inl, inr, refl, true, false, some, List, [], ◌∷◌, arith,
  get_elem?, length, done, ◌==◌, ==_iff, Bool-cases, if◌then◌else◌,
}
use sgx_nfv.Packet.{read, found}
use sgx_nfv.Packet.Packing.{Occurs}

pub get_elem?-within : (d : List ℕ) (i : ℕ) → i < length d → (b : ℕ) × (get_elem? d i ≡ some b)
get_elem?-within [] i h = elim h [ ]
get_elem?-within (x ∷ d) zero h = (x, refl)
get_elem?-within (x ∷ d) (suc i) h = get_elem?-within d i (omega arith)

-- From round `i` on, `n` rounds: the bytes agree.
abbrev Agree : List ℕ → ℕ → ℕ → ℕ → Type 0
Agree d index n i = (k : ℕ) → i ≤ k → k < i + n → get_elem? d (index + k) ≡ get_elem? d k

found_step :
    (d : List ℕ) (index n i : ℕ) {a b : ℕ}
    → get_elem? d i ≡ some a
    → get_elem? d (index + i) ≡ some b
    → found d index (suc n) i ≡ (if a == b then found d index n (i + 1) else done false)
unfolding found
found_step d index n i e f = rw (e, f, read)

Agree-cons :
    (d : List ℕ) (index n i : ℕ)
    → get_elem? d (index + i) ≡ get_elem? d i
    → Agree d index n (i + 1)
    → Agree d index (suc n) i
Agree-cons d index n i e h k lo hi = elim (Bool-cases (i == k)) [
  | inl same ↦ let p : i ≡ k = ground arith in rw (← p) e
  | inr other ↦ h k (ground arith) (omega arith)
]

found_cases :
    (d : List ℕ) (index n i : ℕ)
    → index + i + n ≤ length d
    → ((found d index n i ≡ done true) × Agree d index n i)
      ⊎ ((found d index n i ≡ done false) × ¬ Agree d index n i)
unfolding found
found_cases d index zero i h = inl (refl, λ k a b. absurd (omega arith))
found_cases d index (suc n) i h =
    let (a, ea) = get_elem?-within d i (omega arith) in
    let (b, eb) = get_elem?-within d (index + i) (omega arith) in
    let step = found_step d index n i ea eb in
    elim (Bool-cases (a == b)) [
      | inl same ↦
          let p : a ≡ b = (==_iff a b).0 same in
          let q : get_elem? d (index + i) ≡ get_elem? d i = cc in
          elim (found_cases d index n (i + 1) (omega arith)) [
            | inl (e, g) ↦ inl (ground arith, Agree-cons d index n i q g)
            | inr (e, g) ↦
                inr (ground arith, λ all. g (λ k lo hi. all k (omega arith) (omega arith)))
          ]
      | inr differ ↦ inr (
        ground arith,
        λ all.
            let p : get_elem? d (index + i) ≡ get_elem? d i = all i (omega arith) (omega arith) in
            ground arith,
      )
    ]

-- The inner loop decides whether the prefix occurs at `index`.
pub found_decides :
    (d : List ℕ) (index s : ℕ)
    → index + s ≤ length d
    → ((found d index s 0 ≡ done true) × Occurs d s index)
      ⊎ ((found d index s 0 ≡ done false) × ¬ Occurs d s index)
found_decides d index s h = elim (found_cases d index s 0 (omega arith)) [
  | inl (e, g) ↦ inl (e, λ i lt. g i (omega arith) (omega arith))
  | inr (e, g) ↦ inr (e, λ o. g (λ k lo hi. o k (omega arith)))
]
