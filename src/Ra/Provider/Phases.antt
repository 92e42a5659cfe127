-- ===== src/Ra/Provider/Phases.antt =====
-- The protocol that service_provider/service_provider.cpp runs, as an automaton: what an observer knows
-- of a provider, and which requests change it. The handlers are shown against it in Refines.
use sgx_nfv.Prelude.{
  ◌≡◌, refl, ◌∙◌, sym, ◌⊎◌, inl, inr, Bool, true, false, List, [], ◌∷◌, replicate,
}
use mathlib.Core.Path.{subst}
use sgx_nfv.Ra.Crypto.{Bytes}

-- Whether an attestation server is enrolled, and the public key of the session.
pub record Phase : Type 0 where
  pub registered : Bool
  pub key : Bytes

abbrev pub blank_key : Bytes
blank_key = replicate 64 0

abbrev pub fresh : Phase
fresh = record { registered = false; key = blank_key }

-- A request and whether it was answered: message 0, message 1 with its key, message 3 with its key.
-- `nothing` is a message 1 through NULL.
pub data Event : Type 0 where
  asked : Bool → Event
  offered : Bytes → Bool → Event
  proved : Bytes → Bool → Event
  nothing : Event

abbrev Same : Phase → Phase → Type 0
Same p q = (q.registered ≡ p.registered) × (q.key ≡ p.key)

-- What an event may do. An unanswered message 1 may have opened its session all the same.
unfoldable pub Moves : Event → Phase → Phase → Type 0
Moves (asked true) p q = (q.registered ≡ true) × (q.key ≡ p.key)
Moves (asked false) p q = Same p q
Moves (offered k true) p q = (p.registered ≡ true) × (q.registered ≡ true) × (q.key ≡ k)
Moves (offered k false) p q =
    (q.registered ≡ p.registered) × ((q.key ≡ p.key) ⊎ ((p.registered ≡ true) × (q.key ≡ k)))
Moves (proved k true) p q = Same p q × (p.registered ≡ true) × (p.key ≡ k)
Moves (proved k false) p q = Same p q
Moves nothing p q = Same p q

-- The runs of the automaton, the latest event first.
pub data Runs : List Event → Phase → Type 0 where
  begins : Runs [] fresh
  moves : {es : List Event} {p q : Phase} (e : Event) → Runs es p → Moves e p q → Runs (e ∷ es) q

-- Whether the session may have a key after a run: that of the last answered message 1, or of one of the
-- unanswered ones since.
unfoldable pub MayHold : List Event → Bytes → Type 0
MayHold [] k = k ≡ blank_key
MayHold (offered k' true ∷ es) k = k ≡ k'
MayHold (offered k' false ∷ es) k = (k ≡ k') ⊎ MayHold es k
MayHold (_ ∷ es) k = MayHold es k

-- whether a message 0 was answered
unfoldable pub enrolled : List Event → Bool
enrolled [] = false
enrolled (asked true ∷ es) = true
enrolled (_ ∷ es) = enrolled es

MayHold-eq : (es : List Event) {a b : Bytes} → b ≡ a → MayHold es a → MayHold es b
MayHold-eq es e m = subst (λ x. MayHold es x) (sym e) m

Moves-MayHold :
    (e : Event) (es : List Event) (p q : Phase)
    → Moves e p q
    → MayHold es p.key
    → MayHold (e ∷ es) q.key
unfolding Moves MayHold
Moves-MayHold (asked true) es p q h m = MayHold-eq es h.1 m
Moves-MayHold (asked false) es p q h m = MayHold-eq es h.1 m
Moves-MayHold (offered k true) es p q h m = h.2
Moves-MayHold (offered k false) es p q (h, inl same) m = inr (MayHold-eq es same m)
Moves-MayHold (offered k false) es p q (h, inr opened) m = inl opened.1
Moves-MayHold (proved k true) es p q h m = MayHold-eq es h.0.1 m
Moves-MayHold (proved k false) es p q h m = MayHold-eq es h.1 m
Moves-MayHold nothing es p q h m = MayHold-eq es h.1 m

Moves-enrolled :
    (e : Event) (es : List Event) (p q : Phase)
    → Moves e p q
    → p.registered ≡ enrolled es
    → q.registered ≡ enrolled (e ∷ es)
unfolding Moves enrolled
Moves-enrolled (asked true) es p q h m = h.0
Moves-enrolled (asked false) es p q h m = h.0 ∙ m
Moves-enrolled (offered k true) es p q h m = h.1 ∙ sym h.0 ∙ m
Moves-enrolled (offered k false) es p q h m = h.0 ∙ m
Moves-enrolled (proved k true) es p q h m = h.0.0 ∙ m
Moves-enrolled (proved k false) es p q h m = h.0 ∙ m
Moves-enrolled nothing es p q h m = h.0 ∙ m

-- After a run the automaton is registered exactly where a message 0 was answered, and its key is one
-- that the run allows.
pub Runs-MayHold :
    {es : List Event} {p : Phase} → Runs es p → (p.registered ≡ enrolled es) × MayHold es p.key
unfolding enrolled MayHold
Runs-MayHold begins = (refl, refl)
Runs-MayHold (moves {es} {p} {q} e r h) =
    let before = Runs-MayHold r in
    (Moves-enrolled e es p q h before.0, Moves-MayHold e es p q h before.1)
