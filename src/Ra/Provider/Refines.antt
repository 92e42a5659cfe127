-- ===== src/Ra/Provider/Refines.antt =====
-- The handlers of service_provider/service_provider.cpp run the protocol of Phases.
use sgx_nfv.Prelude.{ℕ, ◌≡◌, sym, ◌∙◌, Bool, true, none, some, List, [], ◌∷◌, ℤ, done, take}
use mathlib.Core.Path.{subst}
use sgx_nfv.Ra.Crypto.{Crypto}
use sgx_nfv.Ra.Provider.{Sp, message}
use sgx_nfv.Ra.Provider.Msg0.{is_zero}
use sgx_nfv.Ra.Provider.Msg3.{Msg3, AttResult, sp_ra_proc_msg3_req}
use sgx_nfv.Ra.Provider.Phases.{
  Event, asked, offered, proved, nothing, Moves, Runs, Runs-MayHold, MayHold, enrolled, begins,
  moves,
}
use sgx_nfv.Ra.Provider.Reach.{Serves, msg0, msg1, msg3, Reach, start, next}
use sgx_nfv.Ra.Provider.Sound.{sp_ra_proc_msg3_req-Vouched}
use sgx_nfv.Ra.Provider.Steps.{
  phase_of, has_message, Did, Asked, msg1-Did, msg1_null-Did, msg3-Did, msg3-Moves, msg0-Moves,
}

-- What a request is to an observer.
abbrev pub event_of : (c : Crypto) {s s' : Sp} → Serves c s s' → Event
event_of c (msg0 m size r s' e) = asked (is_zero r)
event_of c (msg1 malloc none size pp r reply s' e) = nothing
event_of c (msg1 malloc (some m) size pp r reply s' e) = offered (take 64 m.g_a) (has_message reply)
event_of c (msg3 malloc m size pp r reply s' whole quote e) = proved m.g_a (has_message reply)

-- Every request that the provider serves is a move of the protocol, between what an observer knows of the
-- provider before and after it: a session opens only by a message 1 to a registered provider, only the
-- last one counts, and a message 3 is answered only for its key.
pub Serves-Moves :
    (c : Crypto) {s s' : Sp} (st : Serves c s s') → Moves (event_of c st) (phase_of s) (phase_of s')
unfolding Moves
Serves-Moves c (msg0 m size {s} r s' e) = subst (λ p. Asked s p) e (msg0-Moves c m size s)
Serves-Moves c (msg1 malloc none size pp {s} r reply s' e) =
    subst (λ o. Did (λ b. nothing) s o) e (msg1_null-Did c malloc size pp s)
Serves-Moves c (msg1 malloc (some m) size pp {s} r reply s' e) =
    subst (λ o. Did (offered (take 64 m.g_a)) s o) e (msg1-Did c malloc m size pp s)
Serves-Moves c (msg3 malloc m size pp {s} r reply s' whole quote e) =
    msg3-Moves c malloc m size pp s s' r reply e
      (subst (λ o. Did (λ b. nothing) s o) e (msg3-Did c malloc m size pp s))

-- the requests of a run, the latest first
abbrev pub events_of : (c : Crypto) {s : Sp} → Reach c s → List Event
events_of c start = []
events_of c (next r st) = event_of c st ∷ events_of c r

-- A run of the provider from its start is a run of the protocol, request by request.
Reach-Runs : (c : Crypto) {s : Sp} (r : Reach c s) → Runs (events_of c r) (phase_of s)
Reach-Runs c start = begins
Reach-Runs c (next r st) = moves (event_of c st) (Reach-Runs c r) (Serves-Moves c st)

-- After any run of requests from the start, a message 3 is answered only if a message 0 was answered in the
-- run, and if its key is that of the last answered message 1 or of an unanswered one since; without an
-- answered message 1 in the run it may also be the blank key, 64 zero bytes.
pub sp_ra_proc_msg3_req-MayHold :
    (c : Crypto) (malloc : ℕ → Bool) (m : Msg3) (size : ℕ) (pp : Bool) {s : Sp} (s' : Sp) (ret : ℤ)
    (a : AttResult) (r : Reach c s)
    → sp_ra_proc_msg3_req c malloc (some m) size pp s ≡ done (ret, message a, s')
    → (enrolled (events_of c r) ≡ true) × MayHold (events_of c r) m.g_a
sp_ra_proc_msg3_req-MayHold c malloc m size pp {s} s' ret a r e =
    let v = sp_ra_proc_msg3_req-Vouched c malloc m size pp s s' ret a e in
    let (on, held) = Runs-MayHold (Reach-Runs c r) in
    (sym on ∙ v.registered, subst (λ k. MayHold (events_of c r) k) (sym v.same_g_a) held)
