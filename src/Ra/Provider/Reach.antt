-- ===== src/Ra/Provider/Reach.antt =====
-- The service provider over a run of requests.
use sgx_nfv.Prelude.{
  ℕ, ◌-◌, ◌≤◌, ◌≡◌, refl, ◌∙◌, Bool, true, false, not, ◌||◌, Option, none, some, ℤ, done, length,
  ◌==◌, if◌then◌else◌,
}
use mathlib.Core.Path.{subst}
use sgx_nfv.Ra.Crypto.{Crypto}
use sgx_nfv.Ra.Ias.{ias_enroll}
use sgx_nfv.Ra.Provider.{Sp, Reply, initial}
use sgx_nfv.Ra.Provider.Groups.{extended_epid_groups}
use sgx_nfv.Ra.Provider.Laws.{IsConfigured}
use sgx_nfv.Ra.Provider.Msg0.{other_group, enroll_in, configure, sp_ra_proc_msg0_req}
use sgx_nfv.Ra.Provider.Msg1.{Msg1, Msg2, sp_ra_proc_msg1_req}
use sgx_nfv.Ra.Provider.Msg3.{Msg3, AttResult, cmaced, sp_ra_proc_msg3_req}
use sgx_nfv.Ra.Provider.Resources.{
  Settles, sp_ra_proc_msg1_req-Settles, sp_ra_proc_msg3_req-Settles,
}

-- One request: any message 0 or 1, NULL included, or a message 3 that is not NULL, has the bytes that its
-- size says and a quote with its fixed part of 432 bytes.
pub data Serves (c : Crypto) : Sp → Sp → Type 0 where
  msg0 :
      (m : Option ℕ) (size : ℕ) {s : Sp} (r : ℤ) (s' : Sp)
      → sp_ra_proc_msg0_req (extended_epid_groups c) m size s ≡ (r, s')
      → Serves c s s'
  msg1 :
      (malloc : ℕ → Bool) (m : Option Msg1) (size : ℕ) (pp : Bool) {s : Sp} (r : ℤ)
      (reply : Reply Msg2) (s' : Sp)
      → sp_ra_proc_msg1_req c malloc m size pp s ≡ done (r, reply, s')
      → Serves c s s'
  msg3 :
      (malloc : ℕ → Bool) (m : Msg3) (size : ℕ) (pp : Bool) {s : Sp} (r : ℤ)
      (reply : Reply AttResult) (s' : Sp)
      → size - 16 ≤ length (cmaced m)
      → 432 ≤ length m.quote
      → sp_ra_proc_msg3_req c malloc (some m) size pp s ≡ done (r, reply, s')
      → Serves c s s'

pub data Reach (c : Crypto) : Sp → Type 0 where
  start : Reach c initial
  next : {s s' : Sp} → Reach c s → Serves c s s' → Reach c s'

pub record IsSound (c : Crypto) (s : Sp) : Type 0 where
  pub configured : IsConfigured c s
  pub closed : s.contexts ≡ 0

IsSound-if :
    (c : Crypto) (b : Bool) (x y : ℤ × Sp)
    → IsSound c x.1
    → IsSound c y.1
    → IsSound c (if b then x else y).1
IsSound-if c true x y h k = h
IsSound-if c false x y h k = k

msg0-IsSound :
    (c : Crypto) (m : Option ℕ) (size : ℕ) (s : Sp)
    → IsSound c s
    → IsSound c (sp_ra_proc_msg0_req (extended_epid_groups c) m size s).1
unfolding sp_ra_proc_msg0_req configure enroll_in ias_enroll
msg0-IsSound c none size s h = h
msg0-IsSound c (some id) size s h = IsSound-if c (not (size == 4)) _ _ h (
    IsSound-if c (not s.is_registered || other_group s.group id) _ _
      (IsSound-if c (0 == id) _ _ (record { configured = refl; closed = h.closed }) h) h)

Settles-IsSound :
    {A : Type 0} (c : Crypto) (s s' : Sp) (r : ℤ) (reply : Reply A)
    → IsSound c s
    → Settles s (done (r, reply, s'))
    → IsSound c s'
unfolding Settles
Settles-IsSound c s s' r reply h k = record {
  configured = rw (k.0, k.1) h.configured;
  closed = k.2 ∙ h.closed;
}

pub Serves-IsSound : (c : Crypto) {s s' : Sp} → Serves c s s' → IsSound c s → IsSound c s'
Serves-IsSound c (msg0 m size {s} r s' e) h =
    subst (λ p. IsSound c p.1) e (msg0-IsSound c m size s h)
Serves-IsSound c (msg1 malloc m size pp {s} r reply s' e) h =
    Settles-IsSound c s s' r reply h
      (subst (λ o. Settles s o) e (sp_ra_proc_msg1_req-Settles c malloc m size pp s h.configured))
Serves-IsSound c (msg3 malloc m size pp {s} r reply s' whole quote e) h =
    Settles-IsSound c s s' r reply h (
      subst (λ o. Settles s o) e
        (sp_ra_proc_msg3_req-Settles c malloc m size pp s h.configured whole quote))

-- After any run of requests from the start, a registered provider has the group of the attestation
-- server, and no ECC context is left open.
pub Reach-IsSound : (c : Crypto) {s : Sp} → Reach c s → IsSound c s
Reach-IsSound c start = record { configured = tt; closed = refl }
Reach-IsSound c (next r st) = Serves-IsSound c st (Reach-IsSound c r)
