-- ===== src/Ra/Provider/Account.antt =====
-- Requests in every state that service_provider/service_provider.cpp can be in, and the blocks that are
-- handed out.
use sgx_nfv.Prelude.{
  ℕ, ◌+◌, ◌-◌, ◌≤◌, ◌≡◌, refl, Bool, not, true, false, Option, none, some, ℤ, Outcome, done, fault,
  spinning, length, arith, ◌==◌, ◌||◌, if◌then◌else◌,
}
use mathlib.Core.Path.{subst}
use sgx_nfv.Ra.Crypto.{Crypto}
use sgx_nfv.Ra.Ias.{ias_enroll}
use sgx_nfv.Ra.Provider.{Sp, Reply}
use sgx_nfv.Ra.Provider.Groups.{extended_epid_groups}
use sgx_nfv.Ra.Provider.Msg0.{other_group, configure, enroll_in, sp_ra_proc_msg0_req}
use sgx_nfv.Ra.Provider.Msg1.{Msg1}
use sgx_nfv.Ra.Provider.Msg3.{Msg3, cmaced}
use sgx_nfv.Ra.Provider.Resources.{
  given, Settles, sp_ra_proc_msg1_req-Settles, sp_ra_proc_msg3_req-Settles,
}
use sgx_nfv.Ra.Provider.Reach.{
  Serves, msg0, msg1, msg3, Reach, start, next, IsSound, Serves-IsSound, Reach-IsSound,
}

-- A request with what the allocations of its handler give: any message 0 or 1, NULL included, or a message
-- 3 that is not NULL, has the bytes that its size says and a quote with its fixed part of 432 bytes.
pub data Request : Type 0 where
  ask : (m : Option ℕ) (size : ℕ) → Request
  offer : (malloc : ℕ → Bool) (m : Option Msg1) (size : ℕ) (pp : Bool) → Request
  prove :
      (malloc : ℕ → Bool) (m : Msg3) (size : ℕ) (pp : Bool)
      → size - 16 ≤ length (cmaced m)
      → 432 ≤ length m.quote
      → Request

module _ (c : Crypto) where
  abbrev pub request_of : {s s' : Sp} → Serves c s s' → Request
  request_of (msg0 m size ret s' e) = ask m size
  request_of (msg1 malloc m size pp ret reply s' e) = offer malloc m size pp
  request_of (msg3 malloc m size pp ret reply s' whole quote e) = prove malloc m size pp whole quote

  -- The blocks that a request hands out, and those of a run.
  abbrev pub handed_by : {s s' : Sp} → Serves c s s' → ℕ
  handed_by (msg0 m size ret s' e) = 0
  handed_by (msg1 malloc m size pp ret reply s' e) = given reply
  handed_by (msg3 malloc m size pp ret reply s' whole quote e) = given reply

  abbrev pub handed_out : {s : Sp} → Reach c s → ℕ
  handed_out start = 0
  handed_out (next r st) = handed_out r + handed_by st

  if-blocks :
      (n : ℕ) (b : Bool) (x y : ℤ × Sp)
      → x.1.blocks ≡ n
      → y.1.blocks ≡ n
      → (if b then x else y).1.blocks ≡ n
  if-blocks n true x y h k = h
  if-blocks n false x y h k = k

  msg0-blocks :
      (m : Option ℕ) (size : ℕ) (s : Sp)
      → (sp_ra_proc_msg0_req (extended_epid_groups c) m size s).1.blocks ≡ s.blocks
  unfolding sp_ra_proc_msg0_req configure enroll_in ias_enroll
  msg0-blocks none size s = refl
  msg0-blocks (some id) size s = if-blocks s.blocks (not (size == 4)) _ _ refl (
      if-blocks s.blocks (not s.is_registered || other_group s.group id) _ _
        (if-blocks s.blocks (0 == id) _ _ refl refl) refl)

  Settles-blocks :
      {A : Type 0} (s s' : Sp) (ret : ℤ) (reply : Reply A)
      → Settles s (done (ret, reply, s'))
      → s'.blocks ≡ s.blocks + given reply
  unfolding Settles
  Settles-blocks s s' ret reply h = h.3

  Settles-done :
      {A : Type 0} (s : Sp) (o : Outcome (ℤ × Reply A × Sp))
      → Settles s o
      → (ret : ℤ) × (reply : Reply A) × (s' : Sp) × (o ≡ done (ret, reply, s'))
  unfolding Settles
  Settles-done s (done (ret, reply, s')) h = (ret, reply, s', refl)
  Settles-done s fault h = absurd h
  Settles-done s spinning h = absurd h

  Serves-blocks :
      {s s' : Sp} (st : Serves c s s') → IsSound c s → s'.blocks ≡ s.blocks + handed_by st
  Serves-blocks (msg0 m size {s} ret s' e) h =
      let same : s'.blocks ≡ s.blocks =
        subst (λ p. p.1.blocks ≡ s.blocks) e (msg0-blocks m size s) in
      omega arith
  Serves-blocks (msg1 malloc m size pp {s} ret reply s' e) h =
      Settles-blocks s s' ret reply
        (subst (λ o. Settles s o) e (sp_ra_proc_msg1_req-Settles c malloc m size pp s h.configured))
  Serves-blocks (msg3 malloc m size pp {s} ret reply s' whole quote e) h =
      Settles-blocks s s' ret reply (
        subst (λ o. Settles s o) e
          (sp_ra_proc_msg3_req-Settles c malloc m size pp s h.configured whole quote))

  Reach-blocks : {s : Sp} (r : Reach c s) → s.blocks ≡ handed_out r
  Reach-blocks start = refl
  Reach-blocks (next r st) = omega (arith, Reach-blocks r, Serves-blocks st (Reach-IsSound c r))

  serve_request :
      (s : Sp) (q : Request) → IsSound c s → (s' : Sp) × (st : Serves c s s') × (request_of st ≡ q)
  serve_request s (ask m size) h =
      let p = sp_ra_proc_msg0_req (extended_epid_groups c) m size s in
      (p.1, Serves.msg0 m size p.0 p.1 refl, refl)
  serve_request s (offer malloc m size pp) h =
      let (ret, reply, s', e) =
        Settles-done s _ (sp_ra_proc_msg1_req-Settles c malloc m size pp s h.configured) in
      (s', Serves.msg1 malloc m size pp ret reply s' e, refl)
  serve_request s (prove malloc m size pp whole quote) h =
      let (ret, reply, s', e) =
        Settles-done s _
          (sp_ra_proc_msg3_req-Settles c malloc m size pp s h.configured whole quote) in
      (s', Serves.msg3 malloc m size pp ret reply s' whole quote e, refl)

-- In every state that a run of requests from the start can lead to, with one library for the whole run,
-- every message 0, every message 1, and every message 3 that is not NULL and has the bytes that its size
-- says and a quote with its fixed part of 432 bytes, is served: its handler returns without an access through
-- NULL or out of bounds. After it, a registered provider has the group of the attestation server, no ECC
-- context is open, neither of the provider nor of the attestation server, and the blocks that are
-- allocated are as many as the answers to messages 1 and 3 that were handed out in the run and in this
-- request. The requests of the run are such ones too.
pub Reach-serves :
    (c : Crypto) {s : Sp} (r : Reach c s) (q : Request)
    → (s' : Sp) × (st : Serves c s s') × (request_of c st ≡ q)
      × IsSound c s'
      × (s'.blocks ≡ handed_out c r + handed_by c st)
Reach-serves c {s} r q =
    let (s', st, at) = serve_request c s q (Reach-IsSound c r) in
    (s', st, at, Serves-IsSound c st (Reach-IsSound c r), Reach-blocks c (next r st))
