-- ===== src/Ra/Provider/Core.antt =====
-- What `sp_ra_proc_msg3_req` of service_provider/service_provider.cpp reads of the state, and keeps.
use sgx_nfv.Prelude.{
  ℕ, ◌≡◌, refl, ap, sym, ◌∙◌, Bool, true, false, not, ◌||◌, Option, some, none, [], ℤ, ltb,
  if◌then◌else◌, Outcome, done, fault, spinning, arith,
}
use mathlib.Core.Path.{subst}
use sgx_nfv.Ra.Crypto.{Crypto}
use sgx_nfv.Ra.Ias.{AttReport}
use sgx_nfv.Ra.Provider.{
  Sp, Reply, untouched, sp_internal_error, sp_unsupported_extended_epid_group,
}
use sgx_nfv.Ra.Provider.Msg1.{release}
use sgx_nfv.Ra.Provider.Msg3.{
  Msg3, AttResult, authenticate, verify_report_data, expected_report_data, verify_quote, respond,
  seal, msg3_block, msg3_end, sp_ra_proc_msg3_req,
}
use sgx_nfv.Ra.Provider.After.{After, After-bind}
use sgx_nfv.Ra.Provider.Run.{Frame, Flow, go, stop, crash, Step, then_run}

-- The state without what message 3 may change, the security properties and the counts, and without the
-- functions of the attestation server.
abbrev pub core : Sp → Sp
core s = record s {
  db = record (s.db) { ps_sec_prop = [] };
  group = none;
  contexts = 0;
  hashes = 0;
  blocks = 0;
}

abbrev pub core_frame : Frame → Frame
core_frame f = record f { sp = core f.sp }

abbrev pub core_flow : {A : Type 0} → Flow A → Flow A
core_flow (go a f) = go a (core_frame f)
core_flow (stop ret f) = stop ret (core_frame f)
core_flow crash = crash

-- A step that reads the core only.
abbrev pub ReadsCore : {A : Type 0} → Step A → Frame → Type 0
ReadsCore step f = core_flow (step f) ≡ core_flow (step (core_frame f))

module _ (c : Crypto) (malloc : ℕ → Bool) where
  authenticate-ReadsCore :
      (m : Msg3) (size : ℕ) (f : Frame) → ReadsCore (authenticate c malloc m size) f
  unfolding authenticate
  authenticate-ReadsCore m size f = ground arith

  verify_report_data-ReadsCore :
      (m : Msg3) (f : Frame) → ReadsCore (verify_report_data c malloc m) f
  unfolding verify_report_data expected_report_data
  verify_report_data-ReadsCore m f = ground arith

core_bind :
    {A B : Type 0} (r r' : Flow A) (k : A → Step B)
    → core_flow r ≡ core_flow r'
    → ((a : A) (g : Frame) → ReadsCore (k a) g)
    → core_flow (then_run r k) ≡ core_flow (then_run r' k)
core_bind r r' k e reads =
    core_then r k reads ∙ ap (λ x. core_flow (then_run x k)) e ∙ sym (core_then r' k reads)
  where
    core_then :
        {A B : Type 0} (r : Flow A) (k : A → Step B)
        → ((a : A) (g : Frame) → ReadsCore (k a) g)
        → core_flow (then_run r k) ≡ core_flow (then_run (core_flow r) k)
    core_then (go a g) k reads = reads a g
    core_then (stop ret g) k reads = refl
    core_then crash k reads = refl

abbrev HasCore : Sp → Frame → Type 0
HasCore s g = core g.sp ≡ core s

module _ (c : Crypto) (malloc : ℕ → Bool) where
  -- The checks of the message itself: its key, its MAC and the report data.
  unfoldable pub guards : Msg3 → ℕ → Step (Unit {0})
  guards m size f = then_run (authenticate c malloc m size f) (λ u. verify_report_data c malloc m)

  pub guards-ReadsCore : (m : Msg3) (size : ℕ) (f : Frame) → ReadsCore (guards m size) f
  unfolding guards
  guards-ReadsCore m size f =
      core_bind (authenticate c malloc m size f) _ _ (authenticate-ReadsCore c malloc m size f)
        λ u g. verify_report_data-ReadsCore c malloc m g

  -- What follows the checks.
  pub msg3_block-guards :
      (m : Msg3) (size : ℕ) (f : Frame)
      → msg3_block c malloc m size f
        ≡ then_run
            (guards m size f)
            (λ u g. then_run (verify_quote c malloc m g) (respond c malloc))
  unfolding msg3_block guards
  msg3_block-guards m size f = regroup (authenticate c malloc m size f)
    where
      regroup :
          (r : Flow (Unit {0}))
          → then_run r (λ u g.
            then_run
              (verify_report_data c malloc m g)
              (λ v h. then_run (verify_quote c malloc m h) (respond c malloc)))
            ≡ then_run
                (then_run r (λ u. verify_report_data c malloc m))
                (λ u g. then_run (verify_quote c malloc m g) (respond c malloc))
      regroup (go a g) = refl
      regroup (stop ret g) = refl
      regroup crash = refl

  abbrev pub Has : Sp → Frame → Type 0
  Has s g = (core g.sp ≡ core s) × (g.sp.contexts ≡ s.contexts) × (g.sp.group ≡ s.group)

  authenticate-Has :
      (s : Sp) (m : Msg3) (size : ℕ) (f : Frame)
      → Has s f
      → After (Has s) (Has s) (authenticate c malloc m size f)
  unfolding authenticate
  authenticate-Has s m size f h = ground arith

  verify_report_data-Has :
      (s : Sp) (m : Msg3) (f : Frame)
      → Has s f
      → After (Has s) (Has s) (verify_report_data c malloc m f)
  unfolding verify_report_data expected_report_data
  verify_report_data-Has s m f h = ground arith

  guards-After :
      (s : Sp) (m : Msg3) (size : ℕ) (f : Frame) → Has s f → After (Has s) (Has s) (guards m size f)
  unfolding guards
  guards-After s m size f h =
      let P = Has s in
      After-bind P P P P _ _ (authenticate-Has s m size f h) (λ g k. k)
        λ u g p. verify_report_data-Has s m g p

  -- The checks leave the session and the open contexts as they are.
  pub guards-Has :
      (s : Sp) (m : Msg3) (size : ℕ) (f : Frame) (u : Unit {0}) (g : Frame)
      → Has s f
      → guards m size f ≡ go u g
      → Has s g
  guards-Has s m size f u g h e = subst (After (Has s) (Has s)) e (guards-After s m size f h)

  authenticate-KeepsCore :
      (s : Sp) (m : Msg3) (size : ℕ) (f : Frame)
      → core f.sp ≡ core s
      → After (HasCore s) (HasCore s) (authenticate c malloc m size f)
  unfolding authenticate
  authenticate-KeepsCore s m size f h = ground arith

  verify_report_data-KeepsCore :
      (s : Sp) (m : Msg3) (f : Frame)
      → core f.sp ≡ core s
      → After (HasCore s) (HasCore s) (verify_report_data c malloc m f)
  unfolding verify_report_data expected_report_data
  verify_report_data-KeepsCore s m f h = ground arith

  verify_quote-KeepsCore :
      (s : Sp) (m : Msg3) (f : Frame)
      → core f.sp ≡ core s
      → After (HasCore s) (HasCore s) (verify_quote c malloc m f)
  unfolding verify_quote
  verify_quote-KeepsCore s m f h = ground arith

  respond-KeepsCore :
      (s : Sp) (r : AttReport) (f : Frame)
      → core f.sp ≡ core s
      → After (HasCore s) (HasCore s) (respond c malloc r f)
  unfolding respond seal
  respond-KeepsCore s r f h = ground arith

  msg3_block-KeepsCore :
      (s : Sp) (m : Msg3) (size : ℕ) (f : Frame)
      → core f.sp ≡ core s
      → After (HasCore s) (HasCore s) (msg3_block c malloc m size f)
  unfolding msg3_block
  msg3_block-KeepsCore s m size f h =
      let P = HasCore s in
      After-bind P P P P _ _ (authenticate-KeepsCore s m size f h) (λ g k. k)
        λ u g p.
          After-bind P P P P _ _ (verify_report_data-KeepsCore s m g p) (λ g k. k)
            λ u g p.
              After-bind P P P P _ _ (verify_quote-KeepsCore s m g p) (λ g k. k)
                λ r g p. respond-KeepsCore s r g p

release-core : (b : Bool) (s : Sp) → core (release b s) ≡ core s
release-core true s = refl
release-core false s = refl

-- What a handler does to the core of a state.
abbrev pub KeepsCore : Sp → Outcome (ℤ × Reply AttResult × Sp) → Type 0
KeepsCore s (done (ret, reply, s')) = core s' ≡ core s
KeepsCore s fault = Unit
KeepsCore s spinning = Unit

msg3_end-KeepsCore :
    (s : Sp) (r : Flow AttResult) → After (HasCore s) (HasCore s) r → KeepsCore s (msg3_end r)
unfolding msg3_end
msg3_end-KeepsCore s (go m f) h = h
msg3_end-KeepsCore s (stop ret f) h = release-core f.full f.sp ∙ h
msg3_end-KeepsCore s crash h = tt

KeepsCore-early :
    (s : Sp) (b : Bool) (ret : ℤ) (rest : Outcome (ℤ × Reply AttResult × Sp))
    → KeepsCore s rest
    → KeepsCore s (if b then done (ret, untouched, s) else rest)
KeepsCore-early s true ret rest h = refl
KeepsCore-early s false ret rest h = h

pub sp_ra_proc_msg3_req-KeepsCore :
    (c : Crypto) (malloc : ℕ → Bool) (m : Option Msg3) (size : ℕ) (pp : Bool) (s : Sp)
    → KeepsCore s (sp_ra_proc_msg3_req c malloc m size pp s)
unfolding sp_ra_proc_msg3_req
sp_ra_proc_msg3_req-KeepsCore c malloc none size pp s = refl
sp_ra_proc_msg3_req-KeepsCore c malloc (some m) size pp s =
    let f : Frame = record { sp = s; ecc_state = false; full = false } in
    KeepsCore-early s (ltb size 336 || not pp) sp_internal_error _ (
      KeepsCore-early s (not s.is_registered) sp_unsupported_extended_epid_group _
        (msg3_end-KeepsCore s _ (msg3_block-KeepsCore c malloc s m size f refl)))
