-- ===== src/Ra/Provider/Steps.antt =====
-- What each handler of service_provider/service_provider.cpp does to the phase of the protocol.
use sgx_nfv.Prelude.{
  ℕ, ◌≡◌, refl, sym, ◌∙◌, inl, inr, Bool, true, false, not, ◌||◌, Option, none, some, [], ◌∷◌, ℤ,
  negsuc, Outcome, done, fault, spinning, ltb, ◌==◌, if◌then◌else◌, take,
}
use sgx_nfv.Ra.Crypto.{Bytes, Crypto}
use sgx_nfv.Ra.Ias.{ias_enroll}
use sgx_nfv.Ra.Provider.{
  sp_ok, Sp, Reply, untouched, null, message, sp_internal_error, sp_unsupported_extended_epid_group,
}
use sgx_nfv.Ra.Provider.After.{After, Holds, Either, msg1_block-Holds, msg3_block-Holds}
use sgx_nfv.Ra.Provider.Groups.{ias_group, extended_epid_groups}
use sgx_nfv.Ra.Provider.Msg0.{is_zero, other_group, configure, enroll_in, sp_ra_proc_msg0_req}
use sgx_nfv.Ra.Provider.Msg1.{
  Msg1, Msg2, msg1_block, msg1_end, sp_ra_proc_msg1_req, close_context, release,
}
use sgx_nfv.Ra.Provider.Msg3.{Msg3, AttResult, msg3_block, msg3_end, sp_ra_proc_msg3_req}
use sgx_nfv.Ra.Provider.Phases.{Phase, Event, asked, offered, proved, nothing, Moves}
use sgx_nfv.Ra.Provider.Run.{Frame, Flow, go, stop, crash}
use sgx_nfv.Ra.Provider.Sound.{sp_ra_proc_msg3_req-Vouched}

abbrev pub phase_of : Sp → Phase
phase_of s = record { registered = s.is_registered; key = s.db.g_a }

abbrev pub has_message : {A : Type 0} → Reply A → Bool
has_message (message m) = true
has_message _ = false

-- what a request did, the result being whatever it is
abbrev pub Did : {A : Type 0} → (Bool → Event) → Sp → Outcome (ℤ × Reply A × Sp) → Type 0
Did e s (done (ret, reply, s')) = Moves (e (has_message reply)) (phase_of s) (phase_of s')
Did e s fault = Unit
Did e s spinning = Unit

-- The end of a handler changes only what it counts.
after_end-Holds :
    (e f : Bool) (s : Sp) {b : Bool} {k : Bytes}
    → (s.is_registered ≡ b) × (s.db.g_a ≡ k)
    → ((close_context e (release f s)).is_registered ≡ b)
      × ((close_context e (release f s)).db.g_a ≡ k)
after_end-Holds true true s h = h
after_end-Holds true false s h = h
after_end-Holds false true s h = h
after_end-Holds false false s h = h

msg1_end-Did :
    (k : Bytes) (s : Sp) (r : Flow Msg2)
    → s.is_registered ≡ true
    → After (Holds s.is_registered k) (Either s.is_registered s.db.g_a k) r
    → Did (offered k) s (msg1_end r)
unfolding msg1_end Moves
msg1_end-Did k s (go m f) on h =
    let (a, b) = after_end-Holds f.ecc_state false f.sp h in (on, a ∙ on, b)
msg1_end-Did k s (stop ret f) on (inl h) =
    let (a, b) = after_end-Holds f.ecc_state f.full f.sp h in (a, inl b)
msg1_end-Did k s (stop ret f) on (inr h) =
    let (a, b) = after_end-Holds f.ecc_state f.full f.sp h in (a, inr (on, b))
msg1_end-Did k s crash on h = tt

-- An early return answers nothing and changes nothing.
Did-early :
    {A : Type 0} (e : Bool → Event) (s : Sp) (b : Bool) (ret : ℤ)
    (rest : Outcome (ℤ × Reply A × Sp))
    → Moves (e false) (phase_of s) (phase_of s)
    → (b ≡ false → Did e s rest)
    → Did e s (if b then done (ret, untouched, s) else rest)
Did-early e s true ret rest same k = same
Did-early e s false ret rest same k = k refl

on_of : (b : Bool) → not b ≡ false → b ≡ true
on_of true h = refl
on_of false h = cc

pub msg1-Did :
    (c : Crypto) (malloc : ℕ → Bool) (m : Msg1) (size : ℕ) (pp : Bool) (s : Sp)
    → Did (offered (take 64 m.g_a)) s (sp_ra_proc_msg1_req c malloc (some m) size pp s)
unfolding sp_ra_proc_msg1_req Moves
msg1-Did c malloc m size pp s =
    let k = take 64 m.g_a in
    let f : Frame = record { sp = s; ecc_state = false; full = false } in
    let rest = msg1_end (msg1_block c malloc m f) in
    let open_case =
      if not s.is_registered
      then done (sp_unsupported_extended_epid_group, untouched, s)
      else rest in
    Did-early (offered k) s (not pp || not (size == 68)) (negsuc 0) open_case (refl, inl refl)
      λ good.
        Did-early (offered k) s (not s.is_registered) sp_unsupported_extended_epid_group rest
          (refl, inl refl)
          λ on.
            msg1_end-Did k s _ (on_of s.is_registered on)
              (msg1_block-Holds c malloc s.is_registered m s.db.g_a f (refl, refl))

pub msg1_null-Did :
    (c : Crypto) (malloc : ℕ → Bool) (size : ℕ) (pp : Bool) (s : Sp)
    → Did (λ b. nothing) s (sp_ra_proc_msg1_req c malloc none size pp s)
unfolding sp_ra_proc_msg1_req Moves
msg1_null-Did c malloc size pp s = (refl, refl)

msg3_end-Did :
    (s : Sp) (r : Flow AttResult)
    → After (Holds s.is_registered s.db.g_a) (Holds s.is_registered s.db.g_a) r
    → Did (λ b. nothing) s (msg3_end r)
unfolding msg3_end Moves
msg3_end-Did s (go m f) h = h
msg3_end-Did s (stop ret f) h = after_end-Holds false f.full f.sp h
msg3_end-Did s crash h = tt

-- Message 3 changes neither the registration nor the key.
pub msg3-Did :
    (c : Crypto) (malloc : ℕ → Bool) (m : Msg3) (size : ℕ) (pp : Bool) (s : Sp)
    → Did (λ b. nothing) s (sp_ra_proc_msg3_req c malloc (some m) size pp s)
unfolding sp_ra_proc_msg3_req Moves
msg3-Did c malloc m size pp s =
    let f : Frame = record { sp = s; ecc_state = false; full = false } in
    let rest = msg3_end (msg3_block c malloc m size f) in
    let open_case =
      if not s.is_registered
      then done (sp_unsupported_extended_epid_group, untouched, s)
      else rest in
    Did-early (λ b. nothing) s (ltb size 336 || not pp) sp_internal_error open_case (refl, refl)
      λ good.
        Did-early (λ b. nothing) s (not s.is_registered) sp_unsupported_extended_epid_group rest
          (refl, refl)
          λ on.
            msg3_end-Did s _
              (msg3_block-Holds c malloc s.is_registered m size s.db.g_a f (refl, refl))

pub msg3-Moves :
    (c : Crypto) (malloc : ℕ → Bool) (m : Msg3) (size : ℕ) (pp : Bool) (s s' : Sp) (ret : ℤ)
    (reply : Reply AttResult)
    → sp_ra_proc_msg3_req c malloc (some m) size pp s ≡ done (ret, reply, s')
    → Did (λ b. nothing) s (done (ret, reply, s'))
    → Moves (proved m.g_a (has_message reply)) (phase_of s) (phase_of s')
unfolding Moves
msg3-Moves c malloc m size pp s s' ret untouched e same = same
msg3-Moves c malloc m size pp s s' ret null e same = same
msg3-Moves c malloc m size pp s s' ret (message a) e same =
    let v = sp_ra_proc_msg3_req-Vouched c malloc m size pp s s' ret a e in
    (same, v.registered, sym v.same_g_a)

-- Message 0 leaves the key, and the provider is registered where it is answered.
abbrev pub Asked : Sp → ℤ × Sp → Type 0
Asked s r = Moves (asked (is_zero r.0)) (phase_of s) (phase_of r.1)

Asked-if :
    (s : Sp) (b : Bool) (x y : ℤ × Sp)
    → (b ≡ true → Asked s x)
    → (b ≡ false → Asked s y)
    → Asked s (if b then x else y)
Asked-if s true x y h k = h refl
Asked-if s false x y h k = k refl

on_of_either : (b t : Bool) → not b || t ≡ false → b ≡ true
on_of_either true t h = refl
on_of_either false t h = cc

pub msg0-Moves :
    (c : Crypto) (m : Option ℕ) (size : ℕ) (s : Sp)
    → Asked s (sp_ra_proc_msg0_req (extended_epid_groups c) m size s)
unfolding sp_ra_proc_msg0_req configure enroll_in ias_enroll Moves
msg0-Moves c none size s = (refl, refl)
msg0-Moves c (some id) size s =
    let group = ias_group c in
    let wrong : Asked s (negsuc 0, s) = (refl, refl) in
    let unsupported : Asked s (sp_unsupported_extended_epid_group, s) = (refl, refl) in
    let enrols : Asked s (enroll_in group s) = (refl, refl) in
    Asked-if s (not (size == 4)) (negsuc 0, s) _ (λ h. wrong)
      λ h.
        Asked-if s (not s.is_registered || other_group s.group id) (configure (group ∷ []) id s)
          (sp_ok, s)
          (λ h.
            Asked-if s (0 == id) (enroll_in group s) (sp_unsupported_extended_epid_group, s)
              (λ h. enrols) λ h. unsupported)
          λ h. (on_of_either s.is_registered (other_group s.group id) h, refl)
