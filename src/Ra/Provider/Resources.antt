-- ===== src/Ra/Provider/Resources.antt =====
-- What a call of a handler holds of the outside when it returns, and how its result and its response
-- agree.
use sgx_nfv.Prelude.{
  ℕ, ◌+◌, ◌-◌, ◌≤◌, ◌≡◌, refl, Bool, true, false, Option, none, some, arith, ℤ, negsuc, Outcome,
  done, fault, spinning, length, not, ◌||◌, ltb, ◌==◌, if◌then◌else◌,
}
use mathlib.Core.Path.{subst}
use sgx_nfv.Ra.Crypto.{Crypto}
use sgx_nfv.Ra.Provider.{
  Sp, Reply, untouched, message, sp_internal_error, sp_unsupported_extended_epid_group,
}
use sgx_nfv.Ra.Provider.Groups.{ias_group}
use sgx_nfv.Ra.Provider.Laws.{
  Config, IsConfigured, Balanced, Contextless, Ends, msg1_block-Allocated, msg3_block-Responded,
}
use sgx_nfv.Ra.Provider.Msg0.{is_zero}
use sgx_nfv.Ra.Provider.Msg1.{Msg1, Msg2, msg1_block, msg1_end, sp_ra_proc_msg1_req}
use sgx_nfv.Ra.Provider.Msg3.{Msg3, AttResult, cmaced, msg3_block, msg3_end, sp_ra_proc_msg3_req}
use sgx_nfv.Ra.Provider.Run.{Frame, Flow, go, stop, crash}

-- The blocks that the caller has been given.
abbrev pub given : {A : Type 0} → Reply A → ℕ
given (message m) = 1
given _ = 0

-- There is a response exactly where the result is 0.
abbrev pub Answers : {A : Type 0} → ℤ → Reply A → Type 0
Answers ret (message m) = is_zero ret ≡ true
Answers ret _ = is_zero ret ≡ false

-- The call returned; it kept the configuration, closed every context that it opened and freed every
-- block but the one of the response.
unfoldable pub Settles : {A : Type 0} → Sp → Outcome (ℤ × Reply A × Sp) → Type 0
Settles s (done (ret, reply, s')) =
    (s'.group ≡ s.group)
    × (s'.is_registered ≡ s.is_registered)
    × (s'.contexts ≡ s.contexts)
    × (s'.blocks ≡ s.blocks + given reply)
    × Answers ret reply
Settles s fault = ⊥
Settles s spinning = ⊥

-- An early return.
Settles-early :
    {A : Type 0} (s : Sp) (b : Bool) (ret : ℤ) (rest : Outcome (ℤ × Reply A × Sp))
    → is_zero ret ≡ false
    → (b ≡ false → Settles s rest)
    → Settles s (if b then done (ret, untouched, s) else rest)
unfolding Settles
Settles-early s true ret rest e k = (refl, refl, refl, omega arith, e)
Settles-early s false ret rest e k = k refl

Settles-refused :
    (A : Type 0) (s : Sp) (ret : ℤ)
    → is_zero ret ≡ false
    → Settles {A = A} s (done (ret, untouched, s))
unfolding Settles
Settles-refused A s ret e = (refl, refl, refl, omega arith, e)

-- The state in which the block of a handler begins.
abbrev entry : Sp → Frame
entry s = record { sp = s; ecc_state = false; full = false }

entry-Balanced : (s : Sp) → Balanced s (entry s) × (false ≡ false) × (false ≡ false)
entry-Balanced s = (
  record { group = refl; is_registered = refl; contexts = omega arith; blocks = omega arith },
  refl,
  refl,
)

pub group-eq :
    (c : Crypto) (s : Sp)
    → IsConfigured c s
    → not s.is_registered ≡ false
    → s.group ≡ some (ias_group c)
group-eq c s h on =
    let e : s.is_registered ≡ true = ground arith in subst (λ b. Config c b s.group) e h

msg1_end-Settles :
    (s : Sp) (r : Flow Msg2)
    → Ends (λ g. Balanced s g × (g.full ≡ true)) (Balanced s) r
    → Settles s (msg1_end r)
unfolding msg1_end Settles
msg1_end-Settles s (go m f) h = ground arith
msg1_end-Settles s (stop ret f) h = ground arith
msg1_end-Settles s crash h = absurd h

-- A provider whose group is set if it is registered handles message 1 without following NULL. On
-- every path it closes the ECC context that it opened, frees the response unless it hands it out, and
-- hands it out exactly where it returns 0; the registration does not change.
pub sp_ra_proc_msg1_req-Settles :
    (c : Crypto) (malloc : ℕ → Bool) (m : Option Msg1) (size : ℕ) (pp : Bool) (s : Sp)
    → IsConfigured c s
    → Settles s (sp_ra_proc_msg1_req c malloc m size pp s)
unfolding sp_ra_proc_msg1_req
sp_ra_proc_msg1_req-Settles c malloc none size pp s h = Settles-refused _ s (negsuc 0) refl
sp_ra_proc_msg1_req-Settles c malloc (some m) size pp s h =
    let rest = msg1_end (msg1_block c malloc m (entry s)) in
    let open_case =
      if not s.is_registered
      then done (sp_unsupported_extended_epid_group, untouched, s)
      else rest in
    Settles-early s (not pp || not (size == 68)) (negsuc 0) open_case refl λ good.
      Settles-early s (not s.is_registered) sp_unsupported_extended_epid_group rest refl λ on.
        msg1_end-Settles s _
          (msg1_block-Allocated c malloc s (group-eq c s h on) m (entry s) (entry-Balanced s))

msg3_end-Settles :
    (s : Sp) (r : Flow AttResult)
    → Ends (λ g. Balanced s g × (g.ecc_state ≡ false) × (g.full ≡ true)) (Contextless s) r
    → Settles s (msg3_end r)
unfolding msg3_end Settles
msg3_end-Settles s (go m f) h = ground arith
msg3_end-Settles s (stop ret f) h = ground arith
msg3_end-Settles s crash h = absurd h

-- A provider whose group is set if it is registered handles message 3 without an access through NULL or
-- outside the message, where the message has the bytes that its size says and its quote has its fixed part
-- of 432 bytes. On every path as many ECC contexts are open at the end as at the start, that which the
-- attestation server opens for its signature included; the response is freed unless it is handed out, and
-- it is handed out exactly where 0 is returned; the registration does not change.
pub sp_ra_proc_msg3_req-Settles :
    (c : Crypto) (malloc : ℕ → Bool) (m : Msg3) (size : ℕ) (pp : Bool) (s : Sp)
    → IsConfigured c s
    → size - 16 ≤ length (cmaced m)
    → 432 ≤ length m.quote
    → Settles s (sp_ra_proc_msg3_req c malloc (some m) size pp s)
unfolding sp_ra_proc_msg3_req
sp_ra_proc_msg3_req-Settles c malloc m size pp s h whole quote =
    let rest = msg3_end (msg3_block c malloc m size (entry s)) in
    let open_case =
      if not s.is_registered
      then done (sp_unsupported_extended_epid_group, untouched, s)
      else rest in
    Settles-early s (ltb size 336 || not pp) sp_internal_error open_case refl λ good.
      Settles-early s (not s.is_registered) sp_unsupported_extended_epid_group rest refl λ on.
        msg3_end-Settles s _ (
          msg3_block-Responded c malloc s (group-eq c s h on) m size (entry s) whole quote
            (entry-Balanced s))
