-- ===== src/Ra/Provider/Laws.antt =====
-- What each block of the handlers leaves alone, and what it holds of the outside.
use sgx_nfv.Prelude.{
  bit, ℕ, ◌+◌, ◌-◌, ◌≤◌, ◌≡◌, refl, Bool, true, false, Option, some, arith, ℤ, length, ltb,
}
use sgx_nfv.Ra.Crypto.{Bytes, Crypto, bytes_eq}
use sgx_nfv.Ra.Ias.{ias_get_sigrl, ias_verify_attestation_evidence, AttReport}
use sgx_nfv.Ra.Provider.{Sp, ExtendedEpidGroup}
use sgx_nfv.Ra.Provider.Groups.{ias_group}
use sgx_nfv.Ra.Provider.Msg0.{is_zero}
use sgx_nfv.Ra.Provider.Msg1.{fetch_sigrl, exchange, derive_keys, assemble, msg1_block, Msg1}
use sgx_nfv.Ra.Provider.Msg3.{
  authenticate, expected_report_data, verify_report_data, verify_quote, respond, seal, msg3_block,
  Msg3, cmaced,
}
use sgx_nfv.Ra.Provider.Run.{Frame, Flow, go, stop, crash, Step, then_run, bytes_at, check}

-- A registered provider has the group whose functions it calls.
abbrev pub Config : Crypto → Bool → Option ExtendedEpidGroup → Type 0
Config c true group = group ≡ some (ias_group c)
Config c false group = Unit

abbrev pub IsConfigured : Crypto → Sp → Type 0
IsConfigured c s = Config c s.is_registered s.group

-- From `s` to `g` the configuration is the same, and the contexts and blocks held beyond those of
-- `s` are those that the locals of the handler say.
pub record Balanced (s : Sp) (g : Frame) : Type 0 where
  pub group : g.sp.group ≡ s.group
  pub is_registered : g.sp.is_registered ≡ s.is_registered
  pub contexts : g.sp.contexts ≡ s.contexts + bit g.ecc_state
  pub blocks : g.sp.blocks ≡ s.blocks + bit g.full

-- The same, and no context is open.
abbrev pub Contextless : Sp → Frame → Type 0
Contextless s g = Balanced s g × (g.ecc_state ≡ false)

-- The block does not crash, `P` holds at its end, and `Q` at a `break`, which leaves a `ret` that is
-- not 0.
abbrev pub Ends : {A : Type 0} → (P Q : Frame → Type 0) → Flow A → Type 0
Ends P Q (go a g) = P g
Ends P Q (stop ret g) = Q g × (is_zero ret ≡ false)
Ends P Q crash = ⊥

Ends-bind :
    {A B : Type 0} (P Q R : Frame → Type 0) (r : Flow A) (k : A → Step B)
    → Ends P R r
    → ((a : A) (g : Frame) → P g → Ends Q R (k a g))
    → Ends Q R (then_run r k)
Ends-bind P Q R (go a g) k e next = next a g e
Ends-bind P Q R (stop ret g) k e next = e
Ends-bind P Q R crash k e next = e

bytes_at-Ends :
    (P Q : Frame → Type 0) (b : Bytes) (offset n : ℕ) (f : Frame)
    → offset + n ≤ length b
    → P f
    → Ends P Q (bytes_at b offset n f)
bytes_at-Ends P Q b offset n f h p =
    let inside : ltb (length b) (offset + n) ≡ false = ground arith in rw inside p

check-Ends :
    (P Q : Frame → Type 0) (t : Bool) (ret : ℤ) (f : Frame)
    → is_zero ret ≡ false
    → P f
    → Q f
    → Ends P Q (check t ret f)
check-Ends P Q true ret f e p q = p
check-Ends P Q false ret f e p q = (q, e)

module _ (c : Crypto) (malloc : ℕ → Bool) (s : Sp) (configured : s.group ≡ some (ias_group c)) where
  -- Nothing is open, and nothing is allocated.
  abbrev Idle : Frame → Type 0
  Idle g = Balanced s g × (g.ecc_state ≡ false) × (g.full ≡ false)

  abbrev Unallocated : Frame → Type 0
  Unallocated g = Balanced s g × (g.full ≡ false)

  abbrev pub Allocated : Frame → Type 0
  Allocated g = Balanced s g × (g.full ≡ true)

  fetch_sigrl-Idle :
      (gid : Bytes) (f : Frame) → Idle f → Ends Idle (Balanced s) (fetch_sigrl c malloc gid f)
  unfolding fetch_sigrl ias_get_sigrl
  fetch_sigrl-Idle gid f h = ground arith

  exchange-Unallocated :
      (g_a : Bytes) (f : Frame) → Idle f → Ends Unallocated (Balanced s) (exchange c malloc g_a f)
  unfolding exchange
  exchange-Unallocated g_a f h = ground arith

  derive_keys-Unallocated :
      (dh : Bytes) (f : Frame)
      → Unallocated f
      → Ends Unallocated (Balanced s) (derive_keys c malloc dh f)
  unfolding derive_keys
  derive_keys-Unallocated dh f h = ground arith

  assemble-Allocated :
      (ctx : ℕ) (rl : ℕ × Option Bytes) (f : Frame)
      → Unallocated f
      → Ends Allocated (Balanced s) (assemble c malloc ctx rl f)
  unfolding assemble
  assemble-Allocated ctx rl f h = ground arith

  pub msg1_block-Allocated :
      (m : Msg1) (f : Frame) → Idle f → Ends Allocated (Balanced s) (msg1_block c malloc m f)
  unfolding msg1_block
  msg1_block-Allocated m f h =
      Ends-bind Idle Allocated (Balanced s) _ _ (fetch_sigrl-Idle m.gid f h) λ rl g p.
        Ends-bind Unallocated Allocated (Balanced s) _ _ (exchange-Unallocated m.g_a g p) λ x g p.
          Ends-bind Unallocated Allocated (Balanced s) _ _ (derive_keys-Unallocated (x.1) g p)
            λ u g p. assemble-Allocated (x.0) rl g p

  authenticate-Idle :
      (m : Msg3) (size : ℕ) (f : Frame)
      → size - 16 ≤ length (cmaced m)
      → Idle f
      → Ends Idle (Contextless s) (authenticate c malloc m size f)
  unfolding authenticate
  authenticate-Idle m size f whole h = ground arith

  expected_report_data-Idle :
      (f : Frame) → Idle f → Ends Idle (Contextless s) (expected_report_data c malloc f)
  unfolding expected_report_data
  expected_report_data-Idle f h = ground arith

  verify_report_data-Idle :
      (m : Msg3) (f : Frame)
      → 432 ≤ length m.quote
      → Idle f
      → Ends Idle (Contextless s) (verify_report_data c malloc m f)
  unfolding verify_report_data
  verify_report_data-Idle m f whole h =
      Ends-bind Idle Idle (Contextless s) _ _ (expected_report_data-Idle f h) λ e g p.
        Ends-bind Idle Idle (Contextless s) _ _
          (bytes_at-Ends Idle (Contextless s) m.quote 368 64 g whole p)
          λ actual g p. check-Ends Idle (Contextless s) (bytes_eq e actual) _ g refl p (p.0, p.1)

  verify_quote-Idle :
      (m : Msg3) (f : Frame) → Idle f → Ends Idle (Contextless s) (verify_quote c malloc m f)
  unfolding verify_quote ias_verify_attestation_evidence
  verify_quote-Idle m f h = ground arith

  abbrev pub Responded : Frame → Type 0
  Responded g = Balanced s g × (g.ecc_state ≡ false) × (g.full ≡ true)

  respond-Responded :
      (r : AttReport) (f : Frame) → Idle f → Ends Responded (Contextless s) (respond c malloc r f)
  unfolding respond seal
  respond-Responded r f h = ground arith

  pub msg3_block-Responded :
      (m : Msg3) (size : ℕ) (f : Frame)
      → size - 16 ≤ length (cmaced m)
      → 432 ≤ length m.quote
      → Idle f
      → Ends Responded (Contextless s) (msg3_block c malloc m size f)
  unfolding msg3_block
  msg3_block-Responded m size f whole quote h =
      Ends-bind Idle Responded (Contextless s) _ _ (authenticate-Idle m size f whole h) λ u g p.
        Ends-bind Idle Responded (Contextless s) _ _ (verify_report_data-Idle m g quote p) λ u g p.
          Ends-bind Idle Responded (Contextless s) _ _ (verify_quote-Idle m g p)
            λ r g p. respond-Responded r g p
