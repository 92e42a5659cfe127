-- ===== src/Ra/Provider/After.antt =====
-- What the blocks of the handlers in service_provider/service_provider.cpp do to the session's public
-- key and to the registration, on every path out of them.
use sgx_nfv.Prelude.{ℕ, ◌≡◌, ◌⊎◌, inl, inr, Bool, take, arith, Option}
use sgx_nfv.Ra.Crypto.{Bytes, Crypto}
use sgx_nfv.Ra.Ecp.{memcpy_s}
use sgx_nfv.Ra.Ias.{AttReport}
use sgx_nfv.Ra.Provider.Msg1.{Msg1, fetch_sigrl, exchange, derive_keys, assemble, msg1_block}
use sgx_nfv.Ra.Provider.Msg3.{
  Msg3, authenticate, verify_report_data, expected_report_data, verify_quote, respond, seal,
  msg3_block,
}
use sgx_nfv.Ra.Provider.Run.{Frame, Flow, go, stop, crash, Step, then_run}

-- `P` holds at the end of the block, and `Q` at a `break`.
abbrev pub After : {A : Type 0} → (P Q : Frame → Type 0) → Flow A → Type 0
After P Q (go a g) = P g
After P Q (stop ret g) = Q g
After P Q crash = Unit

pub After-bind :
    {A B : Type 0} (P Q R S : Frame → Type 0) (r : Flow A) (k : A → Step B)
    → After P Q r
    → ((g : Frame) → Q g → S g)
    → ((a : A) (g : Frame) → P g → After R S (k a g))
    → After R S (then_run r k)
After-bind P Q R S (go a g) k e weaken next = next a g e
After-bind P Q R S (stop ret g) k e weaken next = weaken g e
After-bind P Q R S crash k e weaken next = e

After-mono :
    {A : Type 0} (P Q S : Frame → Type 0) (r : Flow A)
    → After P Q r
    → ((g : Frame) → Q g → S g)
    → After P S r
After-mono P Q S (go a g) h weaken = h
After-mono P Q S (stop ret g) h weaken = weaken g h
After-mono P Q S crash h weaken = h

-- The session has this registration and this key.
abbrev pub Holds : Bool → Bytes → Frame → Type 0
Holds b key g = (g.sp.is_registered ≡ b) × (g.sp.db.g_a ≡ key)

-- The key is one of two.
abbrev pub Either : Bool → Bytes → Bytes → Frame → Type 0
Either b key key' g = Holds b key g ⊎ Holds b key' g

module _ (c : Crypto) (malloc : ℕ → Bool) (b : Bool) where
  fetch_sigrl-Holds :
      (gid key : Bytes) (f : Frame)
      → Holds b key f
      → After (Holds b key) (Holds b key) (fetch_sigrl c malloc gid f)
  unfolding fetch_sigrl
  fetch_sigrl-Holds gid key f h = ground arith

  exchange-Holds :
      (g_a key : Bytes) (f : Frame)
      → Holds b key f
      → After (Holds b (take 64 g_a)) (Holds b (take 64 g_a)) (exchange c malloc g_a f)
  unfolding exchange memcpy_s
  exchange-Holds g_a key f h = ground arith

  derive_keys-Holds :
      (dh key : Bytes) (f : Frame)
      → Holds b key f
      → After (Holds b key) (Holds b key) (derive_keys c malloc dh f)
  unfolding derive_keys
  derive_keys-Holds dh key f h = ground arith

  assemble-Holds :
      (ctx : ℕ) (rl : ℕ × Option Bytes) (key : Bytes) (f : Frame)
      → Holds b key f
      → After (Holds b key) (Holds b key) (assemble c malloc ctx rl f)
  unfolding assemble
  assemble-Holds ctx rl key f h = ground arith

  authenticate-Holds :
      (m : Msg3) (size : ℕ) (key : Bytes) (f : Frame)
      → Holds b key f
      → After (Holds b key) (Holds b key) (authenticate c malloc m size f)
  unfolding authenticate
  authenticate-Holds m size key f h = ground arith

  verify_report_data-Holds :
      (m : Msg3) (key : Bytes) (f : Frame)
      → Holds b key f
      → After (Holds b key) (Holds b key) (verify_report_data c malloc m f)
  unfolding verify_report_data expected_report_data
  verify_report_data-Holds m key f h = ground arith

  verify_quote-Holds :
      (m : Msg3) (key : Bytes) (f : Frame)
      → Holds b key f
      → After (Holds b key) (Holds b key) (verify_quote c malloc m f)
  unfolding verify_quote
  verify_quote-Holds m key f h = ground arith

  respond-Holds :
      (r : AttReport) (key : Bytes) (f : Frame)
      → Holds b key f
      → After (Holds b key) (Holds b key) (respond c malloc r f)
  unfolding respond seal
  respond-Holds r key f h = ground arith

  pub msg1_block-Holds :
      (m : Msg1) (key : Bytes) (f : Frame)
      → Holds b key f
      → After (Holds b (take 64 m.g_a)) (Either b key (take 64 m.g_a)) (msg1_block c malloc m f)
  unfolding msg1_block
  msg1_block-Holds m key f h =
      let offered = take 64 m.g_a in
      let maybe = Either b key offered in
      After-bind (Holds b key) (Holds b key) (Holds b offered) maybe _ _
        (fetch_sigrl-Holds m.gid key f h) (λ g k. inl k)
        λ rl g p.
          After-bind (Holds b offered) (Holds b offered) (Holds b offered) maybe _ _
            (exchange-Holds m.g_a key g p) (λ g k. inr k)
            λ x g p.
              After-bind (Holds b offered) (Holds b offered) (Holds b offered) maybe _ _
                (derive_keys-Holds x.1 offered g p) (λ g k. inr k)
                λ u g p.
                  After-mono (Holds b offered) (Holds b offered) maybe (assemble c malloc x.0 rl g)
                    (assemble-Holds x.0 rl offered g p) (λ g k. inr k)

  pub msg3_block-Holds :
      (m : Msg3) (size : ℕ) (key : Bytes) (f : Frame)
      → Holds b key f
      → After (Holds b key) (Holds b key) (msg3_block c malloc m size f)
  unfolding msg3_block
  msg3_block-Holds m size key f h =
      let H = Holds b key in
      After-bind H H H H _ _ (authenticate-Holds m size key f h) (λ g k. k)
        λ u g p.
          After-bind H H H H _ _ (verify_report_data-Holds m key g p) (λ g k. k)
            λ u g p.
              After-bind H H H H _ _ (verify_quote-Holds m key g p) (λ g k. k)
                λ r g p. respond-Holds r key g p
