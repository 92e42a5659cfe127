-- ===== src/Ra/Provider/Interleaved.antt =====
-- Two clients that talk to the provider at the same time.
use sgx_nfv.Prelude.{
  ℕ, ap, ◌≡◌, ◌≢◌, ◌∙◌, Bool, false, Option, some, length, take, take-all, arith, ℤ, negsuc, not,
  ◌||◌, ◌==◌, done,
}
use sgx_nfv.Ra.Crypto.{Bytes, Crypto}
use sgx_nfv.Ra.Ecp.{memcpy_s}
use sgx_nfv.Ra.Provider.{sp_unsupported_extended_epid_group, Sp, SpDb, message}
use sgx_nfv.Ra.Provider.Msg1.{
  Msg1, Msg2, fetch_sigrl, exchange, derive_keys, assemble, msg1_block, msg1_end,
  sp_ra_proc_msg1_req,
}
use sgx_nfv.Ra.Provider.Msg3.{Msg3, AttResult, sp_ra_proc_msg3_req}
use sgx_nfv.Ra.Provider.Run.{Frame, Flow, go, stop, crash, >>=-eq-go}
use sgx_nfv.Ra.Provider.Sound.{early-message, sp_ra_proc_msg3_req-Vouched}

pub msg1_end-message :
    (o : Flow Msg2) (ret : ℤ) (r : Msg2) (s' : Sp)
    → msg1_end o ≡ done (ret, message r, s')
    → (g : Frame) × (o ≡ go r g) × (s'.db ≡ g.sp.db)
unfolding msg1_end
msg1_end-message (go b g) ret r s' h = (g, ground arith, ground arith)
msg1_end-message (stop n g) ret r s' h = ground arith
msg1_end-message crash ret r s' h = cc

module _ (c : Crypto) (malloc : ℕ → Bool) where
  exchange-go :
      (g_a : Bytes) (f g : Frame) (x : ℕ × Bytes)
      → exchange c malloc g_a f ≡ go x g
      → g.sp.db.g_a ≡ take 64 g_a
  unfolding exchange memcpy_s
  exchange-go g_a f g x h = ground arith

  derive_keys-go :
      (dh : Bytes) (f g : Frame) (u : Unit {0})
      → derive_keys c malloc dh f ≡ go u g
      → g.sp.db.g_a ≡ f.sp.db.g_a
  unfolding derive_keys
  derive_keys-go dh f g u h = ground arith

  assemble-go :
      (ctx : ℕ) (rl : ℕ × Option Bytes) (f g : Frame) (m : Msg2)
      → assemble c malloc ctx rl f ≡ go m g
      → g.sp.db.g_a ≡ f.sp.db.g_a
  unfolding assemble
  assemble-go ctx rl f g m h = ground arith

  msg1_block-go :
      (m : Msg1) (f g : Frame) (r : Msg2)
      → msg1_block c malloc m f ≡ go r g
      → g.sp.db.g_a ≡ take 64 m.g_a
  unfolding msg1_block
  msg1_block-go m f g r h =
      let (rl, f1, e1, k1) = >>=-eq-go (fetch_sigrl c malloc m.gid f) _ h in
      let (x, f2, e2, k2) = >>=-eq-go (exchange c malloc m.g_a f1) _ k1 in
      let (u, f3, e3, k3) = >>=-eq-go (derive_keys c malloc x.1 f2) _ k2 in
      assemble-go x.0 rl f3 g r k3 ∙ derive_keys-go x.1 f2 f3 u e3 ∙ exchange-go m.g_a f1 f2 x e2

  -- What the provider keeps of a client that it has answered.
  sp_ra_proc_msg1_req-g_a :
      (m : Msg1) (size : ℕ) (pp : Bool) (s s' : Sp) (ret : ℤ) (r : Msg2)
      → sp_ra_proc_msg1_req c malloc (some m) size pp s ≡ done (ret, message r, s')
      → s'.db.g_a ≡ take 64 m.g_a
  unfolding sp_ra_proc_msg1_req
  sp_ra_proc_msg1_req-g_a m size pp s s' ret r h =
      let (good, h1) = early-message (not pp || not (size == 68)) (negsuc 0) _ s s' ret r h in
      let (on, h2) =
        early-message (not s.is_registered) sp_unsupported_extended_epid_group _ s s' ret r h1 in
      let (g, e, same) = msg1_end-message _ ret r s' h2 in
      ap (λ (d : SpDb). d.g_a) same
      ∙ msg1_block-go m (record { sp = s; ecc_state = false; full = false }) g r e

-- The provider keeps one session. In the state in which it has answered message 1 of a client, with a key
-- of 64 bytes, no message 3 with another public key gets a response, whatever session was open before,
-- whatever else the message holds, and whichever calls fail.
pub sp_ra_proc_msg1_req-supersedes :
    (c : Crypto) (malloc malloc' : ℕ → Bool) (m1 : Msg1) (size size' : ℕ) (pp pp' : Bool)
    (s s1 s2 : Sp) (ret ret' : ℤ) (m2 : Msg2) (m3 : Msg3) (r : AttResult)
    → sp_ra_proc_msg1_req c malloc (some m1) size pp s ≡ done (ret, message m2, s1)
    → length m1.g_a ≡ 64
    → m3.g_a ≢ m1.g_a
    → sp_ra_proc_msg3_req c malloc' (some m3) size' pp' s1 ≢ done (ret', message r, s2)
sp_ra_proc_msg1_req-supersedes c malloc malloc' m1 size size' pp pp' s s1 s2 ret ret' m2 m3 r h keys
      other e =
    let v = sp_ra_proc_msg3_req-Vouched c malloc' m3 size' pp' s1 s2 ret' r e in
    other (
      v.same_g_a
      ∙ sp_ra_proc_msg1_req-g_a c malloc m1 size pp s s1 ret m2 h
      ∙ take-all 64 m1.g_a (omega arith))
