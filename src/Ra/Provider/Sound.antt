-- ===== src/Ra/Provider/Sound.antt =====
-- What an answer to message 3 vouches for.
use sgx_nfv.Prelude.{
  ℕ, ◌+◌, ◌≤◌, ◌≡◌, refl, ◌∙◌, sym, ap, Bool, true, false, not, ◌||◌, some, arith, ℤ, Outcome, done,
  if◌then◌else◌, ltb,
}
use mathlib.Core.Path.{subst}
use sgx_nfv.Ra.Crypto.{Crypto, success, eq_of_bytes_eq}
use sgx_nfv.Ra.Ias.{blob_bytes}
use sgx_nfv.Ra.Provider.{Sp, Reply, untouched, message}
use sgx_nfv.Ra.Provider.Msg3.{
  Msg3, AttResult, accepted, authenticate, verify_report_data, verify_quote, msg3_block, msg3_end,
  sp_ra_proc_msg3_req,
}
use sgx_nfv.Ra.Provider.Run.{Frame, Flow, go, stop, crash, >>=-eq-go}
use sgx_nfv.Ra.Provider.Grounds.{Sealed, Vouched, ◌then◌}
use sgx_nfv.Ra.Provider.Blocks.{
  session_hash-same, authenticate-go, verify_report_data-go, verify_quote-go, respond-go,
}

module _ (c : Crypto) (malloc : ℕ → Bool) where
  -- The block of message 3 ends well only on these grounds.
  msg3_block-go :
      (m : Msg3) (size : ℕ) (s : Sp) (g : Frame) (a : AttResult)
      → s.is_registered ≡ true
      → 336 ≤ size
      → msg3_block c malloc m size (record { sp = s; ecc_state = false; full = false }) ≡ go a g
      → Vouched c s m size a × (g.sp.hashes ≡ s.hashes + 1)
  unfolding msg3_block
  msg3_block-go m size s g a on long h =
      let f0 : Frame = record { sp = s; ecc_state = false; full = false } in
      let (u, f1, e1, k1) = >>=-eq-go (authenticate c malloc m size f0) _ h in
      let (mac, same_g_a, is_mac, same_mac, keep1, hashes1) =
        authenticate-go c malloc m size f0 f1 u e1 in
      let (v, f2, e2, k2) = >>=-eq-go (verify_report_data c malloc m f1) _ k1 in
      let (hash, is_hash, data_eq, keep2, opened) = verify_report_data-go c malloc m f1 f2 v e2 in
      let (r, f3, e3, k3) = >>=-eq-go (verify_quote c malloc m f2) _ k2 in
      let (group, ret, left, is_group, zero_ret, answer, same3) =
        verify_quote-go c malloc m f2 f3 r e3 in
      let (blob_mac, blob, st0, st1, is_sealed, hashes, payload_size) =
        respond-go c malloc r f3 g a k3 in
      let mk = ap (λ (f : Frame). f.sp.db.mk_key) same3 ∙ keep2.mk_key ∙ keep1.mk_key in
      let sk = ap (λ (f : Frame). f.sp.db.sk_key) same3 ∙ keep2.sk_key ∙ keep1.sk_key in
      (
        record {
          registered = on;
          long_enough = long;
          same_g_a = sym (eq_of_bytes_eq s.db.g_a m.g_a same_g_a);
          mac_holds = is_mac ∙ ap success (sym (eq_of_bytes_eq m.mac mac same_mac));
          hash = hash;
          is_hash = session_hash-same c s f1.sp keep1 ∙ is_hash;
          report_data = data_eq;
          group = group;
          is_group = sym keep1.group ∙ sym keep2.group ∙ is_group;
          ret = ret;
          is_zero_ret = zero_ret;
          report = r;
          before = f2.sp.contexts;
          left = left;
          answered = answer;
          status0 = st0;
          status1 = st1;
          payload_size = payload_size;
          blob = blob;
          blob_mac =
              subst (λ k. c.rijndael128_cmac_msg k (blob_bytes r.info_blob) ≡ success a.mac) mk
                blob_mac;
          sealed = subst (λ k. Sealed c (accepted r) k a.payload a.payload_tag) sk is_sealed;
        },
        hashes ∙ ap (λ (f : Frame). f.sp.hashes) same3 ∙ opened ∙ ap (λ (n : ℕ). n + 1) hashes1,
      )

-- A response is handed out only where the block ends well.
msg3_end-message :
    (r : Flow AttResult) (ret : ℤ) (a : AttResult) (s' : Sp)
    → msg3_end r ≡ done (ret, message a, s')
    → (g : Frame) × (r ≡ go a g) × (s' ≡ g.sp)
unfolding msg3_end
msg3_end-message (go b g) ret a s' h = (g, ground arith, ground arith)
msg3_end-message (stop n g) ret a s' h = ground arith
msg3_end-message crash ret a s' h = cc

-- An early return hands out no response.
pub early-message :
    {A : Type 0} (b : Bool) (r : ℤ) (rest : Outcome (ℤ × Reply A × Sp)) (s s' : Sp) (ret : ℤ)
    (a : A)
    → (if b then done (r, untouched, s) else rest) ≡ done (ret, message a, s')
    → (b ≡ false) × (rest ≡ done (ret, message a, s'))
early-message true r rest s s' ret a h = ground arith
early-message false r rest s s' ret a h = (refl, h)

pub msg3_req-message :
    (c : Crypto) (malloc : ℕ → Bool) (m : Msg3) (size : ℕ) (pp : Bool) (s s' : Sp) (ret : ℤ)
    (a : AttResult)
    → sp_ra_proc_msg3_req c malloc (some m) size pp s ≡ done (ret, message a, s')
    → (g : Frame) × (msg3_block c malloc m size (record { sp = s; ecc_state = false; full = false })
        ≡ go a g)
      × (s' ≡ g.sp)
      × (s.is_registered ≡ true)
      × (336 ≤ size)
unfolding sp_ra_proc_msg3_req
msg3_req-message c malloc m size pp s s' ret a h =
    let (good, h1) = early-message (ltb size 336 || not pp) _ _ s s' ret a h in
    let (on, h2) = early-message (not s.is_registered) _ _ s s' ret a h1 in
    let (g, e, same) = msg3_end-message _ ret a s' h2 in (g, e, same, ground arith, ground arith)

-- `sp_ra_proc_msg3_req` hands out a response only where the provider is registered, the message has
-- the size of its fixed part, its public key is the one saved from message 1, its MAC is the one under
-- SMK, the quote's report data are the hash of the session's keys and 32 zero bytes, and the
-- attestation server has answered for the quote. The two status bytes then tell whether the quote and
-- the platform were accepted, the report goes out under a MAC with MK, and the payload is the secret
-- encrypted under SK where both were accepted, and zero bytes where not.
pub sp_ra_proc_msg3_req-Vouched :
    (c : Crypto) (malloc : ℕ → Bool) (m : Msg3) (size : ℕ) (pp : Bool) (s s' : Sp) (ret : ℤ)
    (a : AttResult)
    → sp_ra_proc_msg3_req c malloc (some m) size pp s ≡ done (ret, message a, s')
    → Vouched c s m size a
sp_ra_proc_msg3_req-Vouched c malloc m size pp s s' ret a h =
    let (g, e, same, on, long) = msg3_req-message c malloc m size pp s s' ret a h in
    (msg3_block-go c malloc m size s g a on long e).0

-- Every response to message 3 leaves one more SHA-256 state open than before: nothing closes it.
sp_ra_proc_msg3_req-hashes :
    (c : Crypto) (malloc : ℕ → Bool) (m : Msg3) (size : ℕ) (pp : Bool) (s s' : Sp) (ret : ℤ)
    (a : AttResult)
    → sp_ra_proc_msg3_req c malloc (some m) size pp s ≡ done (ret, message a, s')
    → s'.hashes ≡ s.hashes + 1
sp_ra_proc_msg3_req-hashes c malloc m size pp s s' ret a h =
    let (g, e, same, on, long) = msg3_req-message c malloc m size pp s s' ret a h in
    ap (λ (t : Sp). t.hashes) same ∙ (msg3_block-go c malloc m size s g a on long e).1
