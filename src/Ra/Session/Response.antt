-- ===== src/Ra/Session/Response.antt =====
-- Message 3 of a session in which no call fails.
use sgx_nfv.Prelude.{
  ℕ, ◌+◌, ◌-◌, ◌≡◌, ◌∙◌, refl, sym, ap, Bool, true, false, ltb, some, ◌++◌, length, take, drop,
  replicate, arith, pos, done, take-all, take-append, drop-append, length-append, length-replicate,
}
use sgx_nfv.Ra.Crypto.{Bytes, Crypto, bytes_eq_refl}
use sgx_nfv.Ra.Ecp.{memcpy_s}
use sgx_nfv.Ra.Ias.{
  InfoBlob, AttReport, zero_report, zero_blob, rk_priv_key, unsigned_bytes, blob_bytes,
  swap_endian_32b, ias_verify_attestation_evidence,
}
use sgx_nfv.Ra.Provider.{Sp, SpDb, message}
use sgx_nfv.Ra.Provider.Groups.{ias_group, secret}
use sgx_nfv.Ra.Provider.Msg3.{
  Msg3, AttResult, cmaced, authenticate, expected_report_data, verify_report_data, verify_quote,
  seal, respond, msg3_block, msg3_end, sp_ra_proc_msg3_req,
}
use sgx_nfv.Ra.Provider.Run.{Flow, Frame, go, bytes_at}
use sgx_nfv.Ra.Session.{if_registered, Works, binding, msg3_of, smk_of, mk_of, sk_of, vk_of}

-- The keys of a session with the client's public key `g_a`, the provider's `g_b`, and the secret `dh`.
pub record HasKeys {c : Crypto} (w : Works c) (g_a g_b dh : Bytes) (d : SpDb) : Type 0 where
  pub g_a_key : d.g_a ≡ g_a
  pub g_b_key : d.g_b ≡ g_b
  pub smk : d.smk_key ≡ smk_of w dh
  pub mk : d.mk_key ≡ mk_of w dh
  pub sk : d.sk_key ≡ sk_of w dh
  pub vk : d.vk_key ≡ vk_of w dh

not_short : (size n : ℕ) → size ≡ 336 + n → ltb size 336 ≡ false
not_short size n h = ground arith

bytes_at-whole : (b : Bytes) (n : ℕ) (f : Frame) → length b ≡ n → bytes_at b 0 n f ≡ go b f
bytes_at-whole b n f h =
    let inside : ltb (length b) (0 + n) ≡ false = ground arith in
    rw (inside, take-all n b (omega arith)) refl

bytes_at-middle :
    (front mid back : Bytes) (i n : ℕ) (f : Frame)
    → length front ≡ i
    → length mid ≡ n
    → bytes_at (front ++ (mid ++ back)) i n f ≡ go mid f
bytes_at-middle front mid back i n f at size =
    let inside : ltb (length (front ++ (mid ++ back))) (i + n) ≡ false =
      ground (arith, length-append front (mid ++ back), length-append mid back) in
    let rest : drop i (front ++ (mid ++ back)) ≡ mid ++ back =
      ap (λ (k : ℕ). drop k (front ++ (mid ++ back))) (sym at) ∙ drop-append front (mid ++ back) in
    let part : take n (mid ++ back) ≡ mid =
      ap (λ (k : ℕ). take k (mid ++ back)) (sym size) ∙ take-append mid back in
    rw (inside, rest, part) refl

module _ {c : Crypto} (w : Works c) where
  -- The platform information that the simulated server gives, signed.
  abbrev pub info_blob : InfoBlob
  info_blob =
      let sign = w.sign rk_priv_key (unsigned_bytes zero_blob) in
      record zero_blob {
        signature_x = swap_endian_32b sign.0;
        signature_y = swap_endian_32b sign.1;
      }

  -- The response of an attestation that passed.
  abbrev pub answer_of : Bytes → AttResult
  answer_of dh =
      let out = w.gcm (sk_of w dh) secret (replicate 12 0) in
      record {
        type = 4;
        status0 = 0;
        status1 = 0;
        size = 145;
        platform_info_blob = info_blob;
        mac = w.cmac (mk_of w dh) (blob_bytes info_blob);
        payload_size = 8;
        payload = out.0;
        payload_tag = out.1;
      }

  expected_report_data-works :
      (malloc : ℕ → Bool) (f : Frame)
      → expected_report_data c malloc f
        ≡ go
            (binding w f.sp.db.g_a f.sp.db.g_b f.sp.db.vk_key ++ replicate 32 0)
            (record f { sp = record (f.sp) { hashes = f.sp.hashes + 1 } })
  unfolding expected_report_data
  expected_report_data-works malloc f = simp (w.starts, w.updates, w.ends)

  verify_quote-works :
      (malloc : ℕ → Bool) (m : Msg3) (f : Frame)
      → f.sp.group ≡ some (ias_group c)
      → verify_quote c malloc m f
        ≡ go (record zero_report { id = 0x1234_5678; info_blob = info_blob }) f
  unfolding verify_quote ias_verify_attestation_evidence
  verify_quote-works malloc m f group =
      let report : AttReport = record zero_report { id = 0x1234_5678; info_blob = info_blob } in
      let closed : f.sp.contexts + 1 - 1 ≡ f.sp.contexts = omega arith in
      let answer : ias_verify_attestation_evidence c (some m.quote) (some zero_report) f.sp.contexts
          ≡ (pos 0, some report, f.sp.contexts) =
        simp (ias_verify_attestation_evidence, w.opens, w.signs, closed) in
      simp (group, answer)
        (ap (λ g. Flow.go report (record f { sp = record (f.sp) { group = g } })) (sym group))

  respond-works :
      (malloc : ℕ → Bool) (dh : Bytes) (f : Frame)
      → ((n : ℕ) → malloc n ≡ true)
      → f.sp.db.mk_key ≡ mk_of w dh
      → f.sp.db.sk_key ≡ sk_of w dh
      → respond c malloc (record zero_report { id = 0x1234_5678; info_blob = info_blob }) f
        ≡ go (answer_of dh) (record {
          sp = record (f.sp) { blocks = f.sp.blocks + 1 };
          ecc_state = f.ecc_state;
          full = true;
        })
  unfolding respond seal
  respond-works malloc dh f room mk sk = simp (room, mk, sk, w.macs, w.encrypts)

  authenticate-works :
      (malloc : ℕ → Bool) (m : Msg3) (size : ℕ) (key : Bytes) (f : Frame)
      → f.sp.db.g_a ≡ m.g_a
      → f.sp.db.smk_key ≡ key
      → length (cmaced m) ≡ size - 16
      → m.mac ≡ w.cmac key (cmaced m)
      → authenticate c malloc m size f
        ≡ go tt (record f {
          sp = record (f.sp) { db = record (f.sp.db) { ps_sec_prop = take 256 m.ps_sec_prop } };
        })
  unfolding authenticate memcpy_s
  authenticate-works malloc m size key f same smk whole mac =
      let body = bytes_at-whole (cmaced m) (size - 16) f whole in
      simp (same, smk, mac, bytes_eq_refl, body, w.macs)

  verify_report_data-works :
      (malloc : ℕ → Bool) (m : Msg3) (front hash back : Bytes) (f : Frame)
      → binding w f.sp.db.g_a f.sp.db.g_b f.sp.db.vk_key ≡ hash
      → m.quote ≡ front ++ ((hash ++ replicate 32 0) ++ back)
      → length front ≡ 368
      → length hash ≡ 32
      → verify_report_data c malloc m f
        ≡ go tt (record f { sp = record (f.sp) { hashes = f.sp.hashes + 1 } })
  unfolding verify_report_data
  verify_report_data-works malloc m front hash back f bound quote at size =
      let f1 : Frame = record f { sp = record (f.sp) { hashes = f.sp.hashes + 1 } } in
      let expected : expected_report_data c malloc f ≡ go (hash ++ replicate 32 0) f1 =
        expected_report_data-works malloc f
        ∙ ap (λ (h : Bytes). go (h ++ replicate 32 0) f1) bound in
      let reads =
        bytes_at-middle front (hash ++ replicate 32 0) back 368 64 f1 at
          (omega (arith, length-append hash (replicate 32 0), length-replicate {A = ℕ} 32 0)) in
      simp (expected, quote, reads, bytes_eq_refl)

  abbrev pub after_msg3 : Bytes → Sp → Sp
  after_msg3 prop s = record s {
    db = record (s.db) { ps_sec_prop = prop };
    hashes = s.hashes + 1;
    blocks = s.blocks + 1;
  }

  pub sp_ra_proc_msg3_req-works :
      (malloc : ℕ → Bool) (g_a g_b dh prop front back : Bytes) (size : ℕ) (s : Sp)
      → ((n : ℕ) → malloc n ≡ true)
      → s.is_registered ≡ true
      → s.group ≡ some (ias_group c)
      → HasKeys w g_a g_b dh s.db
      → length front ≡ 368
      → length g_a ≡ 64
      → length prop ≡ 256
      → size ≡ 336 + (368 + 64 + length back)
      → sp_ra_proc_msg3_req c malloc (some (msg3_of w g_a g_b dh prop front back)) size true s
        ≡ done (pos 0, message (answer_of dh), after_msg3 (take 256 prop) s)
  unfolding sp_ra_proc_msg3_req msg3_end msg3_block
  sp_ra_proc_msg3_req-works malloc g_a g_b dh prop front back size s room on group keys at ga ps
        whole =
      let m = msg3_of w g_a g_b dh prop front back in
      let hash = binding w g_a g_b (vk_of w dh) in
      let f0 : Frame = record { sp = s; ecc_state = false; full = false } in
      let f1 : Frame = record f0 {
        sp = record s { db = record (s.db) { ps_sec_prop = take 256 prop } };
      } in
      let f2 : Frame = record f1 { sp = record (f1.sp) { hashes = s.hashes + 1 } } in
      let f3 : Frame = record {
        sp = after_msg3 (take 256 prop) s;
        ecc_state = false;
        full = true;
      } in
      let length_m : length (cmaced m) ≡ size - 16 = omega (
        arith,
        length-append g_a (prop ++ m.quote),
        length-append prop m.quote,
        length-append front ((hash ++ replicate 32 0) ++ back),
        length-append (hash ++ replicate 32 0) back,
        length-append hash (replicate 32 0),
        length-replicate {A = ℕ} 32 0,
        w.length_digest,
      ) in
      let first : authenticate c malloc m size f0 ≡ go tt f1 =
        authenticate-works malloc m size (smk_of w dh) f0 keys.g_a_key keys.smk length_m refl in
      let bound : binding w s.db.g_a s.db.g_b s.db.vk_key ≡ hash =
        rw (keys.g_a_key, keys.g_b_key, keys.vk) refl in
      let second : verify_report_data c malloc m f1 ≡ go tt f2 =
        verify_report_data-works malloc m front hash back f1 bound refl at (w.length_digest _) in
      let third = verify_quote-works malloc m f2 group in
      let fourth : respond c malloc (record zero_report { id = 0x1234_5678; info_blob = info_blob })
            f2
          ≡ go (answer_of dh) f3 =
        respond-works malloc dh f2 room keys.mk keys.sk in
      let block : msg3_block c malloc m size f0 ≡ go (answer_of dh) f3 =
        simp (msg3_block, first, second, third, fourth) in
      let end : msg3_end (msg3_block c malloc m size f0)
          ≡ done (pos 0, message (answer_of dh), after_msg3 (take 256 prop) s) =
        simp (block, msg3_end) in
      rw (not_short size (368 + 64 + length back) whole)
        (if_registered s.is_registered _ _ on ∙ end)
