-- ===== src/Ra/Session/Complete.antt =====
-- A session from the first message to the secret.
use sgx_nfv.Prelude.{
  ℕ, ◌+◌, ◌*◌, ◌≡◌, refl, sym, Bool, true, some, List, [], ◌∷◌, ◌++◌, length, take, arith, pos,
  done, Bool-cases, inl, inr, take-all, length-append, length-take,
}
use sgx_nfv.Ra.Crypto.{Bytes, Crypto}
use sgx_nfv.Ra.Ecp.{KeyId}
use sgx_nfv.Ra.Ias.{
  blob_bytes, le32s, swap_endian_32b, unsigned_bytes, zero_blob, rk_priv_key, sim_spid, ias_enroll,
}
use sgx_nfv.Ra.Provider.{Sp, initial, message}
use sgx_nfv.Ra.Provider.Groups.{ias_group, extended_epid_groups, secret}
use sgx_nfv.Ra.Provider.Msg0.{sp_ra_proc_msg0_req, configure, enroll_in}
use sgx_nfv.Ra.Provider.Msg1.{Msg1, Msg2, sp_ra_proc_msg1_req}
use sgx_nfv.Ra.Provider.Msg3.{AttResult, sp_ra_proc_msg3_req}
use sgx_nfv.Ra.Enclave.{SgxStatus, Trusted, verify_att_result_mac, put_secret_data}
use sgx_nfv.Ra.Enclave.Accept.{Agree, sp_ra_proc_msg3_req-put_secret_data}
use sgx_nfv.Ra.Provider.Laws.{Config, IsConfigured}
use sgx_nfv.Ra.Provider.Reach.{Reach, Reach-IsSound}
use mathlib.Core.Path.{subst}
use sgx_nfv.Ra.Session.{Works, msg3_of, mk_of, sk_of}
use sgx_nfv.Ra.Session.Exchange.{msg2_of, after_msg1, sp_ra_proc_msg1_req-works}
use sgx_nfv.Ra.Session.Response.{
  HasKeys, info_blob, answer_of, after_msg3, sp_ra_proc_msg3_req-works,
}

length-le32s : (ws : List ℕ) → length (le32s ws) ≡ 4 * length ws
length-le32s [] = refl
length-le32s (w ∷ ws) = omega (arith, length-le32s ws)

length-swap_endian_32b : (ws : List ℕ) → length (swap_endian_32b ws) ≡ length ws
unfolding swap_endian_32b
length-swap_endian_32b [] = refl
length-swap_endian_32b (a ∷ []) = refl
length-swap_endian_32b (a ∷ b ∷ []) = refl
length-swap_endian_32b (a ∷ b ∷ c ∷ []) = refl
length-swap_endian_32b (a ∷ b ∷ c ∷ d ∷ []) = refl
length-swap_endian_32b (a ∷ b ∷ c ∷ d ∷ e ∷ []) = refl
length-swap_endian_32b (a ∷ b ∷ c ∷ d ∷ e ∷ f ∷ []) = refl
length-swap_endian_32b (a ∷ b ∷ c ∷ d ∷ e ∷ f ∷ g ∷ []) = refl
length-swap_endian_32b (a ∷ b ∷ c ∷ d ∷ e ∷ f ∷ g ∷ h ∷ []) = refl
length-swap_endian_32b (a ∷ b ∷ c ∷ d ∷ e ∷ f ∷ g ∷ h ∷ i ∷ ws) = refl

-- What message 0 leaves in any state whose configuration is consistent.
msg0-enrolled :
    (c : Crypto) (s : Sp)
    → IsConfigured c s
    → (s1 : Sp) × (sp_ra_proc_msg0_req (extended_epid_groups c) (some 0) 4 s ≡ (pos 0, s1))
      × (s1.is_registered ≡ true)
      × (s1.group ≡ some (ias_group c))
unfolding sp_ra_proc_msg0_req configure enroll_in ias_enroll
msg0-enrolled c s configured = elim (Bool-cases s.is_registered) [
  | inl on ↦
      let group : s.group ≡ some (ias_group c) = subst (λ b. Config c b s.group) on configured in
      (s, simp (on, group), on, group)
  | inr off ↦
      let s1 : Sp = record s {
        group = some (ias_group c);
        is_registered = true;
        spid = sim_spid;
      } in
      (s1, simp off, refl, refl)
]

module _ {c : Crypto} (w : Works c) where
  length-info_blob : length (blob_bytes (info_blob w)) ≡ 97
  length-info_blob =
      let sign = w.sign rk_priv_key (unsigned_bytes zero_blob) in
      let eight = w.length_sign rk_priv_key (unsigned_bytes zero_blob) in
      omega (
        arith,
        length-append (unsigned_bytes zero_blob)
            (le32s (swap_endian_32b sign.0) ++ le32s (swap_endian_32b sign.1)),
        length-append (le32s (swap_endian_32b sign.0)) (le32s (swap_endian_32b sign.1)),
        length-le32s (swap_endian_32b sign.0),
        length-le32s (swap_endian_32b sign.1),
        length-swap_endian_32b sign.0,
        length-swap_endian_32b sign.1,
        eight.0,
        eight.1,
      )

  -- No run of requests keeps the provider from a session: in any state that it can have reached, where no call of
  -- sample_libcrypto and no allocation fails, it answers messages 0 and 1, and answers message 3 of a client
  -- that has the same shared secret and quotes the hash of the session's keys, with the sizes of the C
  -- types, with both status bytes 0; and the enclave of that client, whose cryptography agrees and whose
  -- keys of the session are those of the shared secret, then accepts the MAC of the answer and holds the
  -- secret.
  pub session_completes_after :
      (t : Trusted) (malloc : ℕ → Bool) (m1 : Msg1) (prop front back old : Bytes) {s : Sp}
      → Reach c s
      → ((n : ℕ) → malloc n ≡ true)
      → Agree c t
      → length m1.g_a ≡ 64
      → length prop ≡ 256
      → length front ≡ 368
      → t.ra_get_keys KeyId.mk ≡ (SgxStatus.success, mk_of w (w.dh m1.g_a))
      → t.ra_get_keys KeyId.sk ≡ (SgxStatus.success, sk_of w (w.dh m1.g_a))
      → (s1 : Sp) × (s2 : Sp) × (s3 : Sp) × (m2 : Msg2) × (a : AttResult) × (sp_ra_proc_msg0_req
            (extended_epid_groups c)
            (some 0)
            4
            s
          ≡ (pos 0, s1))
        × (sp_ra_proc_msg1_req c malloc (some m1) 68 true s1 ≡ done (pos 0, message m2, s2))
        × (sp_ra_proc_msg3_req c malloc
              (some (msg3_of w m1.g_a m2.g_b (w.dh m1.g_a) prop front back))
              (336 + (368 + 64 + length back))
              true
              s2
            ≡ done (pos 0, message a, s3))
        × (a.status0 ≡ 0)
        × (a.status1 ≡ 0)
        × (verify_att_result_mac t (blob_bytes a.platform_info_blob) a.mac 16 ≡ SgxStatus.success)
        × (put_secret_data t old a.payload a.payload_size a.payload_tag
            ≡ (SgxStatus.success, secret))
  session_completes_after t malloc m1 prop front back old {s} r room agree ga ps at mk sk =
      let (s1, enrolled, on, group) = msg0-enrolled c s (Reach-IsSound c r).configured in
      let s2 = after_msg1 w m1.g_a s1 in
      let m2 = msg2_of w m1.g_a s1.spid in
      let dh = w.dh m1.g_a in
      let keys : HasKeys w m1.g_a m2.g_b dh s2.db = record {
        g_a_key = take-all 64 m1.g_a (omega arith);
        g_b_key =
            sym (take-all 64 (take 64 w.public_key) (omega (arith, length-take 64 w.public_key)));
        smk = refl;
        mk = refl;
        sk = refl;
        vk = refl;
      } in
      let size = 336 + (368 + 64 + length back) in
      let a = answer_of w dh in
      let answered =
        sp_ra_proc_msg3_req-works w malloc m1.g_a m2.g_b dh prop front back size s2 room on group
          keys at ga ps refl in
      let (mac, plain) =
        sp_ra_proc_msg3_req-put_secret_data c t malloc (msg3_of w m1.g_a m2.g_b dh prop front back)
          size true s2 (after_msg3 w (take 256 prop) s2) (pos 0) a old answered agree mk sk
          length-info_blob refl refl in
      (
        s1,
        s2,
        after_msg3 w (take 256 prop) s2,
        m2,
        a,
        enrolled,
        sp_ra_proc_msg1_req-works w malloc m1 s1 room on group,
        answered,
        refl,
        refl,
        mac,
        plain,
      )

  -- So it is for the provider as it is started.
  pub session_completes :
      (t : Trusted) (malloc : ℕ → Bool) (m1 : Msg1) (prop front back old : Bytes)
      → ((n : ℕ) → malloc n ≡ true)
      → Agree c t
      → length m1.g_a ≡ 64
      → length prop ≡ 256
      → length front ≡ 368
      → t.ra_get_keys KeyId.mk ≡ (SgxStatus.success, mk_of w (w.dh m1.g_a))
      → t.ra_get_keys KeyId.sk ≡ (SgxStatus.success, sk_of w (w.dh m1.g_a))
      → (s1 : Sp) × (s2 : Sp) × (s3 : Sp) × (m2 : Msg2) × (a : AttResult) × (sp_ra_proc_msg0_req
            (extended_epid_groups c)
            (some 0)
            4
            initial
          ≡ (pos 0, s1))
        × (sp_ra_proc_msg1_req c malloc (some m1) 68 true s1 ≡ done (pos 0, message m2, s2))
        × (sp_ra_proc_msg3_req c malloc
              (some (msg3_of w m1.g_a m2.g_b (w.dh m1.g_a) prop front back))
              (336 + (368 + 64 + length back))
              true
              s2
            ≡ done (pos 0, message a, s3))
        × (a.status0 ≡ 0)
        × (a.status1 ≡ 0)
        × (verify_att_result_mac t (blob_bytes a.platform_info_blob) a.mac 16 ≡ SgxStatus.success)
        × (put_secret_data t old a.payload a.payload_size a.payload_tag
            ≡ (SgxStatus.success, secret))
  session_completes t malloc m1 prop front back old room agree ga ps at mk sk =
      session_completes_after t malloc m1 prop front back old Reach.start room agree ga ps at mk sk
