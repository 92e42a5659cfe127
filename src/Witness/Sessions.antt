-- ===== src/Witness/Sessions.antt =====
-- A session of the remote attestation with cryptography that never fails: a MAC is the beginning of the
-- message, a hash is constant, and encryption adds a tag.
use sgx_nfv.Prelude.{
  ℕ, ◌+◌, ◌≡◌, ◌≢◌, refl, true, some, [], ◌∷◌, ◌++◌, arith, take, replicate, pos, done,
  length-replicate,
}
use sgx_nfv.Ra.Crypto.{Bytes, Crypto, Status}
use sgx_nfv.Ra.Ecp.{KeyId, derivation_buffer}
use sgx_nfv.Ra.Ias.{blob_bytes, sim_spid, ias_enroll}
use sgx_nfv.Ra.Provider.{Sp, initial, message}
use sgx_nfv.Ra.Provider.Groups.{extended_epid_groups, secret}
use sgx_nfv.Ra.Provider.Msg0.{sp_ra_proc_msg0_req, configure, enroll_in}
use sgx_nfv.Ra.Provider.Reach.{Reach, Serves}
use sgx_nfv.Ra.Provider.Offer.{Offers, sp_ra_proc_msg1_req-Offers}
use sgx_nfv.Ra.Provider.Msg1.{Msg1, Msg2, sp_ra_proc_msg1_req}
use sgx_nfv.Ra.Provider.Msg3.{AttResult, sp_ra_proc_msg3_req}
use sgx_nfv.Ra.Enclave.{SgxStatus, Trusted, verify_att_result_mac, put_secret_data}
use sgx_nfv.Ra.Enclave.Accept.{Agree}
use sgx_nfv.Ra.Provider.Interleaved.{sp_ra_proc_msg1_req-supersedes}
use sgx_nfv.Ra.Provider.Groups.{ias_group}
use sgx_nfv.Ra.Provider.Msg3.{Msg3}
use sgx_nfv.Ra.Session.Exchange.{msg2_of, after_msg1, sp_ra_proc_msg1_req-works}
use sgx_nfv.Ra.Session.Response.{answer_of}
use sgx_nfv.Ra.Session.{Works, msg3_of}
use sgx_nfv.Ra.Session.Complete.{session_completes_after}

abbrev mac16 : Bytes → Bytes
mac16 b = take 16 (b ++ replicate 16 7)

abbrev pub never_failing : Crypto
never_failing = record {
  Sha = Bytes;
  ecc256_open_context = Status.success 5;
  ecc256_create_key_pair = λ ctx. Status.success (replicate 32 3, replicate 64 4);
  ecc256_compute_shared_dhkey = λ priv key ctx. Status.success (replicate 32 6);
  ecdsa_sign = λ key bytes ctx. Status.success (replicate 8 1, replicate 8 2);
  rijndael128_cmac_msg = λ key bytes. Status.success (mac16 bytes);
  rijndael128_gcm_encrypt = λ key plain iv. Status.success (plain, replicate 16 9);
  sha256_init = Status.success [];
  sha256_update = λ bytes sha. Status.success (bytes ++ sha);
  sha256_get_hash = λ sha. Status.success (replicate 32 5);
}

abbrev pub works : Works never_failing
works = record {
  ctx = 5;
  private_key = replicate 32 3;
  public_key = replicate 64 4;
  dh = λ key. replicate 32 6;
  sign = λ key b. (replicate 8 1, replicate 8 2);
  cmac = λ key b. mac16 b;
  gcm = λ key b iv. (b, replicate 16 9);
  sha0 = [];
  update = λ b h. b ++ h;
  digest = λ h. replicate 32 5;
  opens = refl;
  creates = refl;
  shares = λ key. refl;
  signs = λ key b. refl;
  macs = λ key b. refl;
  encrypts = λ key b iv. refl;
  starts = refl;
  updates = λ b h. refl;
  ends = λ h. refl;
  length_public = refl;
  length_digest = λ h. refl;
  length_sign = λ key b. (refl, refl);
}

abbrev sdk : Trusted
sdk = record {
  create_pse_session = λ i. SgxStatus.success;
  ra_init = λ b_pse. SgxStatus.success;
  ra_get_keys = λ id. elim id [
    | KeyId.mk ↦ (SgxStatus.success, mac16 (derivation_buffer (b'M' ∷ b'K' ∷ [])))
    | _ ↦ (SgxStatus.success, mac16 (derivation_buffer (b'S' ∷ b'K' ∷ [])))
  ];
  cmac_msg = λ key bytes. (SgxStatus.success, mac16 bytes);
  gcm_decrypt = λ key payload iv tag old. (SgxStatus.success, payload);
}

agree : Agree never_failing sdk
agree = record {
  cmac = λ key message mac h. ground arith;
  decrypt = λ key plain iv old payload tag h. ground arith;
}

abbrev hello : Msg1
hello = record { g_a = replicate 64 8; gid = replicate 4 0 }

-- The provider that another client has sent message 1, and message 3 of that client.
abbrev busy : Sp
busy =
    after_msg1 works (replicate 64 2)
      (record initial { group = some (ias_group never_failing); is_registered = true })

abbrev late : Msg3
late = record {
  mac = replicate 16 0;
  g_a = replicate 64 2;
  ps_sec_prop = replicate 256 0;
  quote = replicate 436 1;
}

other_key : replicate {A = ℕ} 64 2 ≢ replicate 64 8
other_key h = cc

sp_ra_proc_msg1_req-supersedes_example :
    sp_ra_proc_msg3_req never_failing
      (λ n. true)
      (some late)
      336
      true
      (after_msg1 works hello.g_a busy)
    ≢ done (pos 0, message (answer_of works (replicate 32 6)), busy)
sp_ra_proc_msg1_req-supersedes_example =
    sp_ra_proc_msg1_req-supersedes never_failing (λ n. true) (λ n. true) hello 68 336 true true busy
      (after_msg1 works hello.g_a busy) busy (pos 0) (pos 0) (msg2_of works hello.g_a busy.spid)
      late (answer_of works (replicate 32 6))
      (sp_ra_proc_msg1_req-works works (λ n. true) hello busy (λ n. refl) refl refl)
      (length-replicate {A = ℕ} 64 8) other_key

abbrev pub enrolled : Sp
enrolled = record initial {
  group = some (ias_group never_failing);
  is_registered = true;
  spid = sim_spid;
}

pub msg0-run :
    sp_ra_proc_msg0_req (extended_epid_groups never_failing) (some 0) 4 initial ≡ (pos 0, enrolled)
unfolding sp_ra_proc_msg0_req configure enroll_in ias_enroll
msg0-run = refl

sp_ra_proc_msg1_req-Offers_example :
    Offers never_failing
      (λ n. true)
      hello.g_a
      enrolled.spid
      (after_msg1 works hello.g_a enrolled).db
      (msg2_of works hello.g_a enrolled.spid)
sp_ra_proc_msg1_req-Offers_example =
    sp_ra_proc_msg1_req-Offers never_failing (λ n. true) hello 68 true enrolled
      (after_msg1 works hello.g_a enrolled) (pos 0) (msg2_of works hello.g_a enrolled.spid)
      (sp_ra_proc_msg1_req-works works (λ n. true) hello enrolled (λ n. refl) refl refl)

-- The provider after message 1 of another client, who then leaves.
abbrev pub other : Msg1
other = record { g_a = replicate 64 2; gid = replicate 4 0 }

abbrev pub interrupted : Sp
interrupted = after_msg1 works other.g_a enrolled

abbrev pub interrupting : Reach never_failing interrupted
interrupting =
    Reach.next (Reach.next Reach.start (Serves.msg0 (some 0) 4 (pos 0) enrolled msg0-run)) (
      Serves.msg1 (λ n. true) (some other) 68 true (pos 0)
        (message (msg2_of works other.g_a enrolled.spid)) interrupted
        (sp_ra_proc_msg1_req-works works (λ n. true) other enrolled (λ n. refl) refl refl))

session_completes_after_example :
    (s1 : Sp) × (s2 : Sp) × (s3 : Sp) × (m2 : Msg2) × (a : AttResult) × (sp_ra_proc_msg0_req
        (extended_epid_groups never_failing)
        (some 0)
        4
        interrupted
      ≡ (pos 0, s1))
    × (sp_ra_proc_msg1_req never_failing (λ n. true) (some hello) 68 true s1
        ≡ done (pos 0, message m2, s2))
    × (sp_ra_proc_msg3_req never_failing
          (λ n. true)
          (some (
            msg3_of works hello.g_a m2.g_b
              (replicate 32 6)
              (replicate 256 0)
              (replicate 368 1)
              (0 ∷ [])))
          (336 + (368 + 64 + 1))
          true
          s2
        ≡ done (pos 0, message a, s3))
    × (a.status0 ≡ 0)
    × (a.status1 ≡ 0)
    × (verify_att_result_mac sdk (blob_bytes a.platform_info_blob) a.mac 16 ≡ SgxStatus.success)
    × (put_secret_data sdk [] a.payload a.payload_size a.payload_tag ≡ (SgxStatus.success, secret))
session_completes_after_example =
    session_completes_after works sdk (λ n. true) hello (replicate 256 0) (replicate 368 1) (0 ∷ [])
      [] interrupting (λ n. refl) agree (length-replicate {A = ℕ} 64 8)
      (length-replicate {A = ℕ} 256 0) (length-replicate {A = ℕ} 368 1) refl refl
