-- ===== src/Witness/Attestation.antt =====
-- A session of the remote attestation with cryptography that computes: a MAC is its key, a hash is
-- constant, and encryption adds a tag.
use sgx_nfv.Prelude.{
  none, ◌+◌, ℕ, zero, suc, ◌≡◌, refl, Bool, true, some, [], ◌∷◌, ◌++◌, arith, length, replicate,
  pos, done,
}
use sgx_nfv.Ra.Crypto.{Bytes, Crypto, Status}
use sgx_nfv.Ra.Ecp.{memcpy_s}
use sgx_nfv.Ra.Ias.{
  InfoBlob, zero_blob, swap_endian_32b, swap_endian_dw, blob_bytes, ias_verify_attestation_evidence,
  ias_enroll,
}
use sgx_nfv.Ra.Provider.{Sp, initial, message}
use sgx_nfv.Ra.Provider.Groups.{ias_group, secret}
use sgx_nfv.Ra.Provider.Msg0.{sp_ra_proc_msg0_req, configure, enroll_in}
use sgx_nfv.Ra.Provider.Msg1.{Msg1, sp_ra_proc_msg1_req}
use sgx_nfv.Ra.Provider.Msg3.{
  Msg3, AttResult, cmaced, authenticate, expected_report_data, verify_report_data, verify_quote,
  seal, respond, msg3_block, msg3_end, sp_ra_proc_msg3_req,
}
use sgx_nfv.Ra.Provider.Resources.{
  Settles, sp_ra_proc_msg1_req-Settles, sp_ra_proc_msg3_req-Settles,
}
use sgx_nfv.Ra.Provider.Reach.{Reach, Serves, IsSound}
use sgx_nfv.Ra.Provider.Account.{Request, request_of, handed_by, handed_out, Reach-serves}
use sgx_nfv.Ra.Provider.Grounds.{Vouched}
use sgx_nfv.Ra.Provider.Phases.{Event, Moves, MayHold, enrolled}
use sgx_nfv.Ra.Provider.Steps.{phase_of}
use sgx_nfv.Ra.Provider.Refines.{Serves-Moves, sp_ra_proc_msg3_req-MayHold}
use sgx_nfv.Ra.Provider.Sound.{sp_ra_proc_msg3_req-Vouched}
use sgx_nfv.Ra.Client.{World, perform_remote_attestation}
use sgx_nfv.Ra.Client.Outcomes.{EndsBadly, perform_remote_attestation-EndsBadly}
use sgx_nfv.Ra.Enclave.{SgxStatus, Trusted, verify_att_result_mac, put_secret_data, enclave_init_ra}
use sgx_nfv.Ra.Enclave.Session.{IsTidy, enclave_init_ra-IsTidy}
use sgx_nfv.Ra.Enclave.Accept.{Agree, sp_ra_proc_msg3_req-put_secret_data}

abbrev crypto : Crypto
crypto = record {
  Sha = Bytes;
  ecc256_open_context = Status.success 0;
  ecc256_create_key_pair = λ ctx. Status.success (replicate 32 3, replicate 64 4);
  ecc256_compute_shared_dhkey = λ priv key ctx. Status.success (replicate 32 6);
  ecdsa_sign = λ key bytes ctx. Status.success (replicate 8 1, replicate 8 2);
  rijndael128_cmac_msg = λ key bytes. Status.success key;
  rijndael128_gcm_encrypt = λ key plain iv. Status.success (plain, replicate 16 9);
  sha256_init = Status.success [];
  sha256_update = λ bytes sha. Status.success (bytes ++ sha);
  sha256_get_hash = λ sha. Status.success (replicate 32 5);
}

abbrev enough : ℕ → Bool
enough n = true

abbrev registered : Sp
registered = record initial {
  group = some (ias_group crypto);
  is_registered = true;
  spid = b'S' ∷ b'e' ∷ b'r' ∷ b'v' ∷ b'i' ∷ b'c' ∷ b'e' ∷ 0x20 ∷ b'X' ∷ replicate 7 0;
}

abbrev msg1 : Msg1
msg1 = record { g_a = replicate 64 8; gid = replicate 4 0 }

abbrev msg3 : Msg3
msg3 = record {
  mac = replicate 16 0;
  g_a = replicate 64 0;
  ps_sec_prop = replicate 256 0;
  quote = replicate 368 1 ++ (replicate 32 5 ++ (replicate 32 0 ++ replicate 4 1));
}

abbrev blob : InfoBlob
blob = record zero_blob {
  signature_x = swap_endian_32b (replicate 8 1);
  signature_y = swap_endian_32b (replicate 8 2);
}

abbrev answer : AttResult
answer = record {
  type = 4;
  status0 = 0;
  status1 = 0;
  size = 145;
  platform_info_blob = blob;
  mac = replicate 16 0;
  payload_size = 8;
  payload = secret;
  payload_tag = replicate 16 9;
}

abbrev answered : Sp
answered = record registered { hashes = 1; blocks = 1 }

msg0-run : sp_ra_proc_msg0_req (ias_group crypto ∷ []) (some 0) 4 initial ≡ (pos 0, registered)
unfolding sp_ra_proc_msg0_req configure enroll_in ias_enroll
msg0-run = refl

msg3-run :
    sp_ra_proc_msg3_req crypto enough (some msg3) 336 true registered
    ≡ done (pos 0, message answer, answered)
unfolding sp_ra_proc_msg3_req msg3_end msg3_block authenticate expected_report_data
    verify_report_data verify_quote seal respond memcpy_s ias_verify_attestation_evidence
    swap_endian_32b swap_endian_dw
msg3-run = refl

sp_ra_proc_msg3_req-Vouched_example : Vouched crypto registered msg3 336 answer
sp_ra_proc_msg3_req-Vouched_example =
    sp_ra_proc_msg3_req-Vouched crypto enough msg3 336 true registered answered (pos 0) answer
      msg3-run

sp_ra_proc_msg1_req-Settles_example :
    Settles registered (sp_ra_proc_msg1_req crypto enough (some msg1) 68 true registered)
sp_ra_proc_msg1_req-Settles_example =
    sp_ra_proc_msg1_req-Settles crypto enough (some msg1) 68 true registered refl

length-cmaced : length (cmaced msg3) ≡ 756
length-cmaced = refl

length-quote : length msg3.quote ≡ 436
length-quote = refl

sp_ra_proc_msg3_req-Settles_example :
    Settles registered (sp_ra_proc_msg3_req crypto enough (some msg3) 336 true registered)
sp_ra_proc_msg3_req-Settles_example =
    sp_ra_proc_msg3_req-Settles crypto enough msg3 336 true registered refl
      (omega (arith, length-cmaced)) (omega (arith, length-quote))

abbrev enrolling : Reach crypto registered
enrolling = Reach.next Reach.start (Serves.msg0 (some 0) 4 (pos 0) registered msg0-run)

-- A message 1 with NULL and a wrong size.
abbrev broken : Request
broken = Request.offer enough none 7 true

Reach-serves_example :
    (s' : Sp) × (st : Serves crypto registered s') × (request_of crypto st ≡ broken)
    × IsSound crypto s'
    × (s'.blocks ≡ handed_out crypto enrolling + handed_by crypto st)
Reach-serves_example = Reach-serves crypto enrolling broken

-- The SDK of the enclave, with the same cryptography; it is busy once.
abbrev trusted : Trusted
trusted = record {
  create_pse_session = λ i. elim i [ zero ↦ SgxStatus.busy | suc j ↦ SgxStatus.success ];
  ra_init = λ b_pse. SgxStatus.success;
  ra_get_keys = λ id. (SgxStatus.success, replicate 16 0);
  cmac_msg = λ key bytes. (SgxStatus.success, key);
  gcm_decrypt = λ key payload iv tag old. (SgxStatus.success, payload);
}

trusted-Agree : Agree crypto trusted
trusted-Agree = record {
  cmac = λ key bytes mac h. cc;
  decrypt = λ key plain iv old payload tag h. cc;
}

length-blob : length (blob_bytes blob) ≡ 97
unfolding swap_endian_32b swap_endian_dw
length-blob = refl

sp_ra_proc_msg3_req-put_secret_data_example :
    (verify_att_result_mac trusted (blob_bytes blob) (replicate 16 0) 16 ≡ SgxStatus.success)
    × (put_secret_data trusted (replicate 8 0) secret 8 (replicate 16 9)
        ≡ (SgxStatus.success, secret))
sp_ra_proc_msg3_req-put_secret_data_example =
    sp_ra_proc_msg3_req-put_secret_data crypto trusted enough msg3 336 true registered answered
      (pos 0) answer (replicate 8 0) msg3-run trusted-Agree refl refl length-blob refl refl

enclave_init_ra-IsTidy_example : IsTidy trusted true (enclave_init_ra trusted true)
enclave_init_ra-IsTidy_example = enclave_init_ra-IsTidy trusted true

-- A world in which every call succeeds.
abbrev good_world : World
good_world = record {
  enclave_init_ra = (0, 0);
  get_extended_epid_group_id = (0, 0);
  malloc = enough;
  send_receive = λ r. pos 0;
  get_msg1 = 0;
  verify_att_result_mac = λ r. (0, 0);
  put_secret_data = λ r. (0, 0);
}

perform_remote_attestation-EndsBadly_example :
    EndsBadly good_world (perform_remote_attestation good_world)
perform_remote_attestation-EndsBadly_example = perform_remote_attestation-EndsBadly good_world

-- The provider answers message 3 with the blank key right after message 0.
abbrev served : Serves crypto registered answered
served =
    Serves.msg3 enough msg3 336 true (pos 0) (message answer) answered
      (omega (arith, length-cmaced)) (omega (arith, length-quote)) msg3-run

Serves-Moves_example : Moves (Event.proved msg3.g_a true) (phase_of registered) (phase_of answered)
Serves-Moves_example = Serves-Moves crypto served

sp_ra_proc_msg3_req-MayHold_example :
    (enrolled (Event.asked true ∷ []) ≡ true) × MayHold (Event.asked true ∷ []) msg3.g_a
sp_ra_proc_msg3_req-MayHold_example =
    sp_ra_proc_msg3_req-MayHold crypto enough msg3 336 true answered (pos 0) answer enrolling
      msg3-run
