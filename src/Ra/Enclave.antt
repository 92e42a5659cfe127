-- ===== src/Ra/Enclave.antt =====
-- NFV_Remote_Attestation_C/sgx/enclave_Enclave1/trusted/Enclave1.cpp: the ecalls of the attested enclave
-- that check the answer of the service provider, and the opening of the key exchange.
pub mod Session
pub mod Accept
pub mod KeyPair
use sgx_nfv.Prelude.{
  ℕ, zero, suc, ◌+◌, Bool, true, false, not, ◌&&◌, List, [], ◌∷◌, ◌==◌, ltb, if◌then◌else◌, length,
  replicate,
}
use sgx_nfv.Ra.Crypto.{Bytes, bytes_eq}
use sgx_nfv.Ra.Ecp.{KeyId}

-- `sgx_status_t`: the codes that the file names, and any other error.
pub data SgxStatus : Type 0 where
  success unexpected invalid_parameter mac_mismatch busy : SgxStatus
  error : ℕ → SgxStatus

abbrev pub is_success : SgxStatus → Bool
is_success success = true
is_success _ = false

abbrev pub is_busy : SgxStatus → Bool
is_busy busy = true
is_busy _ = false

-- The calls of the SGX SDK, each with its status and its output. `create_pse_session` takes the number
-- of the call; `gcm_decrypt` takes what the output buffer held.
pub record Trusted : Type 0 where
  pub create_pse_session : ℕ → SgxStatus
  pub ra_init : Bool → SgxStatus
  pub ra_get_keys : KeyId → SgxStatus × Bytes
  pub cmac_msg : Bytes → Bytes → SgxStatus × Bytes
  pub gcm_decrypt : Bytes → Bytes → Bytes → Bytes → Bytes → SgxStatus × Bytes

-- What `enclave_init_ra` did: its result, the calls of `sgx_create_pse_session`, how many of them opened
-- a session, the calls of `sgx_ra_init` and of `sgx_close_pse_session`.
pub record Initialized : Type 0 where
  pub ret : SgxStatus
  pub attempts : ℕ
  pub opened : ℕ
  pub inits : ℕ
  pub closed : ℕ

-- the loop over `g_secret[i] != i`, from `i` on
abbrev pub secret_match : ℕ → Bytes → Bool
secret_match i [] = true
secret_match i (b ∷ bs) = b == i && secret_match (suc i) bs

module _ (t : Trusted) where
  -- `message` has `message_size` bytes.
  unfoldable pub verify_att_result_mac : Bytes → Bytes → ℕ → SgxStatus
  verify_att_result_mac message p_mac mac_size =
      let key = t.ra_get_keys KeyId.mk in
      let mac = t.cmac_msg key.1 message in
      if not (mac_size == 16)
      then invalid_parameter
      else if ltb 0xffff_ffff (length message)
      then invalid_parameter
      else if not (is_success key.0)
      then key.0
      else if not (is_success mac.0)
      then mac.0
      else if bytes_eq p_mac mac.1
      then mac.0
      else mac_mismatch

  -- The result, and what `g_secret` then holds.
  unfoldable pub put_secret_data : Bytes → Bytes → ℕ → Bytes → SgxStatus × Bytes
  put_secret_data g_secret p_secret secret_size p_gcm_mac =
      let key = t.ra_get_keys KeyId.sk in
      let out = t.gcm_decrypt key.1 p_secret (replicate 12 0) p_gcm_mac g_secret in
      if not (secret_size == 8)
      then (invalid_parameter, g_secret)
      else if not (is_success key.0)
      then (key.0, g_secret)
      else if secret_match 0 out.1
      then out
      else (unexpected, out.1)

  -- `do … while (ret == SGX_ERROR_BUSY && busy_retry_times--)`: the last status and the number of calls.
  unfoldable pub create_session : ℕ → ℕ → SgxStatus × ℕ
  create_session zero i = (t.create_pse_session i, suc i)
  create_session (suc times) i =
      let rest = create_session times (suc i) in
      if is_busy (t.create_pse_session i) then rest else (t.create_pse_session i, suc i)

  unfoldable pub enclave_init_ra : Bool → Initialized
  unfolding create_session
  enclave_init_ra false = record {
    ret = t.ra_init false;
    attempts = 0;
    opened = 0;
    inits = 1;
    closed = 0;
  }
  enclave_init_ra true =
      let (ret, calls) = create_session 2 0 in
      if is_success ret
      then record { ret = t.ra_init true; attempts = calls; opened = 1; inits = 1; closed = 1 }
      else record { ret = ret; attempts = calls; opened = 0; inits = 0; closed = 0 }
