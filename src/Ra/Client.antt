-- ===== src/Ra/Client.antt =====
-- `perform_remote_attestation` of NFV_Remote_Attestation_C/sgx/enclave_Enclave1/untrusted/App.cpp. The
-- ecalls, the SDK and the transport are a record of what they give.
pub mod Outcomes
pub mod Program
use sgx_nfv.Prelude.{
  ℕ, ◌+◌, ◌%◌, ◌/◌, Bool, true, false, not, ◌||◌, ◌&&◌, Option, none, some, List, [], ◌∷◌, ◌==◌,
  if◌then◌else◌, ℤ, pos, negsuc, Outcome, done, fault, ◌>>=◌,
}
use sgx_nfv.Ra.Crypto.{Bytes}

-- `ra_samp_request_header_t` with its body
pub record Request : Type 0 where
  pub type : ℕ
  pub size : ℕ
  pub body : Bytes

-- `ra_samp_response_header_t` with its body
pub record Response : Type 0 where
  pub status0 : ℕ
  pub status1 : ℕ
  pub body : Bytes

-- What the calls give: an ecall has the status of the call and that of the function.
pub record World : Type 0 where
  pub enclave_init_ra : ℕ × ℕ
  pub get_extended_epid_group_id : ℕ × ℕ
  pub malloc : ℕ → Bool
  pub send_receive : Request → ℤ
  pub get_msg1 : ℕ
  pub verify_att_result_mac : Response → ℕ × ℕ
  pub put_secret_data : Response → ℕ × ℕ

-- The result, the requests that were sent, and the blocks allocated and not freed.
pub record Attempt : Type 0 where
  pub result : ℤ
  pub sent : List Request
  pub blocks : ℕ

-- the four bytes of a `uint32_t`
abbrev pub le32_of : ℕ → Bytes
le32_of n = n % 0x100 ∷ (n / 0x100) % 0x100 ∷ (n / 0x1_0000) % 0x100 ∷ (n / 0x100_0000) % 0x100 ∷ []

abbrev pub msg0 : ℕ → Request
msg0 id = record { type = 0; size = 4; body = le32_of id }

-- a pointer that is followed
abbrev pub follow : {A : Type 0} → Option A → Outcome A
follow none = fault
follow (some a) = done a

abbrev pub is_zero : ℤ → Bool
is_zero (pos n) = n == 0
is_zero (negsuc n) = false

-- `ret != 0 || status != SGX_SUCCESS`
abbrev pub refused : ℕ × ℕ → Bool
refused r = not (r.0 == 0) || not (r.1 == 0)

module _ (w : World) where
  -- From message 2 on. A failure of `sgx_ra_proc_msg2` is printed, and message 3 is not sent.
  unfoldable pub conclude : Option Response → Option Response → List Request → ℕ → Outcome Attempt
  conclude p_msg2_full p_att_result_msg_full sent blocks =
      let give_up : Outcome Attempt =
        done (record { result = negsuc 0; sent = sent; blocks = blocks }) in
      let passed : Outcome Attempt =
        done (record { result = pos 0; sent = sent; blocks = blocks }) in
      follow p_msg2_full >>= λ msg2. follow p_att_result_msg_full >>= λ r.
      if refused (w.verify_att_result_mac r)
      then give_up
      else if not (r.status0 == 0) || not (r.status1 == 0)
      then give_up
      else if refused (w.put_secret_data r)
      then give_up
      else passed

  -- Message 1 is made and not sent; nothing assigns the pointers that `conclude` follows.
  unfoldable pub make_msg1 : List Request → ℕ → Outcome Attempt
  make_msg1 sent blocks =
      let give_up : ℕ → Outcome Attempt =
        λ kept. done (record { result = negsuc 0; sent = sent; blocks = kept }) in
      if not (w.malloc (8 + 68))
      then give_up blocks
      else if not (w.get_msg1 == 0)
      then give_up (blocks + 1)
      else conclude none none sent (blocks + 1)

  unfoldable pub perform_remote_attestation : Outcome Attempt
  perform_remote_attestation =
      let give_up : List Request → ℕ → Outcome Attempt =
        λ sent kept. done (record { result = negsuc 0; sent = sent; blocks = kept }) in
      let request = msg0 (w.get_extended_epid_group_id.1) in
      if refused w.enclave_init_ra
      then give_up [] 0
      else if not (w.get_extended_epid_group_id.0 == 0)
      then give_up [] 0
      else if not (w.malloc (8 + 4))
      then give_up [] 0
      else if is_zero (w.send_receive request)
      then make_msg1 (request ∷ []) 1
      else give_up (request ∷ []) 1
