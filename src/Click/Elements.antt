-- ===== src/Click/Elements.antt =====
-- The construction of the Click elements, the read handler of the counting ones, and the elements that
-- compute a digest: click_experiments/basicelement.cc, basicelementsha256.cc and
-- basicelementnosgxsha256.cc, `call_process_packet_sgx_sha256` of
-- NFV_Basic_SGX/sgx/enclave_enclave1/untrusted/App.cpp, and its ecall in trusted/enclave1.cpp.
use sgx_nfv.Prelude.{
  ℕ, Bool, Option, none, some, ltb, if◌then◌else◌, length, take, replicate, Outcome, done, fault,
}
use sgx_nfv.Loader.{Disk}
use sgx_nfv.Nfv.Text.{decimal}
use sgx_nfv.Nfv.Program.{initialize_enclave_nfv, is_negative}
use sgx_nfv.Click.{Bytes, BasicElement, BasicElementSha256, push_digest}

-- The constructor; none where it exits.
unfoldable pub new_basic_element : Disk → Option BasicElement
new_basic_element d =
    if is_negative (initialize_enclave_nfv d).result
    then none
    else some (record { count = 0; sgx_sum = 0 })

unfoldable pub new_basic_element_sha256 : Disk → Option BasicElementSha256
new_basic_element_sha256 d =
    if is_negative (initialize_enclave_nfv d).result then none else some (record { count = 0 })

-- `String(sgx->sgx_sum)`; nineteen digits are enough for a `long` that is not negative.
unfoldable pub sgx_read_handler : BasicElement → Bytes
sgx_read_handler e = decimal 19 e.sgx_sum

-- `hash` before it is written
abbrev pub zero_hash : Bytes
zero_hash = replicate 32 0

-- `sha256` is what `init`, `update` and `final` of the class SHA256 compute.
module _ (sha256 : Bytes → Bytes) where
  unfoldable pub ecall_process_packet_sha256 : Bytes → ℕ → Outcome Bytes
  ecall_process_packet_sha256 d len =
      if ltb (length d) len then fault else done (sha256 (take len d))

  -- The `hash` at the end: an enclave that cannot be entered leaves it zero, which is only reported.
  unfoldable pub call_process_packet_sgx_sha256 : Bool → Bytes → ℕ → Outcome Bytes
  call_process_packet_sgx_sha256 success d len =
      if success then ecall_process_packet_sha256 d len else done zero_hash

  unfoldable pub call_process_packet_no_sgx_sha_256 : Bytes → ℕ → Outcome Bytes
  call_process_packet_no_sgx_sha_256 d len =
      if ltb (length d) len then fault else done (sha256 (take len d))

  unfoldable pub basic_element_sha256_push :
      Bool → BasicElementSha256 → Bytes → Outcome (BasicElementSha256 × Bytes)
  basic_element_sha256_push success =
      push_digest (λ p. call_process_packet_sgx_sha256 success p (length p))

  unfoldable pub basic_element_no_sgx_sha256_push :
      BasicElementSha256 → Bytes → Outcome (BasicElementSha256 × Bytes)
  basic_element_no_sgx_sha256_push =
      push_digest (λ p. call_process_packet_no_sgx_sha_256 p (length p))
