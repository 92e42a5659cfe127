-- ===== src/Nfv/Program.antt =====
-- `main` of NFV_Basic_SGX/sgx/test.cpp: the enclave is loaded by `initialize_enclave` of
-- NFV_Basic_SGX/sgx/enclave_enclave1/untrusted/App.cpp, and the server is run.
use sgx_nfv.Prelude.{
  ℕ, ◌≤◌, ◌≡◌, Bool, true, false, Option, none, some, List, [], map, if◌then◌else◌, ℤ, pos, negsuc,
  arith, Outcome, done, ◌>>=◌,
}
use sgx_nfv.Loader.{Bytes, Disk, Initialized, save_token, initialize_enclave}
use sgx_nfv.Loader.Files.{Keeps, initialize_enclave-Keeps}
use sgx_nfv.Nfv.Run.{Setup, Accepted, Serving}
use sgx_nfv.Nfv.Run.Service.{up}
use sgx_nfv.Nfv.Run.Inspection.{
  run_server_sgx, whole, inspected, Inspectable, run_server_sgx-inspected,
}

-- The copy of the loader, whose token is in "enclave.token".
unfoldable pub initialize_enclave_nfv : Disk → Initialized
initialize_enclave_nfv d = initialize_enclave d

-- What the program returns, none while the server runs; what was loaded and what was served.
pub record TestRun : Type 0 where
  pub result : Option ℤ
  pub loaded : Initialized
  pub served : Option Serving

abbrev pub is_negative : ℤ → Bool
is_negative (pos n) = false
is_negative (negsuc n) = true

-- `run_server` gives no result: where it returns, `main` returns 0.
abbrev pub result_of : Serving → Option ℤ
result_of s = if s.returned then some (pos 0) else none

-- `success` is whether the ecalls of the server succeed.
unfoldable pub test_main : Bool → ℕ → Disk → Setup → List Accepted → Outcome TestRun
test_main success fuel d setup clients =
    let loaded = initialize_enclave_nfv d in
    if is_negative loaded.result
    then done (record { result = some (negsuc 0); loaded = loaded; served = none })
    else (run_server_sgx success fuel setup clients >>= λ s.
        done (record { result = result_of s; loaded = loaded; served = some s }))

abbrev pub Loads : Disk → Type 0
Loads d = (out : Bool × Bytes) × (d.created (initialize_enclave_nfv d).token ≡ some out)

result_created : (d : Disk) → Loads d → is_negative (initialize_enclave_nfv d).result ≡ false
unfolding initialize_enclave_nfv initialize_enclave save_token
result_created d (out, e) = ground arith

-- Where the SDK creates the enclave, with whatever token was found, the program closes the files of the
-- loader and serves every whole request that fits the first 1000 bytes and has 500 bytes of data or
-- more, in order, with 1002 rounds of fuel for each: its data go to the enclave once, with their length,
-- and it gets "OK:0". The program does not return.
pub test_main-served :
    (fuel : ℕ) (d : Disk) (ds : List Bytes)
    → Loads d
    → Inspectable ds
    → 1002 ≤ fuel
    → (test_main true fuel d up (map (λ x. whole x []) ds)
        ≡ done (record {
          result = none;
          loaded = initialize_enclave_nfv d;
          served =
              some
                (record { opened = 1; closed = 0; returned = false; handled = map inspected ds });
        }))
      × Keeps d (initialize_enclave_nfv d)
unfolding test_main initialize_enclave_nfv
test_main-served fuel d ds created h enough = (
  rw (result_created d created, run_server_sgx-inspected fuel ds h enough),
  initialize_enclave-Keeps d,
)
