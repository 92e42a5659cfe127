-- ===== src/Loader.antt =====
-- `initialize_enclave` of NFV_Remote_Attestation_C/sgx/enclave_Enclave1/untrusted/App.cpp: the launch
-- token and its file.
pub mod Files
pub mod Home
pub use sgx_nfv.Prelude.{bit, Bytes}
use sgx_nfv.Prelude.{
  ℕ, ◌+◌, Bool, true, false, not, ◌||◌, ◌&&◌, Option, none, some, List, ◌++◌, ◌==◌, if◌then◌else◌,
  take, drop, replicate, ℤ, pos, negsuc,
}

-- What the calls of the C library and of the SDK give. `created` is none where `sgx_create_enclave` fails,
-- and else says whether the token was updated, and the token that it leaves.
pub record Disk : Type 0 where
  pub fopen_rb : Bool
  pub fopen_wb : Bool
  pub read_num : ℕ
  pub saved : Bytes
  pub created : Bytes → Option (Bool × Bytes)
  pub freopen : Bool
  pub write_num : ℕ

-- The result, the files opened and closed, the token handed to the SDK, and the token written.
pub record Initialized : Type 0 where
  pub result : ℤ
  pub opened : ℕ
  pub closed : ℕ
  pub token : Bytes
  pub written : Option Bytes

abbrev pub zero_token : Bytes
zero_token = replicate 1024 0

-- The token after the reading, `fp` being whether the file is open: a part of a token is not used.
unfoldable pub read_token : Bool → Disk → Bytes
read_token fp d =
    let read = take d.read_num d.saved ++ drop d.read_num zero_token in
    if fp
    then if not (d.read_num == 0) && not (d.read_num == 1024) then zero_token else read
    else zero_token

-- The end of the function. `freopen` closes the file whether it opens it again or not.
unfoldable pub save_token : Bool → Disk → Bytes → Bool × Bytes → Initialized
save_token fp d token out =
    if not out.0 || not fp
    then record { result = pos 0; opened = bit fp; closed = bit fp; token = token; written = none }
    else if not d.freopen
    then record { result = pos 0; opened = 1; closed = 1; token = token; written = none }
    else record { result = pos 0; opened = 2; closed = 2; token = token; written = some out.1 }

unfoldable pub initialize_enclave : Disk → Initialized
unfolding save_token
initialize_enclave d =
    let fp = d.fopen_rb || d.fopen_wb in
    let token = read_token fp d in
    elim (d.created token) [
      | none ↦ record {
        result = negsuc 0;
        opened = bit fp;
        closed = bit fp;
        token = token;
        written = none;
      }
      | some out ↦ save_token fp d token out
    ]
