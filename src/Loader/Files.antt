-- ===== src/Loader/Files.antt =====
-- What `initialize_enclave` does with the token and its file.
use sgx_nfv.Prelude.{◌≡◌, true, false, ◌||◌, none, some, arith, pos, negsuc}
use mathlib.Core.Logic.{◌≢◌}
use sgx_nfv.Loader.{
  Bytes, Disk, Initialized, zero_token, read_token, save_token, initialize_enclave,
}

-- Every file is closed; the result is 0 where the enclave was created and -1 where not; and a token is
-- written only where the enclave was created and has updated it.
pub record Keeps (d : Disk) (i : Initialized) : Type 0 where
  pub closed : i.closed ≡ i.opened
  pub created : i.result ≡ pos 0 → d.created i.token ≢ none
  pub failed : d.created i.token ≡ none → i.result ≡ negsuc 0
  pub written : (b : Bytes) → i.written ≡ some b → d.created i.token ≡ some (true, b)
  pub unread : (d.fopen_rb || d.fopen_wb) ≡ false → i.token ≡ zero_token
  pub partial : d.read_num ≢ 1024 → d.read_num ≢ 0 → i.token ≡ zero_token

-- Loading the enclave closes every file that it opens, gives 0 exactly where the enclave was created,
-- never starts from a token of which only a part was read, and saves a token only where the enclave was
-- created and has updated it.
pub initialize_enclave-Keeps : (d : Disk) → Keeps d (initialize_enclave d)
unfolding initialize_enclave save_token read_token
initialize_enclave-Keeps d = record {
  closed = ground arith;
  created = ground arith;
  failed = ground arith;
  written = ground arith;
  unread = ground arith;
  partial = ground arith;
}
