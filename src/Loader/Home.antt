-- ===== src/Loader/Home.antt =====
-- The token file in the home directory: `initialize_enclave` of
-- NFV_Basic_SGX/sgx/enclave_enclave1/untrusted/sample.cpp, which
-- SGX_Execution_Benchmark/sgx/enclave_enclave/untrusted/sample.cpp repeats for another enclave. A path
-- is built by `strncpy` and `strncat` in a buffer of `MAX_PATH` bytes.
pub mod Strings
pub mod Path
use sgx_nfv.Prelude.{
  ℕ, zero, suc, ◌+◌, ◌-◌, Bool, true, false, Option, none, some, List, [], ◌∷◌, ◌++◌, ◌==◌, ltb,
  leb, if◌then◌else◌, length, take, drop, replicate, Outcome, done, fault, ◌>>=◌,
}
use sgx_nfv.Loader.{Bytes, Disk, Initialized, initialize_enclave}

-- `MAX_PATH`, which is `FILENAME_MAX`
abbrev pub max_path : ℕ
max_path = 4096

-- the bytes up to the first zero
unfoldable pub string_of : Bytes → Bytes
string_of [] = []
string_of (b ∷ bs) = let rest = string_of bs in if b == 0 then [] else b ∷ rest

-- A write into a buffer from `i` on.
unfoldable pub write_at : Bytes → ℕ → Bytes → Outcome Bytes
write_at buff i bytes =
    if ltb (length buff) (i + length bytes)
    then fault
    else done (take i buff ++ (bytes ++ drop (i + length bytes) buff))

-- `strncpy(dest, s, n)`, for a string `s`
unfoldable pub strncpy : Bytes → Bytes → ℕ → Outcome Bytes
strncpy dest s n = write_at dest 0 (take n s ++ replicate (n - length s) 0)

-- `strncat(dest, s, n)`; a buffer with no zero in it has no end to append to.
unfoldable pub strncat : Bytes → Bytes → ℕ → Outcome Bytes
strncat dest s n =
    if ltb (length (string_of dest)) (length dest)
    then write_at dest (length (string_of dest)) (take n s ++ (0 ∷ []))
    else fault

-- `TOKEN_FILENAME`, whose `sizeof` is one more than its length
unfoldable pub token_filename : Bytes
token_filename =
    b'e' ∷ b'n' ∷ b'c' ∷ b'l' ∷ b'a' ∷ b'v' ∷ b'e' ∷ b'.' ∷ b't' ∷ b'o' ∷ b'k' ∷ b'e' ∷ b'n' ∷ []

-- from `char token_path[MAX_PATH] = {'\0'}` on
unfoldable pub token_path : Option Bytes → Outcome Bytes
token_path none = strncpy (replicate max_path 0) token_filename (length token_filename + 1)
token_path (some home_dir) =
    let composed = strncpy (replicate max_path 0) home_dir (length home_dir) >>= λ a.
    strncat a (b'/' ∷ []) 1 >>= λ b. strncat b token_filename (length token_filename + 1 + 1) in
    if leb (length home_dir + 1 + (length token_filename + 1) + 1) max_path
    then composed
    else strncpy (replicate max_path 0) token_filename (length token_filename + 1)

-- `passwd` is what `getpwuid` gives: none for NULL, else its `pw_dir`, which may be NULL. `disk` is what
-- the file system and the SDK give for a path.
unfoldable pub initialize_enclave_home :
    (Bytes → Disk) → Option (Option Bytes) → Outcome Initialized
initialize_enclave_home disk none = fault
initialize_enclave_home disk (some home_dir) =
    token_path home_dir >>= λ path. done (initialize_enclave (disk (string_of path)))
