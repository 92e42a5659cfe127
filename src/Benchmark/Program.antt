-- ===== src/Benchmark/Program.antt =====
-- `main` of SGX_Execution_Benchmark/sgx/enclave_enclave/untrusted/sample.cpp, and the functions that it
-- runs outside the enclave: `initialize_enclave`, `stress`, `stress_memory` and `sha`.
use sgx_nfv.Prelude.{
  ℕ, zero, suc, ◌+◌, ◌-◌, ◌*◌, Bool, true, false, not, Option, none, some, List, ◌==◌,
  if◌then◌else◌, replicate, ℤ, pos, negsuc, Outcome, done, ◌>>=◌,
}
use sgx_nfv.Loader.{Disk, Initialized}
use sgx_nfv.Loader.Home.{initialize_enclave_home}
use sgx_nfv.Benchmark.{accumulate}
use sgx_nfv.Benchmark.Chain.{Bytes, hello, first, rehash}

-- What the calls of the C library and of the SDK give: `passwd` is what `getpwuid` gives, `disk` what the
-- loader meets for a path, and an ecall gives its status; round `i` of the last loop has the status `ecall_sha i`. `stack` is
-- what `hash_out` holds before it is written.
pub record Machine : Type 0 where
  pub chdir : Bool
  pub passwd : Option (Option Bytes)
  pub disk : Bytes → Disk
  pub ecall_stress : ℕ
  pub malloc : ℕ → Bool
  pub ecall_sha : ℕ → ℕ
  pub stack : Bytes

pub data Ending : Type 0 where
  returned : ℤ → Ending
  aborted : Ending

-- How the program ends, the enclaves created and not destroyed, and the blocks not freed; with
-- `hash_out` after each of the two loops, and what the loader did, if it ran.
pub record Trial : Type 0 where
  pub ending : Ending
  pub enclaves : ℕ
  pub blocks : ℕ
  pub outside : Bytes
  pub inside : Bytes
  pub loaded : Option Initialized

abbrev pub is_negative : ℤ → Bool
is_negative (pos n) = false
is_negative (negsuc n) = true

-- `int size = 512*1024`
abbrev pub size : ℕ
size = 512 * 1024

-- the rounds of each loop
abbrev pub rounds : ℕ
rounds = 10000

-- The copy of the memory benchmark, which `main` does not call.
unfoldable pub stress_memory : List ℕ → ℕ → Outcome (List ℕ)
stress_memory d len = accumulate (len - 1) 1 d

-- The loader, which is that of NFV_Basic_SGX for another enclave.
unfoldable pub initialize_enclave_benchmark :
    (Bytes → Disk) → Option (Option Bytes) → Outcome Initialized
initialize_enclave_benchmark = initialize_enclave_home

-- the block after `memset(data, 0, size)`
unfoldable pub zeroed : ℕ → Bytes
zeroed n = replicate n 0

module _ (sha256 : Bytes → Bytes) where
  -- The copy of `ecall_stress`.
  unfoldable pub stress : Outcome Bytes
  stress = rehash sha256 100000 (sha256 hello)

  -- `init`, `update` and `final`; the same in the enclave.
  unfoldable pub sha : Bytes → ℕ → Outcome Bytes
  sha data_in len = first len data_in >>= λ message. done (sha256 message)

  unfoldable pub ecall_sha : Bytes → ℕ → Outcome Bytes
  ecall_sha data_in len = first len data_in >>= λ message. done (sha256 message)

  -- `n` more rounds of `sha(data, size, hash_out)`
  unfoldable pub shas : ℕ → Bytes → ℕ → Bytes → Outcome Bytes
  shas zero data_in len hash_out = done hash_out
  shas (suc n) data_in len hash_out = sha data_in len >>= λ hash. shas n data_in len hash

  -- `n` more rounds of `ecall_sha(global_eid, data, size, hash_out)` from round `i` on. A call that fails does
  -- not write `hash_out`, and its status is dropped.
  unfoldable pub ecall_shas : Machine → ℕ → ℕ → Bytes → ℕ → Bytes → Outcome Bytes
  ecall_shas m zero i data_in len hash_out = done hash_out
  ecall_shas m (suc n) i data_in len hash_out =
      (if m.ecall_sha i == 0 then ecall_sha data_in len else done hash_out) >>= λ hash.
      ecall_shas m n (i + 1) data_in len hash

  -- From `malloc` on, for `n` bytes and `k` rounds. The second test of `ret` is of the status of
  -- `ecall_stress` again.
  unfoldable pub hashing : Machine → Initialized → ℕ → ℕ → Outcome Trial
  hashing m loaded n k =
      let stop : ℕ → Bytes → Bytes → Outcome Trial = λ blocks outside inside. done (record {
        ending = aborted;
        enclaves = 1;
        blocks = blocks;
        outside = outside;
        inside = inside;
        loaded = some loaded;
      }) in
      if not (m.malloc n)
      then stop 0 m.stack m.stack
      else (shas k (zeroed n) n m.stack >>= λ outside.
          ecall_shas m k 0 (zeroed n) n outside >>= λ inside.
          if not (m.ecall_stress == 0)
          then stop 1 outside inside
          else done (record {
            ending = returned (pos 0);
            enclaves = 0;
            blocks = 0;
            outside = outside;
            inside = inside;
            loaded = some loaded;
          }))

  unfoldable pub main : Machine → Outcome Trial
  main m =
      let leave : Ending → ℕ → Option Initialized → Outcome Trial = λ e enclaves loaded.
        done (record {
          ending = e;
          enclaves = enclaves;
          blocks = 0;
          outside = m.stack;
          inside = m.stack;
          loaded = loaded;
        }) in
      if not m.chdir
      then leave aborted 0 none
      else (initialize_enclave_benchmark m.disk m.passwd >>= λ loaded.
          if is_negative loaded.result
          then leave (returned (negsuc 0)) 0 (some loaded)
          else (stress >>= λ hash.
              if not (m.ecall_stress == 0)
              then leave aborted 1 (some loaded)
              else hashing m loaded size rounds))
