-- ===== src/Benchmark/Endings.antt =====
-- How `main` of SGX_Execution_Benchmark/sgx/enclave_enclave/untrusted/sample.cpp ends.
use sgx_nfv.Prelude.{
  ℕ, zero, suc, ◌+◌, ◌≡◌, refl, ap, ◌∙◌, Option, none, some, true, false, not, inl, inr, Bool-cases,
  ◌==◌, ltb, if◌then◌else◌, arith, length, take, take-all, length-replicate, pos, negsuc, done,
}
use sgx_nfv.Benchmark.Chain.{Bytes, first, ecall_stress, ecall_stress-five}
use sgx_nfv.Benchmark.Program.{
  Machine, Trial, Ending, returned, aborted, is_negative, size, rounds, stress, sha, ecall_sha,
  shas, ecall_shas, hashing, main, zeroed, initialize_enclave_benchmark,
}
use sgx_nfv.Loader.{Disk, Initialized, initialize_enclave}
use sgx_nfv.Loader.Files.{Keeps, initialize_enclave-Keeps}
use sgx_nfv.Loader.Home.{initialize_enclave_home}
use sgx_nfv.Loader.Home.Strings.{string_of-padded}
use sgx_nfv.Loader.Home.Path.{IsText, intended, token_path-intended}

-- The ending that the tests of `main` choose; the statuses of `ecall_sha` do not occur. `home` is the
-- user's directory.
unfoldable pub ending_of : (Bytes → Bytes) → Machine → Option Bytes → Bytes → Trial
ending_of sha256 m home blank =
    let loaded = initialize_enclave (m.disk (intended home)) in
    let stop : Ending → ℕ → Option Initialized → Trial = λ e enclaves ran. record {
      ending = e;
      enclaves = enclaves;
      blocks = 0;
      outside = m.stack;
      inside = m.stack;
      loaded = ran;
    } in
    if not m.chdir
    then stop aborted 0 none
    else if is_negative loaded.result
    then stop (returned (negsuc 0)) 0 (some loaded)
    else if not (m.ecall_stress == 0)
    then stop aborted 1 (some loaded)
    else if not (m.malloc size)
    then stop aborted 1 (some loaded)
    else record {
      ending = returned (pos 0);
      enclaves = 0;
      blocks = 0;
      outside = sha256 blank;
      inside = sha256 blank;
      loaded = some loaded;
    }

module _ (sha256 : Bytes → Bytes) where
  sha-whole : (d : Bytes) (n : ℕ) → length d ≡ n → sha sha256 d n ≡ done (sha256 d)
  unfolding sha first
  sha-whole d n h =
      let inside : ltb (length d) n ≡ false = ground arith in
      let all : take n d ≡ d = take-all n d (omega (arith, h)) in rw (inside, all)

  ecall_sha-whole : (d : Bytes) (n : ℕ) → length d ≡ n → ecall_sha sha256 d n ≡ done (sha256 d)
  unfolding ecall_sha first
  ecall_sha-whole d n h =
      let inside : ltb (length d) n ≡ false = ground arith in
      let all : take n d ≡ d = take-all n d (omega (arith, h)) in rw (inside, all)

  shas-again :
      (k : ℕ) (d : Bytes) (n : ℕ) → length d ≡ n → shas sha256 k d n (sha256 d) ≡ done (sha256 d)
  unfolding shas
  shas-again zero d n h = refl
  shas-again (suc k) d n h = rw (sha-whole d n h) (shas-again k d n h)

  shas-whole :
      (k : ℕ) (d : Bytes) (n : ℕ) (hash : Bytes)
      → length d ≡ n
      → shas sha256 (suc k) d n hash ≡ done (sha256 d)
  unfolding shas
  shas-whole k d n hash h = rw (sha-whole d n h) (shas-again k d n h)

  -- A call that fails leaves the hash of the round before, which is the same.
  ecall_shas-whole :
      (m : Machine) (k i : ℕ) (d : Bytes) (n : ℕ)
      → length d ≡ n
      → ecall_shas sha256 m k i d n (sha256 d) ≡ done (sha256 d)
  unfolding ecall_shas
  ecall_shas-whole m zero i d n h = refl
  ecall_shas-whole m (suc k) i d n h = elim (Bool-cases (m.ecall_sha i == 0)) [
    | inl works ↦ rw (works, ecall_sha-whole d n h) (ecall_shas-whole m k (i + 1) d n h)
    | inr fails ↦ rw fails (ecall_shas-whole m k (i + 1) d n h)
  ]

  length-zeroed : (n : ℕ) → length (zeroed n) ≡ n
  unfolding zeroed
  length-zeroed n = length-replicate {A = ℕ} n 0

  hashing-whole :
      (m : Machine) (loaded : Initialized) (n k : ℕ)
      → m.ecall_stress == 0 ≡ true
      → m.malloc n ≡ true
      → hashing sha256 m loaded n (suc k)
        ≡ done (record {
          ending = returned (pos 0);
          enclaves = 0;
          blocks = 0;
          outside = sha256 (zeroed n);
          inside = sha256 (zeroed n);
          loaded = some loaded;
        })
  unfolding hashing
  hashing-whole m loaded n k works block =
      let all = length-zeroed n in
      rw (
        block,
        shas-whole k (zeroed n) n m.stack all,
        ecall_shas-whole m (suc k) 0 (zeroed n) n all,
        works,
      )

  hashing-unallocated :
      (m : Machine) (loaded : Initialized) (n k : ℕ)
      → m.malloc n ≡ false
      → hashing sha256 m loaded n k
        ≡ done (record {
          ending = aborted;
          enclaves = 1;
          blocks = 0;
          outside = m.stack;
          inside = m.stack;
          loaded = some loaded;
        })
  unfolding hashing
  hashing-unallocated m loaded n k block = rw block

  stress-done :
      ((m : Bytes) → length m ≡ 5 → length (sha256 m) ≡ 32)
      → (out : Bytes) × (stress sha256 ≡ done out)
  unfolding stress ecall_stress
  stress-done sizes =
      let (out, run, run', is_size) = ecall_stress-five sha256 sha256 sizes (λ m h. refl) in
      (out, run)

  -- The loader runs on the file of the intended path.
  loads :
      (disk : Bytes → Disk) (home : Option Bytes)
      → IsText home
      → initialize_enclave_benchmark disk (some home)
        ≡ done (initialize_enclave (disk (intended home)))
  unfolding initialize_enclave_benchmark initialize_enclave_home
  loads disk home text =
      let (k, path, size, some_zero, clean) = token_path-intended home text in
      rw (path, string_of-padded (intended home) k clean) refl

  -- Where the user is known, whose home directory, if any, is a string of C, and with a hash of 32 bytes the
  -- program comes to an end for every outcome of its calls. It aborts where it cannot change its directory,
  -- where `ecall_stress` fails or where there is no memory, the enclave not destroyed in the last two. It
  -- returns -1 where there is no enclave, and returns 0 else, with the hash of the block of zeros after both
  -- loops, whichever of the 10000 calls of `ecall_sha` fail. The loader has closed each file that it opened
  -- on the intended path.
  pub main-ending_of :
      (m : Machine) (home : Option Bytes)
      → m.passwd ≡ some home
      → IsText home
      → ((b : Bytes) → length b ≡ 5 → length (sha256 b) ≡ 32)
      → (main sha256 m ≡ done (ending_of sha256 m home (zeroed size)))
        × Keeps (m.disk (intended home)) (initialize_enclave (m.disk (intended home)))
  unfolding main ending_of
  main-ending_of m home known text sizes =
      let (hash, run) = stress-done sizes in
      let i = initialize_enclave (m.disk (intended home)) in
      let load = ap (initialize_enclave_benchmark m.disk) known ∙ loads m.disk home text in
      (
        elim (Bool-cases m.chdir) [
          | inr unchanged ↦ simp unchanged
          | inl changed ↦ elim (Bool-cases (is_negative i.result)) [
            | inl without ↦ simp (changed, load, without)
            | inr created ↦ elim (Bool-cases (m.ecall_stress == 0)) [
              | inr fails ↦ simp (changed, load, created, run, fails)
              | inl works ↦ elim (Bool-cases (m.malloc size)) [
                | inr none_left ↦
                    simp (changed, load, created, run, works, none_left)
                      (hashing-unallocated m i size rounds none_left)
                | inl block ↦
                    simp (changed, load, created, run, works, block)
                      (hashing-whole m i size 9999 works block)
              ]
            ]
          ]
        ],
        initialize_enclave-Keeps (m.disk (intended home)),
      )
