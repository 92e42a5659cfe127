-- ===== src/Ra/Client/Program.antt =====
-- `main` of enclave_Enclave1/untrusted/App.cpp, which calls `generate_random_number` and `generate_key_pair`
-- of enclave_Enclave1/trusted/Enclave1.cpp.
use sgx_nfv.Prelude.{
  bit, ℕ, ◌+◌, ◌≡◌, refl, ◌∙◌, Bool, true, false, not, ◌&&◌, inl, inr, Bool-cases, List, [], ◌∷◌,
  ◌++◌, ◌==◌, if◌then◌else◌, length, ℤ, pos, Outcome, done, ◌>>=◌,
}
use sgx_nfv.Loader.{Disk, Initialized, initialize_enclave}
use sgx_nfv.Ra.Enclave.{is_success}
use sgx_nfv.Ra.Enclave.KeyPair.{
  Ecc, KeyPair, Ocall, print, generate_key_pair, generated, bytes_out, generate_key_pair-discloses,
}

-- the result, and the one ocall
unfoldable pub generate_random_number : ℤ × List Ocall
generate_random_number = (pos 42, print ∷ [])

-- The statuses of the two ecalls, and what `ptr` holds before it is written.
pub record Ecalls : Type 0 where
  pub random : ℕ
  pub key_pair : ℕ
  pub stack : ℤ

-- What the program returns, the enclave as it was loaded, the number printed, the ocalls of the enclave, and
-- the ECC contexts opened and the calls that close one.
pub record ClientRun : Type 0 where
  pub result : ℤ
  pub loaded : Initialized
  pub number : ℤ
  pub ocalls : List Ocall
  pub opened : ℕ
  pub closed : ℕ

-- An ecall that fails does not run its function. The result of the loader is only printed.
unfoldable pub client_main : Disk → Ecalls → Ecc → Outcome ClientRun
client_main d calls e =
    let random = if calls.random == 0 then generate_random_number else (calls.stack, []) in
    let nothing : Outcome KeyPair =
      done (record { ret = pos 0; opened = 0; closed = 0; ocalls = [] }) in
    (if calls.key_pair == 0 then generate_key_pair e else nothing) >>= λ k. done (record {
      result = pos 0;
      loaded = initialize_enclave d;
      number = random.0;
      ocalls = random.1 ++ k.ocalls;
      opened = k.opened;
      closed = k.closed;
    })

random_bytes :
    (b : Bool) (stack : ℤ) (os : List Ocall)
    → bytes_out ((if b then generate_random_number else (stack, [])).1 ++ os) ≡ bytes_out os
unfolding generate_random_number
random_bytes true stack os = refl
random_bytes false stack os = refl

random_number :
    (b : Bool) (stack : ℤ)
    → (if b then generate_random_number else (stack, [])).0 ≡ (if b then pos 42 else stack)
unfolding generate_random_number
random_number true stack = refl
random_number false stack = refl

-- For a private key of 32 bytes the program always returns 0, whether the enclave was loaded or not. It hands
-- the private key whole to the untrusted side where the second ecall and the three calls of the SDK in it
-- succeed, and else no byte; it leaves a context open exactly where the pair could not be created; and
-- where the first ecall fails, the number that it prints was never written.
pub client_main-discloses :
    (d : Disk) (calls : Ecalls) (e : Ecc)
    → length (e.create_key_pair).1 ≡ 32
    → (r : ClientRun) × (client_main d calls e ≡ done r)
      × (r.result ≡ pos 0)
      × (bytes_out r.ocalls
          ≡ (if calls.key_pair == 0 && generated e then (e.create_key_pair).1 else []))
      × (r.opened
          ≡ r.closed
            + bit (
                calls.key_pair == 0
                && (is_success e.open_context && not (is_success (e.create_key_pair).0))))
      × (r.number ≡ (if calls.random == 0 then pos 42 else calls.stack))
unfolding client_main
client_main-discloses d calls e size =
    let (k, run, ret, bytes, contexts) = generate_key_pair-discloses e size in
    elim (Bool-cases (calls.key_pair == 0)) [
      | inl entered ↦
          rw (entered, run)
            (
              _,
              refl,
              refl,
              random_bytes (calls.random == 0) calls.stack k.ocalls ∙ bytes,
              contexts,
              random_number (calls.random == 0) calls.stack,
            )
      | inr failed ↦ rw failed (
        _,
        refl,
        refl,
        random_bytes (calls.random == 0) calls.stack [],
        refl,
        random_number (calls.random == 0) calls.stack,
      )
    ]
