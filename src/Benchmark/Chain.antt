-- ===== src/Benchmark/Chain.antt =====
-- The hash benchmark: `ecall_stress` of SGX_Execution_Benchmark/sgx/enclave_enclave/trusted/enclave.cpp and
-- its copy `stress` in untrusted/sample.cpp, over a hash function that is a parameter.
pub use sgx_nfv.Prelude.{Bytes}
use sgx_nfv.Prelude.{
  ℕ, zero, suc, ◌≡◌, refl, ap, ◌∙◌, false, [], ◌∷◌, ltb, if◌then◌else◌, arith, length, take,
  length-take, Outcome, done, fault, ◌>>=◌,
}

-- `"hello"`
abbrev pub hello : Bytes
hello = b'h' ∷ b'e' ∷ b'l' ∷ b'l' ∷ b'o' ∷ []

-- the first `n` bytes of an array
unfoldable pub first : ℕ → Bytes → Outcome Bytes
first n b = if ltb (length b) n then fault else done (take n b)

-- `sha256` is `init`, `update` and `final` of the class SHA256, for a message.
module _ (sha256 : Bytes → Bytes) where
  -- `digest.update(hash, strlen(data))`, for `n` more rounds
  unfoldable pub rehash : ℕ → Bytes → Outcome Bytes
  rehash zero hash = done hash
  rehash (suc n) hash = first (length hello) hash >>= λ message. rehash n (sha256 message)

  unfoldable pub ecall_stress : Outcome Bytes
  unfolding rehash
  ecall_stress = rehash 100000 (sha256 hello)

rehash-five :
    (sha256 sha256' : Bytes → Bytes) (n : ℕ) (hash : Bytes)
    → ((m : Bytes) → length m ≡ 5 → length (sha256 m) ≡ 32)
    → ((m : Bytes) → length m ≡ 5 → sha256' m ≡ sha256 m)
    → length hash ≡ 32
    → (out : Bytes) × (rehash sha256 n hash ≡ done out)
      × (rehash sha256' n hash ≡ done out)
      × (length out ≡ 32)
unfolding rehash first
rehash-five sha256 sha256' zero hash size same h = (hash, refl, refl, h)
rehash-five sha256 sha256' (suc n) hash size same h =
    let m = take 5 hash in
    let five : length m ≡ 5 = omega (arith, length-take 5 hash) in
    let long : ltb (length hash) 5 ≡ false = ground arith in
    let (out, run, run', is_size) =
      rehash-five sha256 sha256' n (sha256 m) size same (size m five) in
    (out, rw (long, run) refl, rw (long, same m five, run') refl, is_size)

-- For a hash of 32 bytes the benchmark reads nothing outside its array and ends with a hash; and it hashes
-- messages of five bytes only, never a whole hash, so that another function that agrees on those gives
-- the same.
pub ecall_stress-five :
    (sha256 sha256' : Bytes → Bytes)
    → ((m : Bytes) → length m ≡ 5 → length (sha256 m) ≡ 32)
    → ((m : Bytes) → length m ≡ 5 → sha256' m ≡ sha256 m)
    → (out : Bytes) × (ecall_stress sha256 ≡ done out)
      × (ecall_stress sha256' ≡ done out)
      × (length out ≡ 32)
unfolding ecall_stress
ecall_stress-five sha256 sha256' size same =
    let (out, run, run', is_size) =
      rehash-five sha256 sha256' 100000 (sha256 hello) size same (size hello refl) in
    (out, run, ap (rehash sha256' 100000) (same hello refl) ∙ run', is_size)
