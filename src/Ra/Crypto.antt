-- ===== src/Ra/Crypto.antt =====
-- What the service provider (NFV_Remote_Attestation_C/sgx/service_provider) calls and the repository
-- does not implement: the functions of sample_libcrypto, as an interface.
pub use sgx_nfv.Prelude.{Bytes}
use sgx_nfv.Prelude.{ℕ, Bool, true, false, ◌&&◌, List, [], ◌∷◌, ◌==◌, ◌≡◌, refl, arith}

-- A `sample_status_t` with the output of the call: `failed n` is the nonzero code n + 1.
pub data Status {ℓ} (A : Type ℓ) : Type ℓ where
  success : A → Status A
  failed : ℕ → Status A

-- `memcmp(a, b, n) == 0`, on two values of the same `n` bytes.
abbrev pub bytes_eq : Bytes → Bytes → Bool
bytes_eq [] [] = true
bytes_eq (x ∷ xs) (y ∷ ys) = x == y && bytes_eq xs ys
bytes_eq _ _ = false

pub bytes_eq_refl : (a : Bytes) → bytes_eq a a ≡ true
bytes_eq_refl [] = refl
bytes_eq_refl (x ∷ a) = ground (arith, bytes_eq_refl a)

pub eq_of_bytes_eq : (a b : Bytes) → bytes_eq a b ≡ true → a ≡ b
eq_of_bytes_eq [] [] h = refl
eq_of_bytes_eq [] (y ∷ b) h = cc
eq_of_bytes_eq (x ∷ a) [] h = cc
eq_of_bytes_eq (x ∷ a) (y ∷ b) h = ground (arith, eq_of_bytes_eq a b)

-- The calls of sample_libcrypto, each with its status. A context is a handle; `Sha` is the state of a
-- hash in progress, and a signature is its two coordinates, eight words each.
pub record Crypto : Type 1 where
  pub Sha : Type 0
  pub ecc256_open_context : Status ℕ
  pub ecc256_create_key_pair : ℕ → Status (Bytes × Bytes)
  pub ecc256_compute_shared_dhkey : Bytes → Bytes → ℕ → Status Bytes
  pub ecdsa_sign : Bytes → Bytes → ℕ → Status (List ℕ × List ℕ)
  pub rijndael128_cmac_msg : Bytes → Bytes → Status Bytes
  pub rijndael128_gcm_encrypt : Bytes → Bytes → Bytes → Status (Bytes × Bytes)
  pub sha256_init : Status Sha
  pub sha256_update : Bytes → Sha → Status Sha
  pub sha256_get_hash : Sha → Status Bytes
