-- ===== src/Ra/Enclave/KeyPair.antt =====
-- `generate_key_pair` of enclave_Enclave1/trusted/Enclave1.cpp.
use sgx_nfv.Prelude.{
  bit, ℕ, zero, suc, ◌+◌, ◌≤◌, ◌≡◌, ◌∙◌, refl, ap, Bool, not, ◌&&◌, List, [], ◌∷◌, if◌then◌else◌,
  arith, length, drop, drop_next, take, take-all, ℤ, pos, negsuc, Bool-cases, inl, inr, Outcome,
  done, ◌>>=◌,
}
use sgx_nfv.Packet.{read}
use sgx_nfv.Ra.Crypto.{Bytes}
use sgx_nfv.Ra.Enclave.{SgxStatus, is_success}

-- The calls of the SDK; the private key of a pair is an array.
pub record Ecc : Type 0 where
  pub open_context : SgxStatus
  pub create_key_pair : SgxStatus × Bytes
  pub close_context : SgxStatus

-- What is handed to the untrusted application: a text, or a byte.
pub data Ocall : Type 0 where
  print : Ocall
  print_hexbyte : ℕ → Ocall

-- The result, the contexts opened, the calls that close one, and the ocalls.
pub record KeyPair : Type 0 where
  pub ret : ℤ
  pub opened : ℕ
  pub closed : ℕ
  pub ocalls : List Ocall

-- the loop over `priv.r`, with `n` rounds left, and the line feed
unfoldable pub print_key : Bytes → ℕ → ℕ → Outcome (List Ocall)
print_key priv zero i = done (print ∷ [])
print_key priv (suc n) i =
    let rest = print_key priv n (i + 1) in
    read priv i >>= λ current. rest >>= λ os. done (print_hexbyte current ∷ os)

module _ (e : Ecc) where
  unfoldable pub generate_key_pair : Outcome KeyPair
  generate_key_pair =
      let printed : Outcome KeyPair = print_key (e.create_key_pair).1 32 0 >>= λ os.
      done (record { ret = pos 0; opened = 1; closed = 1; ocalls = print ∷ os }) in
      if not (is_success e.open_context)
      then done (record { ret = negsuc 0; opened = 0; closed = 0; ocalls = print ∷ [] })
      else if not (is_success (e.create_key_pair).0)
      then done (record { ret = negsuc 0; opened = 1; closed = 0; ocalls = print ∷ [] })
      else if not (is_success e.close_context)
      then done (record { ret = negsuc 0; opened = 1; closed = 1; ocalls = print ∷ [] })
      else printed

-- The bytes among the ocalls.
abbrev pub bytes_out : List Ocall → Bytes
bytes_out [] = []
bytes_out (print ∷ os) = bytes_out os
bytes_out (print_hexbyte b ∷ os) = b ∷ bytes_out os

abbrev pub generated : Ecc → Bool
generated e =
    is_success e.open_context && is_success (e.create_key_pair).0 && is_success e.close_context

print_key-bytes :
    (n i : ℕ) (priv : Bytes)
    → i + n ≤ length priv
    → (os : List Ocall) × (print_key priv n i ≡ done os) × (bytes_out os ≡ take n (drop i priv))
unfolding print_key
print_key-bytes zero i priv h = (print ∷ [], refl, refl)
print_key-bytes (suc n) i priv h =
    let (b, at, next) = drop_next priv i (omega arith) in
    let (os, rest, bytes) = print_key-bytes n (i + 1) priv (omega arith) in
    let up : i + 1 ≡ suc i = omega arith in
    (
      print_hexbyte b ∷ os,
      rw (read, at, rest) refl,
      rw next (ap (◌∷◌ b) (bytes ∙ ap (λ (k : ℕ). take n (drop k priv)) up)),
    )

-- For a private key of 32 bytes `generate_key_pair` always returns. The result is 0 exactly where the
-- three calls of the SDK succeed, and then the whole private key, and else no byte, is handed to the
-- untrusted application; the context is left open exactly where the pair could not be created.
pub generate_key_pair-discloses :
    (e : Ecc)
    → length (e.create_key_pair).1 ≡ 32
    → (k : KeyPair) × (generate_key_pair e ≡ done k)
      × (k.ret ≡ (if generated e then pos 0 else negsuc 0))
      × (bytes_out k.ocalls ≡ (if generated e then (e.create_key_pair).1 else []))
      × (k.opened
          ≡ k.closed + bit (is_success e.open_context && not (is_success (e.create_key_pair).0)))
unfolding generate_key_pair
generate_key_pair-discloses e size =
    let (os, run, bytes) = print_key-bytes 32 0 (e.create_key_pair).1 (omega arith) in
    let whole : bytes_out os ≡ (e.create_key_pair).1 =
      bytes ∙ take-all 32 (e.create_key_pair).1 (omega arith) in
    elim (Bool-cases (is_success e.open_context)) [
      | inr not_opened ↦ rw not_opened (_, refl, refl, refl, refl)
      | inl opened ↦ elim (Bool-cases (is_success (e.create_key_pair).0)) [
        | inr not_created ↦ rw (opened, not_created) (_, refl, refl, refl, refl)
        | inl created ↦ elim (Bool-cases (is_success e.close_context)) [
          | inr not_closed ↦ rw (opened, created, not_closed) (_, refl, refl, refl, refl)
          | inl closed ↦ rw (opened, created, closed, run) (_, refl, refl, whole, refl)
        ]
      ]
    ]
