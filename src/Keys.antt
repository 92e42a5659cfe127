-- ===== src/Keys.antt =====
-- The key pairs of NFV_Remote_Attestation_Python/sample_crypto_wrappermodule.c: `_getOpenSSLKeys` and
-- `_generateDHKeys_OpenSSL`, which hand the numbers of an OpenSSL key to Python as arrays of bytes.
pub mod Export
pub mod Program
pub mod Agreement
pub use sgx_nfv.Prelude.{Bytes}
use sgx_nfv.Prelude.{
  ℕ, Bool, true, false, not, Option, none, some, List, [], ◌∷◌, ◌++◌, ltb, if◌then◌else◌, length,
  drop, replicate, Outcome, done, fault, ◌>>=◌,
}

-- The calls of OpenSSL; a BIGNUM is a number. `generated` is none where EC_KEY_generate_key fails, so that
-- the key has no parts, and else the private key and the coordinates of the public one, which
-- EC_POINT_get_affine_coordinates_GFp may fail to give. `bn_new` is whether both BN_new succeed.
pub record OpenSsl : Type 0 where
  pub sn2nid : Bytes → Option ℕ
  pub new_by_curve_name : ℕ → Bool
  pub generated : Option (ℕ × Option (ℕ × ℕ))
  pub bn_new : Bool
  pub num_bytes : ℕ → ℕ
  pub bn2bin : ℕ → Bytes

-- `ga_x`, `ga_y` and `ga_priv`
pub record Arrays : Type 0 where
  pub ga_x : Bytes
  pub ga_y : Bytes
  pub ga_priv : Bytes

-- `EC_KEY_SIZE`
abbrev pub key_size : ℕ
key_size = 32

-- `OPENSSL_CURVE`
abbrev pub openssl_curve : Bytes
openssl_curve = b'p' ∷ b'r' ∷ b'i' ∷ b'm' ∷ b'e' ∷ b'2' ∷ b'5' ∷ b'6' ∷ b'v' ∷ b'1' ∷ []

-- bytes written at the start of an array
unfoldable pub write : Bytes → Bytes → Outcome Bytes
write bytes to =
    if ltb (length to) (length bytes) then fault else done (bytes ++ drop (length bytes) to)

module _ (o : OpenSsl) where
  -- `memset`, the test of the size and `BN_bn2bin` for one of the arrays
  unfoldable pub export_number : ℕ → Outcome Bytes
  export_number n =
      if ltb key_size (o.num_bytes n)
      then done (replicate key_size 0)
      else write (o.bn2bin n) (replicate key_size 0)

  -- Coordinates that are not given stay 0, as BN_new leaves them.
  unfoldable pub export_key : ℕ → Option (ℕ × ℕ) → Outcome Arrays
  export_key ssl_priv point =
      let x : ℕ = elim point [ none ↦ 0 | some p ↦ p.0 ] in
      let y : ℕ = elim point [ none ↦ 0 | some p ↦ p.1 ] in
      do
        ga_x ← export_number x
        ga_y ← export_number y
        ga_priv ← export_number ssl_priv
        done (record { ga_x = ga_x; ga_y = ga_y; ga_priv = ga_priv })

  -- Without a curve the arrays stay as they are. A key that is NULL, or has no parts, is used all the same.
  unfoldable pub get_openssl_keys : Arrays → Outcome Arrays
  get_openssl_keys arrays =
      let key : Outcome Arrays = elim o.generated [
        | none ↦ fault
        | some g ↦ if o.bn_new then export_key g.0 g.1 else fault
      ] in
      elim (o.sn2nid openssl_curve) [
        | none ↦ done arrays
        | some nid ↦ if o.new_by_curve_name nid then key else fault
      ]

  -- `uninitialized` is what the three arrays hold on the stack.
  unfoldable pub generate_dh_keys_openssl : Arrays → Outcome (List Bytes)
  generate_dh_keys_openssl uninitialized = do
    a ← get_openssl_keys uninitialized
    done (a.ga_x ∷ a.ga_y ∷ a.ga_priv ∷ [])
