-- ===== src/Keys/Program.antt =====
-- `main` of NFV_Remote_Attestation_Python/sample_crypto_wrappermodule.c, which agrees on keys by
-- sample_libcrypto, gets key pairs from the SGX SDK, and agrees on keys with pairs from OpenSSL.
use sgx_nfv.Prelude.{
  ℕ, ◌+◌, Bool, Option, none, some, if◌then◌else◌, replicate, bit, Outcome, done, fault, ◌>>=◌,
}
use sgx_nfv.Keys.{Bytes, OpenSsl, Arrays, get_openssl_keys}

pub record Public : Type 0 where
  pub gx : Bytes
  pub gy : Bytes

pub record Pair : Type 0 where
  pub public : Public
  pub private : Bytes

-- A library of elliptic curves. `open_context i` is whether call `i` succeeds, and `create_key_pair i` is
-- what call `i` gives, none where it fails, as for `compute_shared_dhkey`.
pub record Ecc : Type 0 where
  pub open_context : ℕ → Bool
  pub create_key_pair : ℕ → Option Pair
  pub compute_shared_dhkey : Bytes → Public → Option Bytes

-- What the variables of `main` hold on the stack before they are written.
pub record Stack : Type 0 where
  pub pair_1 : Pair
  pub pair_2 : Pair
  pub test_dh_key_1 : Bytes
  pub test_dh_key_2 : Bytes
  pub sgx_pair_1 : Pair
  pub sgx_pair_2 : Pair
  pub arrays_1 : Arrays
  pub arrays_2 : Arrays

-- What is printed, and how many contexts of the two libraries are left open.
pub record Printout : Type 0 where
  pub pair_1 : Pair
  pub pair_2 : Pair
  pub test_dh_key_1 : Bytes
  pub test_dh_key_2 : Bytes
  pub sgx_pair_1 : Pair
  pub sgx_pair_2 : Pair
  pub dh_key_1 : Bytes
  pub dh_key_2 : Bytes
  pub contexts : ℕ
  pub sgx_contexts : ℕ

-- A call that fails does not write its result, and the program goes on.
abbrev pub written {ℓ} : {A : Type ℓ} → Option A → A → A
written none before = before
written (some a) before = a

-- `sgx_ecc256_open_context` and the two pairs. A handle that is not that of an open context is not to be used.
unfoldable pub sgx_pairs : Ecc → Pair → Pair → Outcome (Pair × Pair)
sgx_pairs sgx before_1 before_2 =
    if sgx.open_context 0
    then done (written (sgx.create_key_pair 0) before_1, written (sgx.create_key_pair 1) before_2)
    else fault

module _ (c : Ecc) where
  -- Two pairs, each in a context that is closed after it.
  unfoldable pub key_pairs : Pair → Pair → Outcome (Pair × Pair)
  key_pairs before_1 before_2 =
      if c.open_context 0
      then if c.open_context 1
        then done (written (c.create_key_pair 0) before_1, written (c.create_key_pair 1) before_2)
        else fault
      else fault

  -- The two test keys, in a third context. Where it is not opened, `ecc_state` is that of a closed one.
  unfoldable pub test_dh_keys : Pair → Pair → Bytes → Bytes → Outcome (Bytes × Bytes)
  test_dh_keys one two before_1 before_2 =
      if c.open_context 2
      then done (
        written (c.compute_shared_dhkey one.private two.public) before_1,
        written (c.compute_shared_dhkey two.private one.public) before_2,
      )
      else fault

  -- The keys agreed on by a pair of OpenSSL, whose arrays are copied byte by byte, and one of the library.
  unfoldable pub dh_keys : Arrays → Pair → Bytes × Bytes
  dh_keys a one =
      let ga : Public = record { gx = a.ga_x; gy = a.ga_y } in
      (
        written (c.compute_shared_dhkey a.ga_priv one.public) (replicate 32 0),
        written (c.compute_shared_dhkey one.private ga) (replicate 32 0),
      )

  -- `ssl i` is OpenSSL at call `i` of `_getOpenSSLKeys`. Where the last context is not opened, `ecc_state` is
  -- still that of the third one, which is open.
  unfoldable pub main : Ecc → (ℕ → OpenSsl) → Stack → Outcome Printout
  main sgx ssl s = do
    pairs ← key_pairs s.pair_1 s.pair_2
    tests ← test_dh_keys pairs.0 pairs.1 s.test_dh_key_1 s.test_dh_key_2
    sgx_keys ← sgx_pairs sgx s.sgx_pair_1 s.sgx_pair_2
    arrays_1 ← get_openssl_keys (ssl 0) s.arrays_1
    arrays_2 ← get_openssl_keys (ssl 1) s.arrays_2
    let keys = dh_keys arrays_1 pairs.0
    done (record {
      pair_1 = pairs.0;
      pair_2 = pairs.1;
      test_dh_key_1 = tests.0;
      test_dh_key_2 = tests.1;
      sgx_pair_1 = sgx_keys.0;
      sgx_pair_2 = sgx_keys.1;
      dh_key_1 = keys.0;
      dh_key_2 = keys.1;
      contexts = 1 + bit (c.open_context 3);
      sgx_contexts = 1;
    })
