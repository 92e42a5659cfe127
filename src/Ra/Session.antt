-- ===== src/Ra/Session.antt =====
-- A session of the remote attestation in which no call fails: what the calls of sample_libcrypto give, the
-- keys of the session, and the messages of a client that follows the protocol.
pub mod Exchange
pub mod Response
pub mod Complete
use sgx_nfv.Prelude.{
  ℕ, ◌+◌, ◌≡◌, refl, Bool, true, false, not, if◌then◌else◌, Option, some, none, List, [], ◌∷◌, ◌++◌,
  replicate, length,
}
use sgx_nfv.Ra.Crypto.{Bytes, Crypto, success}
use sgx_nfv.Ra.Ecp.{derivation_buffer}
use sgx_nfv.Ra.Provider.Msg3.{Msg3}

-- The calls that one session makes succeed, with these results; the results are values of C of 32
-- and 64 bytes, and signatures of eight words.
pub record Works (c : Crypto) : Type 0 where
  pub ctx : ℕ
  pub private_key : Bytes
  pub public_key : Bytes
  pub dh : Bytes → Bytes
  pub sign : Bytes → Bytes → List ℕ × List ℕ
  pub cmac : Bytes → Bytes → Bytes
  pub gcm : Bytes → Bytes → Bytes → Bytes × Bytes
  pub sha0 : c.Sha
  pub update : Bytes → c.Sha → c.Sha
  pub digest : c.Sha → Bytes
  pub opens : c.ecc256_open_context ≡ success ctx
  pub creates : c.ecc256_create_key_pair ctx ≡ success (private_key, public_key)
  pub shares : (key : Bytes) → c.ecc256_compute_shared_dhkey private_key key ctx ≡ success (dh key)
  pub signs : (key b : Bytes) → c.ecdsa_sign key b ctx ≡ success (sign key b)
  pub macs : (key b : Bytes) → c.rijndael128_cmac_msg key b ≡ success (cmac key b)
  pub encrypts : (key b iv : Bytes) → c.rijndael128_gcm_encrypt key b iv ≡ success (gcm key b iv)
  pub starts : c.sha256_init ≡ success sha0
  pub updates : (b : Bytes) (h : c.Sha) → c.sha256_update b h ≡ success (update b h)
  pub ends : (h : c.Sha) → c.sha256_get_hash h ≡ success (digest h)
  pub length_public : length public_key ≡ 64
  pub length_digest : (h : c.Sha) → length (digest h) ≡ 32
  pub length_sign : (key b : Bytes) → (length (sign key b).0 ≡ 8) × (length (sign key b).1 ≡ 8)

module _ {c : Crypto} (w : Works c) where
  -- The key of a label, from the shared secret: two steps of CMAC.
  abbrev pub session_key : Bytes → Bytes → Bytes
  session_key dh label = w.cmac (w.cmac (replicate 16 0) dh) (derivation_buffer label)

  abbrev pub smk_of : Bytes → Bytes
  smk_of dh = session_key dh (b'S' ∷ b'M' ∷ b'K' ∷ [])

  abbrev pub sk_of : Bytes → Bytes
  sk_of dh = session_key dh (b'S' ∷ b'K' ∷ [])

  abbrev pub mk_of : Bytes → Bytes
  mk_of dh = session_key dh (b'M' ∷ b'K' ∷ [])

  abbrev pub vk_of : Bytes → Bytes
  vk_of dh = session_key dh (b'V' ∷ b'K' ∷ [])

  -- the hash of {ga|gb|vk}
  abbrev pub binding : Bytes → Bytes → Bytes → Bytes
  binding g_a g_b vk = w.digest (w.update vk (w.update g_b (w.update g_a w.sha0)))

  -- The quote of an enclave: `front` and `back` are what it holds besides the report data.
  abbrev pub quote_of : Bytes → Bytes → Bytes → Bytes → Bytes
  quote_of front hash zeros back = front ++ ((hash ++ zeros) ++ back)

  -- Message 3 of a client that follows the protocol, for the public key `g_b` of message 2 and the
  -- shared secret `dh`.
  abbrev pub msg3_of : Bytes → Bytes → Bytes → Bytes → Bytes → Bytes → Msg3
  msg3_of g_a g_b dh ps_sec_prop front back =
      let quote = quote_of front (binding g_a g_b (vk_of dh)) (replicate 32 0) back in
      record {
        mac = w.cmac (smk_of dh) (g_a ++ (ps_sec_prop ++ quote));
        g_a = g_a;
        ps_sec_prop = ps_sec_prop;
        quote = quote;
      }

-- the test for a provider that is not registered
pub if_registered : {A : Type 0} (b : Bool) (x y : A) → b ≡ true → (if not b then x else y) ≡ y
if_registered true x y h = refl
if_registered false x y h = cc
