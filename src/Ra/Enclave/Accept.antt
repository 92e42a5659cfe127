-- ===== src/Ra/Enclave/Accept.antt =====
-- The answer of the service provider, in the enclave.
use sgx_nfv.Prelude.{ℕ, ◌≡◌, refl, ◌∙◌, sym, Bool, true, some, done, replicate, length, arith, ℤ}
use mathlib.Core.Path.{subst}
use sgx_nfv.Ra.Crypto.{Bytes, Crypto, bytes_eq_refl, Status}
use sgx_nfv.Ra.Ecp.{KeyId}
use sgx_nfv.Ra.Ias.{blob_bytes}
use sgx_nfv.Ra.Provider.{Sp, message}
use sgx_nfv.Ra.Provider.Groups.{secret}
use sgx_nfv.Ra.Provider.Msg3.{
  Msg3, AttResult, status_byte, accepted, is_quote_ok, is_pse_ok, sp_ra_proc_msg3_req,
}
use sgx_nfv.Ra.Provider.Grounds.{Sealed}
use sgx_nfv.Ra.Provider.Sound.{sp_ra_proc_msg3_req-Vouched}
use sgx_nfv.Ra.Enclave.{Trusted, verify_att_result_mac, put_secret_data, success}

-- The SDK of the enclave computes the MAC that sample_libcrypto computes, and decrypts what it encrypts.
pub record Agree (c : Crypto) (t : Trusted) : Type 0 where
  pub cmac :
      (key message mac : Bytes)
      → c.rijndael128_cmac_msg key message ≡ Status.success mac
      → t.cmac_msg key message ≡ (success, mac)
  pub decrypt :
      (key plain iv old payload tag : Bytes)
      → c.rijndael128_gcm_encrypt key plain iv ≡ Status.success (payload, tag)
      → t.gcm_decrypt key payload iv tag old ≡ (success, plain)

status_byte_zero : (b : Bool) → status_byte b ≡ 0 → b ≡ true
status_byte_zero b h = ground arith

-- Where the enclave has the provider's MK and SK of the session and their cryptography agrees, a
-- response of the provider whose two status bytes are 0 passes: the MAC over its platform information,
-- of 97 bytes, is the right one, and the payload decrypts to the secret.
pub sp_ra_proc_msg3_req-put_secret_data :
    (c : Crypto) (t : Trusted) (malloc : ℕ → Bool) (m : Msg3) (size : ℕ) (pp : Bool) (s s' : Sp)
    (ret : ℤ) (a : AttResult) (old : Bytes)
    → sp_ra_proc_msg3_req c malloc (some m) size pp s ≡ done (ret, message a, s')
    → Agree c t
    → t.ra_get_keys KeyId.mk ≡ (success, s.db.mk_key)
    → t.ra_get_keys KeyId.sk ≡ (success, s.db.sk_key)
    → length (blob_bytes a.platform_info_blob) ≡ 97
    → a.status0 ≡ 0
    → a.status1 ≡ 0
    → (verify_att_result_mac t (blob_bytes a.platform_info_blob) a.mac 16 ≡ success)
      × (put_secret_data t old a.payload a.payload_size a.payload_tag ≡ (success, secret))
unfolding verify_att_result_mac put_secret_data
sp_ra_proc_msg3_req-put_secret_data c t malloc m size pp s s' ret a old h agree mk sk blob st0 st1 =
    let v = sp_ra_proc_msg3_req-Vouched c malloc m size pp s s' ret a h in
    let quote = status_byte_zero (is_quote_ok v.report.status) (sym v.status0 ∙ st0) in
    let pse = status_byte_zero (is_pse_ok v.report.pse_status) (sym v.status1 ∙ st1) in
    let both : accepted v.report ≡ true = ground (arith, quote, pse) in
    let sealed : Sealed c true s.db.sk_key a.payload a.payload_tag =
      subst (λ b. Sealed c b s.db.sk_key a.payload a.payload_tag) both v.sealed in
    let mac : t.cmac_msg s.db.mk_key (blob_bytes a.platform_info_blob) ≡ (success, a.mac) =
      agree.cmac s.db.mk_key (blob_bytes a.platform_info_blob) a.mac (rw v.blob v.blob_mac) in
    let plain =
      agree.decrypt s.db.sk_key secret (replicate 12 0) old a.payload a.payload_tag sealed in
    (rw (mk, mac, blob, bytes_eq_refl a.mac) refl, rw (v.payload_size, sk, plain) refl)
