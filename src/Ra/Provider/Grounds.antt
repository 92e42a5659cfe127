-- ===== src/Ra/Provider/Grounds.antt =====
-- The grounds on which the provider answers message 3.
use sgx_nfv.Prelude.{
  ℕ, ◌-◌, ◌≤◌, ◌≡◌, Bool, true, false, some, ℤ, if◌then◌else◌, take, drop, ◌++◌, replicate, [],
}
use sgx_nfv.Ra.Crypto.{Bytes, Crypto, Status, success, failed}
use sgx_nfv.Ra.Ias.{AttReport, zero_report, blob_bytes}
use sgx_nfv.Ra.Provider.{Sp, SpDb, ExtendedEpidGroup}
use sgx_nfv.Ra.Provider.Groups.{secret}
use sgx_nfv.Ra.Provider.Msg0.{is_zero}
use sgx_nfv.Ra.Provider.Msg3.{
  Msg3, AttResult, cmaced, accepted, is_quote_ok, is_pse_ok, status_byte,
}

-- The keys of the session and the group are those of `f`.
pub record SameSession (f g : Sp) : Type 0 where
  pub g_a : g.db.g_a ≡ f.db.g_a
  pub g_b : g.db.g_b ≡ f.db.g_b
  pub vk_key : g.db.vk_key ≡ f.db.vk_key
  pub mk_key : g.db.mk_key ≡ f.db.mk_key
  pub sk_key : g.db.sk_key ≡ f.db.sk_key
  pub group : g.group ≡ f.group

infixl 5 ◌then◌
abbrev pub ◌then◌ {ℓ} : {A B : Type ℓ} → Status A → (A → Status B) → Status B
success a then k = k a
failed n then k = failed n

-- SHA-256 of {ga|gb|vk}
abbrev pub session_hash : (c : Crypto) → SpDb → Status Bytes
session_hash c d =
    c.sha256_init
    then c.sha256_update d.g_a
    then c.sha256_update d.g_b
    then c.sha256_update d.vk_key
    then c.sha256_get_hash

abbrev pub value_of : Status Bytes → Bytes
value_of (success b) = b
value_of (failed n) = []

-- What the response holds of the secret: its encryption under SK where the report is accepted, and
-- zero bytes where it is not.
abbrev pub Sealed : Crypto → Bool → Bytes → Bytes → Bytes → Type 0
Sealed c true sk payload tag =
    c.rijndael128_gcm_encrypt sk secret (replicate 12 0) ≡ success (payload, tag)
Sealed c false sk payload tag = (payload ≡ replicate 8 0) × (tag ≡ replicate 16 0)

-- The grounds of an answer `r` to message `m`, given by a provider in state `s`.
pub record Vouched (c : Crypto) (s : Sp) (m : Msg3) (size : ℕ) (r : AttResult) : Type 0 where
  pub registered : s.is_registered ≡ true
  pub long_enough : 336 ≤ size
  -- the client's public key is that of message 1
  pub same_g_a : m.g_a ≡ s.db.g_a
  -- the MAC of the message is the one under SMK
  pub mac_holds : c.rijndael128_cmac_msg s.db.smk_key (take (size - 16) (cmaced m)) ≡ success m.mac
  -- the quote's report data bind the keys of this session
  pub hash : Bytes
  pub is_hash : session_hash c s.db ≡ success hash
  pub report_data : take 64 (drop 368 m.quote) ≡ hash ++ replicate 32 0
  -- the attestation server answered for this quote with `report`
  pub group : ExtendedEpidGroup
  pub is_group : s.group ≡ some group
  pub ret : ℤ
  pub is_zero_ret : is_zero ret ≡ true
  pub report : AttReport
  -- the open contexts before the call and after it
  pub before : ℕ
  pub left : ℕ
  pub answered :
      group.verify_attestation_evidence (some m.quote) (some zero_report) before
      ≡ (ret, some report, left)
  -- the response tells the client so, under a MAC of the session
  pub status0 : r.status0 ≡ status_byte (is_quote_ok report.status)
  pub status1 : r.status1 ≡ status_byte (is_pse_ok report.pse_status)
  pub payload_size : r.payload_size ≡ 8
  pub blob : r.platform_info_blob ≡ report.info_blob
  pub blob_mac : c.rijndael128_cmac_msg s.db.mk_key (blob_bytes report.info_blob) ≡ success r.mac
  pub sealed : Sealed c (accepted report) s.db.sk_key r.payload r.payload_tag
