-- ===== src/Ra/Provider/Msg3.antt =====
-- `sp_ra_proc_msg3_req` of service_provider/service_provider.cpp, without its printing.
use sgx_nfv.Prelude.{
  ℕ, ◌+◌, ◌-◌, Bool, true, false, not, ◌||◌, ◌&&◌, Option, none, some, ◌++◌, ltb, if◌then◌else◌,
  replicate, ℤ, pos, suc, Outcome, done, fault,
}
use sgx_nfv.Ra.Crypto.{Bytes, Status, success, failed, bytes_eq, Crypto}
use sgx_nfv.Ra.Ecp.{memcpy_s}
use sgx_nfv.Ra.Ias.{
  QuoteStatus, quote_ok, PseStatus, pse_ok, InfoBlob, AttReport, zero_report, blob_bytes,
}
use sgx_nfv.Ra.Provider.{
  Sp, Reply, untouched, null, message, sp_unsupported_extended_epid_group, sp_integrity_failed,
  sp_ias_failed, sp_internal_error, sp_protocol_error,
}
use sgx_nfv.Ra.Provider.Groups.{secret}
use sgx_nfv.Ra.Provider.Msg0.{is_zero}
use sgx_nfv.Ra.Provider.Msg1.{set_db, release}
use sgx_nfv.Ra.Provider.Run.{
  Flow, go, stop, crash, Step, ◌>>=◌, ◌>>◌, pure, gets, call, some_or, deref, check, modify,
  bytes_at,
}

-- `sample_ra_msg3_t`: 336 bytes, and the quote
pub record Msg3 : Type 0 where
  pub mac : Bytes
  pub g_a : Bytes
  pub ps_sec_prop : Bytes
  pub quote : Bytes

-- The response header and `sample_ra_att_result_msg_t`, of 145 bytes before the payload.
pub record AttResult : Type 0 where
  pub type : ℕ
  pub status0 : ℕ
  pub status1 : ℕ
  pub size : ℕ
  pub platform_info_blob : InfoBlob
  pub mac : Bytes
  pub payload_size : ℕ
  pub payload : Bytes
  pub payload_tag : Bytes

-- `IAS_QUOTE_OK == status`, `IAS_PSE_OK == pse_status`
abbrev pub is_quote_ok : QuoteStatus → Bool
is_quote_ok quote_ok = true
is_quote_ok _ = false

abbrev pub is_pse_ok : PseStatus → Bool
is_pse_ok pse_ok = true
is_pse_ok _ = false

abbrev pub accepted : AttReport → Bool
accepted r = is_quote_ok r.status && is_pse_ok r.pse_status

-- The part of the message behind its MAC.
abbrev pub cmaced : Msg3 → Bytes
cmaced m = m.g_a ++ (m.ps_sec_prop ++ m.quote)

-- the first and the second byte of the status
abbrev pub status_byte : Bool → ℕ
status_byte true = 0
status_byte false = 0xff

abbrev open_hash : Step (Unit {0})
open_hash = modify (λ s. record s { hashes = s.hashes + 1 })

abbrev keep_block : Step (Unit {0})
keep_block f = go tt (record {
  sp = record (f.sp) { blocks = f.sp.blocks + 1 };
  ecc_state = f.ecc_state;
  full = true;
})

-- `ret = sample_rijndael128GCM_encrypt(…)`: the status itself is the result.
abbrev encrypted : Status (Bytes × Bytes) → Step (Bytes × Bytes)
encrypted (success a) f = go a f
encrypted (failed n) f = stop (pos (suc n)) f

module _ (c : Crypto) (malloc : ℕ → Bool) where
  -- Compare `g_a` and verify the MAC under SMK; keep the security properties.
  unfoldable pub authenticate : Msg3 → ℕ → Step (Unit {0})
  authenticate m size = do
    db ← gets (λ s. s.db)
    check (bytes_eq db.g_a m.g_a) sp_protocol_error
    body ← bytes_at (cmaced m) 0 (size - 16)
    mac ← call (c.rijndael128_cmac_msg db.smk_key body) sp_internal_error
    check (bytes_eq m.mac mac) sp_integrity_failed
    prop ← some_or (memcpy_s 256 m.ps_sec_prop 256) sp_internal_error
    set_db (λ d. record d { ps_sec_prop = prop })

  -- SHA-256 of {ga|gb|vk}, and 32 bytes of zero.
  unfoldable pub expected_report_data : Step Bytes
  expected_report_data = do
    db ← gets (λ s. s.db)
    h0 ← call c.sha256_init sp_internal_error
    open_hash
    h1 ← call (c.sha256_update db.g_a h0) sp_internal_error
    h2 ← call (c.sha256_update db.g_b h1) sp_internal_error
    h3 ← call (c.sha256_update db.vk_key h2) sp_internal_error
    hash ← call (c.sha256_get_hash h3) sp_internal_error
    pure (hash ++ replicate 32 0)

  -- The report data stand 368 bytes into the quote.
  unfoldable pub verify_report_data : Msg3 → Step (Unit {0})
  verify_report_data m = do
    expected ← expected_report_data
    actual ← bytes_at m.quote 368 64
    check (bytes_eq expected actual) sp_integrity_failed

  unfoldable pub verify_quote : Msg3 → Step AttReport
  verify_quote m = do
    group ← gets (λ s. s.group)
    g ← deref group
    open_contexts ← gets (λ s. s.contexts)
    let answer = g.verify_attestation_evidence (some m.quote) (some zero_report) open_contexts
    modify (λ s. record s { contexts = answer.2 })
    check (is_zero answer.0) sp_ias_failed
    deref answer.1

  -- Generate the shared secret and encrypt it with SK, if attestation passed; the buffer is all zero
  -- otherwise.
  unfoldable pub seal : AttReport → Bytes → Step (Bytes × Bytes)
  seal r sk =
      if accepted r
      then encrypted (c.rijndael128_gcm_encrypt sk secret (replicate 12 0))
      else pure (replicate 8 0, replicate 16 0)

  unfoldable pub respond : AttReport → Step AttResult
  respond r = do
    check (malloc (145 + 8 + 8)) sp_internal_error
    keep_block
    db ← gets (λ s. s.db)
    mac ← call (c.rijndael128_cmac_msg db.mk_key (blob_bytes r.info_blob)) sp_internal_error
    out ← seal r db.sk_key
    pure (record {
      type = 4;
      status0 = status_byte (is_quote_ok r.status);
      status1 = status_byte (is_pse_ok r.pse_status);
      size = 145;
      platform_info_blob = r.info_blob;
      mac = mac;
      payload_size = 8;
      payload = out.0;
      payload_tag = out.1;
    })

  unfoldable pub msg3_block : Msg3 → ℕ → Step AttResult
  msg3_block m size = do
    authenticate m size
    verify_report_data m
    report ← verify_quote m
    respond report

unfoldable pub msg3_end : Flow AttResult → Outcome (ℤ × Reply AttResult × Sp)
msg3_end (go m f) = done (pos 0, message m, f.sp)
msg3_end (stop ret f) = done (ret, null, release f.full f.sp)
msg3_end crash = fault

-- `none` is a NULL message, `false` a NULL `pp_att_result_msg`.
unfoldable pub sp_ra_proc_msg3_req :
    Crypto → (ℕ → Bool) → Option Msg3 → ℕ → Bool → Sp → Outcome (ℤ × Reply AttResult × Sp)
sp_ra_proc_msg3_req c malloc none size pp s = done (sp_internal_error, untouched, s)
sp_ra_proc_msg3_req c malloc (some m) size pp s =
    if ltb size 336 || not pp
    then done (sp_internal_error, untouched, s)
    else if not s.is_registered
    then done (sp_unsupported_extended_epid_group, untouched, s)
    else msg3_end (msg3_block c malloc m size (record { sp = s; ecc_state = false; full = false }))
