-- ===== src/Ra/Ias.antt =====
-- service_provider/ias_ra.cpp: the simulated attestation server, and service_provider/ias_ra.h.
pub mod Endian
use sgx_nfv.Prelude.{
  ℕ, suc, ◌+◌, ◌-◌, ◌*◌, ◌/◌, ◌%◌, ◌^◌, Bool, true, false, Option, none, some, List, [], ◌∷◌, ◌++◌,
  replicate, take, drop, ℤ, pos, negsuc,
}
use sgx_nfv.Ra.Crypto.{Bytes, Status, success, failed, Crypto}

-- `((dw & 0xff) << 24) | ((dw & 0xff00) << 8) | ((dw & 0xff0000) >> 8) | ((dw & 0xff000000) >> 24)`
-- on an `unsigned int`
unfoldable pub swap_endian_dw : ℕ → ℕ
swap_endian_dw dw =
    dw % 0x100 * 0x100_0000
    + dw / 0x100 % 0x100 * 0x1_0000
    + dw / 0x1_0000 % 0x100 * 0x100
    + dw / 0x100_0000 % 0x100

-- `SWAP_ENDIAN_32B` on eight words: word `i` and word `7 - i` change places, each turned round. It
-- is only ever applied to the eight words of a coordinate.
unfoldable pub swap_endian_32b : List ℕ → List ℕ
swap_endian_32b (a ∷ b ∷ c ∷ d ∷ e ∷ f ∷ g ∷ h ∷ []) =
    swap_endian_dw h
    ∷ swap_endian_dw g
    ∷ swap_endian_dw f
    ∷ swap_endian_dw e
    ∷ swap_endian_dw d
    ∷ swap_endian_dw c
    ∷ swap_endian_dw b
    ∷ swap_endian_dw a
    ∷ []
swap_endian_32b ws = ws

-- A number in two and in four bytes, little endian.
abbrev pub le16 : ℕ → Bytes
le16 n = (n % 0x100) ∷ (n / 0x100 % 0x100) ∷ []

abbrev pub le32 : ℕ → Bytes
le32 n = (n % 0x100) ∷ (n / 0x100 % 0x100) ∷ (n / 0x1_0000 % 0x100) ∷ (n / 0x100_0000 % 0x100) ∷ []

abbrev pub le32s : List ℕ → Bytes
le32s [] = []
le32s (w ∷ ws) = le32 w ++ le32s ws

-- `ias_quote_status_t`
pub data QuoteStatus : Type 0 where
  quote_ok signature_invalid group_revoked signature_revoked key_revoked : QuoteStatus
  sigrl_version_mismatch group_out_of_date : QuoteStatus

-- `ias_pse_status_t`
pub data PseStatus : Type 0 where
  pse_ok desc_type_not_supported isvsvn_out_of_date miscselect_invalid : PseStatus
  attributes_invalid mrsigner_invalid hw_gid_revoked hw_privkey_rlver_mismatch : PseStatus
  hw_sig_rlver_mismatch hw_ca_id_invalid hw_sec_info_invalid hw_psda_svn_out_of_date : PseStatus

-- `ias_platform_info_blob_t`
pub record InfoBlob : Type 0 where
  pub epid_group_status : ℕ
  pub tcb_evaluation_status : ℕ
  pub pse_evaluation_status : ℕ
  pub latest_equivalent_tcb_psvn : Bytes
  pub latest_pse_isvsvn : Bytes
  pub latest_psda_svn : Bytes
  pub performance_rekey_gid : Bytes
  pub signature_x : List ℕ
  pub signature_y : List ℕ

-- `ias_att_report_t`
pub record AttReport : Type 0 where
  pub id : ℕ
  pub status : QuoteStatus
  pub revocation_reason : ℕ
  pub info_blob : InfoBlob
  pub pse_status : PseStatus
  pub policy_report_size : ℕ

-- The bytes of the packed structure before its signature, and all of them.
abbrev pub unsigned_bytes : InfoBlob → Bytes
unsigned_bytes i =
    (i.epid_group_status % 0x100)
    ∷ (le16 i.tcb_evaluation_status
        ++ (le16 i.pse_evaluation_status
            ++ (i.latest_equivalent_tcb_psvn
                ++ (i.latest_pse_isvsvn ++ (i.latest_psda_svn ++ i.performance_rekey_gid)))))

abbrev pub blob_bytes : InfoBlob → Bytes
blob_bytes i = unsigned_bytes i ++ (le32s i.signature_x ++ le32s i.signature_y)

-- `{0}`
abbrev pub zero_blob : InfoBlob
zero_blob = record {
  epid_group_status = 0;
  tcb_evaluation_status = 0;
  pse_evaluation_status = 0;
  latest_equivalent_tcb_psvn = replicate 18 0;
  latest_pse_isvsvn = replicate 2 0;
  latest_psda_svn = replicate 4 0;
  performance_rekey_gid = replicate 4 0;
  signature_x = replicate 8 0;
  signature_y = replicate 8 0;
}

abbrev pub zero_report : AttReport
zero_report = record {
  id = 0;
  status = quote_ok;
  revocation_reason = 0;
  info_blob = zero_blob;
  pse_status = pse_ok;
  policy_report_size = 0;
}

-- `g_rk_priv_key`
abbrev pub rk_priv_key : Bytes
rk_priv_key =
    0x63 ∷ 0x2c ∷ 0xd4 ∷ 0x02 ∷ 0x7a ∷ 0xdc ∷ 0x56 ∷ 0xa5 ∷ 0x59 ∷ 0x6c ∷ 0x44 ∷ 0x3e ∷ 0x43 ∷ 0xca
    ∷ 0x4e ∷ 0x0b ∷ 0x58 ∷ 0xcd ∷ 0x78 ∷ 0xcb ∷ 0x3c ∷ 0x7e ∷ 0xd5 ∷ 0xb9 ∷ 0xf2 ∷ 0x91 ∷ 0x5b
    ∷ 0x39 ∷ 0x0d ∷ 0xb3 ∷ 0xb5 ∷ 0xfb ∷ []

-- `g_sim_spid`, "Service X" in sixteen bytes
abbrev pub sim_spid : Bytes
sim_spid = b'S' ∷ b'e' ∷ b'r' ∷ b'v' ∷ b'i' ∷ b'c' ∷ b'e' ∷ 0x20 ∷ b'X' ∷ replicate 7 0

-- The report as it is filled in before the signature: every field but `pse_status`,
-- `policy_report_size` and the signature.
abbrev pub filled : AttReport → AttReport
filled r = record r {
  id = 0x1234_5678;
  status = quote_ok;
  revocation_reason = 0;
  info_blob = record zero_blob {
    signature_x = r.info_blob.signature_x;
    signature_y = r.info_blob.signature_y;
  };
}

abbrev pub signed : AttReport → List ℕ → List ℕ → AttReport
signed r x y = record r {
  info_blob = record zero_blob { signature_x = swap_endian_32b x; signature_y = swap_endian_32b y };
}

abbrev pub finished : AttReport → AttReport
finished r = record r { pse_status = pse_ok; policy_report_size = 0 }

-- `sample_ecc256_close_context`, on the count of the contexts that are open
abbrev pub close_ecc : ℕ → ℕ
close_ecc contexts = contexts - 1

-- A pointer argument is an `Option`, `none` for NULL. The quote is not read. The last argument and the last
-- component are the contexts that are open before and after the call.
unfoldable pub ias_verify_attestation_evidence :
    Crypto → Option Bytes → Option AttReport → ℕ → ℤ × Option AttReport × ℕ
ias_verify_attestation_evidence c none report contexts = (negsuc 0, report, contexts)
ias_verify_attestation_evidence c (some quote) none contexts = (negsuc 0, none, contexts)
ias_verify_attestation_evidence c (some quote) (some report) contexts = elim c.ecc256_open_context [
  | failed _ ↦ (negsuc 0, some (finished (filled report)), contexts)
  | success ctx ↦ elim (c.ecdsa_sign rk_priv_key (unsigned_bytes (filled report).info_blob) ctx) [
    | failed _ ↦ (pos 5, some (finished (filled report)), close_ecc (contexts + 1))
    | success (x, y) ↦
        (pos 0, some (finished (signed (filled report) x y)), close_ecc (contexts + 1))
  ]
]

-- The two output parameters are given together; the group is not read.
unfoldable pub ias_get_sigrl : Bytes → Option (ℕ × Option Bytes) → ℤ × Option (ℕ × Option Bytes)
ias_get_sigrl gid none = (negsuc 0, none)
ias_get_sigrl gid (some out) = (pos 0, some (0, none))

-- The credentials and the token are not read.
unfoldable pub ias_enroll : ℕ → Option Bytes → ℕ → ℤ × Option Bytes
ias_enroll credentials none token = (pos 1, none)
ias_enroll credentials (some spid) token = (pos 0, some sim_spid)
