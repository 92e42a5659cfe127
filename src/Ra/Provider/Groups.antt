-- ===== src/Ra/Provider/Groups.antt =====
-- service_provider/service_provider.cpp: the constants of the provider.
use sgx_nfv.Prelude.{List, [], ◌∷◌}
use sgx_nfv.Ra.Crypto.{Bytes, Crypto}
use sgx_nfv.Ra.Ias.{ias_enroll, ias_get_sigrl, ias_verify_attestation_evidence}
use sgx_nfv.Ra.Provider.{ExtendedEpidGroup}

-- the one element of `g_extended_epid_groups`
abbrev pub ias_group : Crypto → ExtendedEpidGroup
ias_group c = record {
  extended_epid_group_id = 0;
  enroll = ias_enroll;
  get_sigrl = ias_get_sigrl;
  verify_attestation_evidence = ias_verify_attestation_evidence c;
}

-- `g_extended_epid_groups`
abbrev pub extended_epid_groups : Crypto → List ExtendedEpidGroup
extended_epid_groups c = ias_group c ∷ []

-- `g_sp_priv_key`
abbrev pub sp_priv_key : Bytes
sp_priv_key =
    0x90 ∷ 0xe7 ∷ 0x6c ∷ 0xbb ∷ 0x2d ∷ 0x52 ∷ 0xa1 ∷ 0xce ∷ 0x3b ∷ 0x66 ∷ 0xde ∷ 0x11 ∷ 0x43 ∷ 0x9c
    ∷ 0x87 ∷ 0xec ∷ 0x1f ∷ 0x86 ∷ 0x6a ∷ 0x3b ∷ 0x65 ∷ 0xb6 ∷ 0xae ∷ 0xea ∷ 0xad ∷ 0x57 ∷ 0x34
    ∷ 0x53 ∷ 0xd1 ∷ 0x03 ∷ 0x8c ∷ 0x01 ∷ []

-- `g_secret`
abbrev pub secret : Bytes
secret = 0 ∷ 1 ∷ 2 ∷ 3 ∷ 4 ∷ 5 ∷ 6 ∷ 7 ∷ []
