-- ===== src/Ra/Provider/Msg0.antt =====
-- `sp_ra_proc_msg0_req` of service_provider/service_provider.cpp.
use sgx_nfv.Prelude.{
  ℕ, Bool, true, false, not, ◌||◌, Option, none, some, List, [], ◌∷◌, ◌==◌, if◌then◌else◌, ℤ, pos,
  negsuc,
}
use sgx_nfv.Ra.Crypto.{Bytes}
use sgx_nfv.Ra.Provider.{
  Sp, ExtendedEpidGroup, sp_ok, sp_unsupported_extended_epid_group, sp_ias_failed,
}

-- `0 == ret`
abbrev pub is_zero : ℤ → Bool
is_zero (pos n) = n == 0
is_zero (negsuc n) = false

-- the SPID that the call leaves in its output parameter
abbrev spid_or : Option Bytes → Bytes → Bytes
spid_or none old = old
spid_or (some new) old = new

-- `g_sp_credentials` and `g_authentication_token` are 0 and are never written.
unfoldable pub enroll_in : ExtendedEpidGroup → Sp → ℤ × Sp
enroll_in g s =
    let (ret, spid) = g.enroll 0 (some s.spid) 0 in
    if is_zero ret
    then (sp_ok, record s { group = some g; is_registered = true; spid = spid_or spid s.spid })
    else (sp_ias_failed, record s { group = some g; spid = spid_or spid s.spid })

-- the loop over `g_extended_epid_groups`
unfoldable pub configure : List ExtendedEpidGroup → ℕ → Sp → ℤ × Sp
configure [] id s = (sp_unsupported_extended_epid_group, s)
configure (g ∷ gs) id s =
    if g.extended_epid_group_id == id then enroll_in g s else configure gs id s

-- `g_sp_extended_epid_group_id != NULL && g_sp_extended_epid_group_id->extended_epid_group_id != id`
abbrev pub other_group : Option ExtendedEpidGroup → ℕ → Bool
other_group none id = false
other_group (some g) id = not (g.extended_epid_group_id == id)

-- The message holds the group's id. `none` is a NULL pointer.
unfoldable pub sp_ra_proc_msg0_req : List ExtendedEpidGroup → Option ℕ → ℕ → Sp → ℤ × Sp
sp_ra_proc_msg0_req groups none size s = (negsuc 0, s)
sp_ra_proc_msg0_req groups (some id) size s =
    if not (size == 4)
    then (negsuc 0, s)
    else if not s.is_registered || other_group s.group id
    then configure groups id s
    else (sp_ok, s)
