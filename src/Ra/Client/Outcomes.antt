-- ===== src/Ra/Client/Outcomes.antt =====
-- How an attempt at remote attestation ends.
use sgx_nfv.Prelude.{
  ◌≡◌, Bool, true, false, not, ◌&&◌, [], ◌∷◌, ◌==◌, arith, negsuc, Outcome, done, fault, spinning,
}
use sgx_nfv.Ra.Client.{
  World, Attempt, msg0, refused, is_zero, conclude, make_msg1, perform_remote_attestation,
}

-- Every call before message 2 succeeds.
abbrev pub all_well : World → Bool
all_well w =
    not (refused w.enclave_init_ra)
    && (w.get_extended_epid_group_id.0 == 0)
    && w.malloc 12
    && is_zero (w.send_receive (msg0 (w.get_extended_epid_group_id.1)))
    && w.malloc 76
    && (w.get_msg1 == 0)

-- The attempt either returns -1, after it sent at most message 0, or follows a NULL pointer.
unfoldable pub EndsBadly : World → Outcome Attempt → Type 0
EndsBadly w (done a) = (a.result ≡ negsuc 0) × (all_well w ≡ false) × (elim a.sent [
  | [] ↦ a.blocks ≡ 0
  | r ∷ rs ↦ (rs ≡ []) × (r ≡ msg0 (w.get_extended_epid_group_id.1))
])
EndsBadly w fault = all_well w ≡ true
EndsBadly w spinning = ⊥

-- `perform_remote_attestation` never gives 0. Where a call before message 2 fails it gives -1, and no
-- request but message 0 was sent; where all succeed it follows the pointer to message 2, which is NULL.
pub perform_remote_attestation-EndsBadly : (w : World) → EndsBadly w (perform_remote_attestation w)
unfolding perform_remote_attestation make_msg1 conclude EndsBadly
perform_remote_attestation-EndsBadly w = ground arith
