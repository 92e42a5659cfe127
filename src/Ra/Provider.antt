-- ===== src/Ra/Provider.antt =====
-- service_provider/service_provider.cpp: the state of the service provider and the frame in which its
-- three handlers run. The handlers are in the modules below.
pub mod Run
pub mod Groups
pub mod Msg0
pub mod Msg1
pub mod Msg3
pub mod Laws
pub mod Resources
pub mod Reach
pub mod Grounds
pub mod Blocks
pub mod Sound
pub mod Interleaved
pub mod Phases
pub mod After
pub mod Steps
pub mod Refines
pub mod Offer
pub mod Account
pub mod Binding
pub mod Core
pub mod Replay
use sgx_nfv.Prelude.{
  ℕ, ◌+◌, ◌-◌, Bool, true, false, Option, none, some, List, [], ◌∷◌, replicate, ℤ, pos, negsuc,
}
use sgx_nfv.Ra.Crypto.{Bytes}
use sgx_nfv.Ra.Ias.{AttReport}

-- `sp_ra_msg_status_t`, as the `int` that the handlers return
abbrev pub sp_ok : ℤ
sp_ok = pos 0

abbrev pub sp_unsupported_extended_epid_group : ℤ
sp_unsupported_extended_epid_group = pos 1

abbrev pub sp_integrity_failed : ℤ
sp_integrity_failed = pos 2

abbrev pub sp_ias_failed : ℤ
sp_ias_failed = pos 4

abbrev pub sp_internal_error : ℤ
sp_internal_error = pos 5

abbrev pub sp_protocol_error : ℤ
sp_protocol_error = pos 6

-- `sample_extended_epid_group`: an id and three function pointers; the last function is also given the
-- number of open ECC contexts, and gives what it is after the call.
pub record ExtendedEpidGroup : Type 0 where
  pub extended_epid_group_id : ℕ
  pub enroll : ℕ → Option Bytes → ℕ → ℤ × Option Bytes
  pub get_sigrl : Bytes → Option (ℕ × Option Bytes) → ℤ × Option (ℕ × Option Bytes)
  pub verify_attestation_evidence : Option Bytes → Option AttReport → ℕ → ℤ × Option AttReport × ℕ

-- `sp_db_item_t`; a public key is the 64 bytes of its two coordinates
pub record SpDb : Type 0 where
  pub g_a : Bytes
  pub g_b : Bytes
  pub vk_key : Bytes
  pub mk_key : Bytes
  pub sk_key : Bytes
  pub smk_key : Bytes
  pub b : Bytes
  pub ps_sec_prop : Bytes

-- The globals of the file, and what it holds of the outside: open ECC contexts, open hash states and
-- allocated blocks, counted.
pub record Sp : Type 0 where
  pub db : SpDb
  pub group : Option ExtendedEpidGroup
  pub is_registered : Bool
  pub spid : Bytes
  pub contexts : ℕ
  pub hashes : ℕ
  pub blocks : ℕ

abbrev pub blank_db : SpDb
blank_db = record {
  g_a = replicate 64 0;
  g_b = replicate 64 0;
  vk_key = replicate 16 0;
  mk_key = replicate 16 0;
  sk_key = replicate 16 0;
  smk_key = replicate 16 0;
  b = replicate 32 0;
  ps_sec_prop = replicate 256 0;
}

-- The globals before the first message.
abbrev pub initial : Sp
initial = record {
  db = blank_db;
  group = none;
  is_registered = false;
  spid = replicate 16 0;
  contexts = 0;
  hashes = 0;
  blocks = 0;
}

-- What a handler leaves in `*pp_msg`: early returns do not write it.
pub data Reply (A : Type 0) : Type 0 where
  untouched null : Reply A
  message : A → Reply A
