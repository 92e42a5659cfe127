-- ===== src/Ra/Ecp.antt =====
-- service_provider/ecp.cpp: bounded copies, MAC checks and the derivation of the session keys.
pub mod Derive
use sgx_nfv.Prelude.{
  ℕ, zero, suc, ◌+◌, Bool, true, false, ◌&&◌, Option, none, some, List, [], ◌∷◌, ◌++◌, ◌==◌, ltb,
  if◌then◌else◌, length, replicate, take, ℤ, pos, negsuc,
}
use sgx_nfv.Ra.Crypto.{Bytes, Status, success, failed, bytes_eq, Crypto}

-- The bytes that `dest` holds after the copy; `none` where the copy is refused with -1.
unfoldable pub memcpy_s : ℕ → Bytes → ℕ → Option Bytes
memcpy_s number_of_elements src count =
    if ltb number_of_elements count then none else some (take count src)

-- `sample_derive_key_type_t`
pub data KeyId : Type 0 where
  smk sk mk vk : KeyId

abbrev pub key_number : KeyId → ℕ
key_number smk = 0
key_number sk = 1
key_number mk = 2
key_number vk = 3

-- the `switch` over the key's number
unfoldable pub label : ℕ → Option Bytes
label id =
    if id == 0
    then some (b'S' ∷ b'M' ∷ b'K' ∷ [])
    else if id == 1
    then some (b'S' ∷ b'K' ∷ [])
    else if id == 2
    then some (b'M' ∷ b'K' ∷ [])
    else if id == 3
    then some (b'V' ∷ b'K' ∷ [])
    else none

-- counter(0x01) || label || 0x00 || output_key_len(0x0080), the length in little endian
abbrev pub derivation_buffer : Bytes → Bytes
derivation_buffer l = 0x01 ∷ (l ++ (0x00 ∷ 0x80 ∷ 0x00 ∷ []))

module _ (c : Crypto) where
  unfoldable pub verify_cmac128 : Bytes → Bytes → Bytes → Bool
  verify_cmac128 mac_key data_buf mac_buf = elim (c.rijndael128_cmac_msg mac_key data_buf) [
    | failed _ ↦ false
    | success data_mac ↦ bytes_eq mac_buf data_mac
  ]

  -- `malloc` says whether a block of that size is to be had; `none` is the result `false`.
  unfoldable pub derive_key : (ℕ → Bool) → Bytes → ℕ → Option Bytes
  derive_key malloc shared_key id = elim (c.rijndael128_cmac_msg (replicate 16 0) shared_key) [
    | failed _ ↦ none
    | success key_derive_key ↦ elim (label id) [
      | none ↦ none
      | some l ↦
          if malloc (length l + 4)
          then elim (c.rijndael128_cmac_msg key_derive_key (derivation_buffer l)) [
            | failed _ ↦ none
            | success derived_key ↦ some derived_key
          ]
          else none
    ]
  ]
