-- ===== src/Ra/Provider/Blocks.antt =====
-- What each block of `sp_ra_proc_msg3_req` has established where it ends well.
use sgx_nfv.Prelude.{
  ℕ, ◌+◌, ◌-◌, ◌≡◌, refl, ◌∙◌, sym, Bool, true, false, some, arith, ℤ, length, take, drop, ◌++◌,
  replicate, ltb, Bool-cases, Option-cases, inl, inr, ◌≢◌,
}
use sgx_nfv.Ra.Crypto.{Bytes, Crypto, success, bytes_eq, eq_of_bytes_eq}
use sgx_nfv.Ra.Ias.{AttReport, zero_report, blob_bytes}
use sgx_nfv.Ra.Provider.{Sp, ExtendedEpidGroup}
use sgx_nfv.Ra.Provider.Msg0.{is_zero}
use sgx_nfv.Ra.Provider.Msg3.{
  Msg3, AttResult, cmaced, accepted, is_quote_ok, is_pse_ok, status_byte, authenticate,
  expected_report_data, verify_report_data, verify_quote, seal, respond,
}
use sgx_nfv.Ra.Provider.Run.{Frame, Flow, go, >>=-eq-go, bytes_at, check}
use sgx_nfv.Ra.Provider.Grounds.{SameSession, session_hash, Sealed, value_of}

crash-ne-go : {A : Type 0} (a : A) (g : Frame) → Flow.crash ≢ go a g
crash-ne-go a g h = cc

go_parts : {A : Type 0} {a b : A} {f g : Frame} → go a f ≡ go b g → (b ≡ a) × (g ≡ f)
go_parts h = (cc, cc)

pub session_hash-same :
    (c : Crypto) (f g : Sp) → SameSession f g → session_hash c f.db ≡ session_hash c g.db
session_hash-same c f g k = rw (k.g_a, k.g_b, k.vk_key)

bytes_at-go :
    (b : Bytes) (offset n : ℕ) (f g : Frame) (d : Bytes)
    → bytes_at b offset n f ≡ go d g
    → (d ≡ take n (drop offset b)) × (g ≡ f)
bytes_at-go b offset n f g d h = elim (Bool-cases (ltb (length b) (offset + n))) [
  | inl outside ↦ absurd (crash-ne-go d g (rw outside at h))
  | inr inside ↦ go_parts (rw inside at h)
]

check-go :
    (t : Bool) (ret : ℤ) (f g : Frame) (u : Unit {0})
    → check t ret f ≡ go u g
    → (t ≡ true) × (g ≡ f)
check-go true ret f g u h = (refl, (go_parts h).1)
check-go false ret f g u h = cc

module _ (c : Crypto) (malloc : ℕ → Bool) where
  pub authenticate-go :
      (m : Msg3) (size : ℕ) (f g : Frame) (u : Unit {0})
      → authenticate c malloc m size f ≡ go u g
      → (mac : Bytes) × (bytes_eq f.sp.db.g_a m.g_a ≡ true)
        × (c.rijndael128_cmac_msg f.sp.db.smk_key (take (size - 16) (cmaced m)) ≡ success mac)
        × (bytes_eq m.mac mac ≡ true)
        × SameSession f.sp g.sp
        × (g.sp.hashes ≡ f.sp.hashes)
  unfolding authenticate
  authenticate-go m size f g u h = ground arith

  pub expected_report_data-go :
      (f g : Frame) (b : Bytes)
      → expected_report_data c malloc f ≡ go b g
      → (hash : Bytes) × (session_hash c f.sp.db ≡ success hash)
        × (b ≡ hash ++ replicate 32 0)
        × SameSession f.sp g.sp
        × (g.sp.hashes ≡ f.sp.hashes + 1)
  unfolding expected_report_data
  expected_report_data-go f g b h =
      (value_of (session_hash c f.sp.db), ground arith, ground arith, ground arith, ground arith)

  pub verify_report_data-go :
      (m : Msg3) (f g : Frame) (u : Unit {0})
      → verify_report_data c malloc m f ≡ go u g
      → (hash : Bytes) × (session_hash c f.sp.db ≡ success hash)
        × (take 64 (drop 368 m.quote) ≡ hash ++ replicate 32 0)
        × SameSession f.sp g.sp
        × (g.sp.hashes ≡ f.sp.hashes + 1)
  unfolding verify_report_data
  verify_report_data-go m f g u h =
      let (b, f1, e1, k1) = >>=-eq-go (expected_report_data c malloc f) _ h in
      let (hash, is_hash, eb, same, opened) = expected_report_data-go f f1 b e1 in
      let (d, f2, e2, k2) = >>=-eq-go (bytes_at m.quote 368 64 f1) _ k1 in
      let (ed, ef) = bytes_at-go m.quote 368 64 f1 f2 d e2 in
      let (same_bytes, eg) = check-go (bytes_eq b d) _ f2 g u k2 in
      (
        hash,
        is_hash,
        sym ed ∙ sym (eq_of_bytes_eq b d same_bytes) ∙ eb,
        rw (eg, ef) same,
        rw (eg, ef) opened,
      )

  pub verify_quote-go :
      (m : Msg3) (f g : Frame) (r : AttReport)
      → verify_quote c malloc m f ≡ go r g
      → (group : ExtendedEpidGroup) × (ret : ℤ) × (left : ℕ) × (f.sp.group ≡ some group)
        × (is_zero ret ≡ true)
        × (group.verify_attestation_evidence (some m.quote) (some zero_report) f.sp.contexts
            ≡ (ret, some r, left))
        × (g ≡ record f { sp = record (f.sp) { contexts = left } })
  unfolding verify_quote
  verify_quote-go m f g r h = elim (Option-cases f.sp.group) [
    | inl nothing ↦ ground arith
    | inr (group, e) ↦
        let answer =
          group.verify_attestation_evidence (some m.quote) (some zero_report) f.sp.contexts in
        (group, answer.0, answer.2, e, ground arith, ground arith, ground arith)
  ]

  respond-Sealed :
      (b : Bool) (r : AttReport) (f g : Frame) (a : AttResult)
      → accepted r ≡ b
      → respond c malloc r f ≡ go a g
      → Sealed c b f.sp.db.sk_key a.payload a.payload_tag
  unfolding respond seal
  respond-Sealed true r f g a e h = ground arith
  respond-Sealed false r f g a e h = ground arith

  pub respond-go :
      (r : AttReport) (f g : Frame) (a : AttResult)
      → respond c malloc r f ≡ go a g
      → (c.rijndael128_cmac_msg f.sp.db.mk_key (blob_bytes r.info_blob) ≡ success a.mac)
        × (a.platform_info_blob ≡ r.info_blob)
        × (a.status0 ≡ status_byte (is_quote_ok r.status))
        × (a.status1 ≡ status_byte (is_pse_ok r.pse_status))
        × Sealed c (accepted r) f.sp.db.sk_key a.payload a.payload_tag
        × (g.sp.hashes ≡ f.sp.hashes)
        × (a.payload_size ≡ 8)
  unfolding respond seal
  respond-go r f g a h = (
    ground arith,
    ground arith,
    ground arith,
    ground arith,
    respond-Sealed (accepted r) r f g a refl h,
    ground arith,
    ground arith,
  )
