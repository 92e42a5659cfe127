-- ===== src/Ra/Provider/Replay.antt =====
-- Message 3 sent again to service_provider/service_provider.cpp.
use sgx_nfv.Prelude.{
  ℕ, ◌+◌, ◌≡◌, refl, ap, sym, ◌∙◌, Bool, true, false, not, ◌||◌, Option, some, ℤ, pos, ltb, done,
  arith, List,
}
use mathlib.Core.Path.{subst}
use sgx_nfv.Ra.Crypto.{Bytes, Crypto, Status, success}
use sgx_nfv.Ra.Ias.{AttReport, zero_report, blob_bytes}
use sgx_nfv.Ra.Provider.{Sp, Reply, message, ExtendedEpidGroup}
use sgx_nfv.Ra.Provider.Msg3.{
  Msg3, AttResult, authenticate, verify_report_data, expected_report_data, verify_quote, respond,
  seal, accepted, is_quote_ok, is_pse_ok, status_byte, msg3_block, msg3_end, sp_ra_proc_msg3_req,
}
use sgx_nfv.Ra.Provider.Core.{
  core, core_frame, core_flow, guards, guards-ReadsCore, guards-Has, msg3_block-guards, KeepsCore,
  sp_ra_proc_msg3_req-KeepsCore,
}
use sgx_nfv.Ra.Provider.Grounds.{Sealed}
use sgx_nfv.Ra.Provider.Run.{Frame, Flow, go, stop, crash, then_run, >>=-eq-go}
use sgx_nfv.Ra.Provider.Sound.{early-message, msg3_req-message, sp_ra_proc_msg3_req-Vouched}

-- Requests with any message 3, whoever sends them and however they end, with what the library gives at
-- each of them. The attestation server's function of the group, which has a library of its own, may at any
-- time be replaced by one with other results.
pub data Later (s : Sp) : Sp → Type 1 where
  here : Later s s
  next :
      {t : Sp} (c : Crypto) (malloc : ℕ → Bool) (m : Option Msg3) (size : ℕ) (pp : Bool) (ret : ℤ)
      (reply : Reply AttResult) (u : Sp)
      → Later s t
      → sp_ra_proc_msg3_req c malloc m size pp t ≡ done (ret, reply, u)
      → Later s u
  attesting :
      {t : Sp} (group : Option ExtendedEpidGroup) (u : Sp)
      → u ≡ record t { group = group }
      → Later s t
      → Later s u

Later-core : {s t : Sp} → Later s t → core t ≡ core s
Later-core here = refl
Later-core (next {t} c malloc m size pp ret reply u l e) =
    subst (KeepsCore t) e (sp_ra_proc_msg3_req-KeepsCore c malloc m size pp t) ∙ Later-core l
Later-core (attesting {t} group u e l) = ap core e ∙ Later-core l

-- The library with other results of its randomised calls.
abbrev pub resigning :
    Crypto
    → Status ℕ
    → (ℕ → Status (Bytes × Bytes))
    → (Bytes → Bytes → ℕ → Status (List ℕ × List ℕ))
    → Crypto
resigning c opened pair sign = record c {
  ecc256_open_context = opened;
  ecc256_create_key_pair = pair;
  ecdsa_sign = sign;
}

-- What two answers have in common: all but the signature in the blob of the platform, and its MAC.
pub record SameSecret (a a' : AttResult) : Type 0 where
  pub status0 : a'.status0 ≡ a.status0
  pub status1 : a'.status1 ≡ a.status1
  pub payload : a'.payload ≡ a.payload
  pub payload_tag : a'.payload_tag ≡ a.payload_tag

abbrev entry : Sp → Frame
entry s = record { sp = s; ecc_state = false; full = false }

guards-resigning :
    (c : Crypto) (opened : Status ℕ) (pair : ℕ → Status (Bytes × Bytes))
    (sign : Bytes → Bytes → ℕ → Status (List ℕ × List ℕ)) (malloc malloc' : ℕ → Bool) (m : Msg3)
    (size : ℕ) (f : Frame)
    → guards (resigning c opened pair sign) malloc' m size f ≡ guards c malloc m size f
unfolding guards authenticate verify_report_data expected_report_data
guards-resigning c opened pair sign malloc malloc' m size f = refl

core_flow-go :
    (r : Flow (Unit {0})) (u : Unit {0}) (f : Frame)
    → core_flow r ≡ go u f
    → (g : Frame) × (r ≡ go u g)
core_flow-go (go u' g) u f e = (g, ground arith)
core_flow-go (stop ret g) u f e = cc
core_flow-go crash u f e = cc

-- Checks that are passed are passed again in a state with the same core.
guards-again :
    (c : Crypto) (malloc : ℕ → Bool) (m : Msg3) (size : ℕ) (s t : Sp) (u : Unit {0}) (f : Frame)
    → core t ≡ core s
    → guards c malloc m size (entry s) ≡ go u f
    → (g : Frame) × (guards c malloc m size (entry t) ≡ go u g)
guards-again c malloc m size s t u f same e =
    core_flow-go (guards c malloc m size (entry t)) u (core_frame f) (
      guards-ReadsCore c malloc m size (entry t)
      ∙ ap (λ (x : Sp). core_flow (guards c malloc m size (entry x))) same
      ∙ sym (guards-ReadsCore c malloc m size (entry s))
      ∙ ap core_flow e)

status_byte-inj : (b b' : Bool) → status_byte b ≡ status_byte b' → b ≡ b'
status_byte-inj true true e = refl
status_byte-inj true false e = absurd (omega arith)
status_byte-inj false true e = absurd (omega arith)
status_byte-inj false false e = refl

verify_quote-again :
    (c : Crypto) (malloc : ℕ → Bool) (m : Msg3) (f : Frame) (gr : ExtendedEpidGroup) (r : AttReport)
    (left : ℕ)
    → f.sp.group ≡ some gr
    → gr.verify_attestation_evidence (some m.quote) (some zero_report) f.sp.contexts
      ≡ (pos 0, some r, left)
    → (g : Frame) × (verify_quote c malloc m f ≡ go r g) × (core g.sp ≡ core f.sp)
unfolding verify_quote
verify_quote-again c malloc m f gr r left e answer =
    (record f { sp = record (f.sp) { contexts = left } }, ground arith, refl)

abbrev response : AttReport → Bytes → Bytes → Bytes → AttResult
response r mac payload tag = record {
  type = 4;
  status0 = status_byte (is_quote_ok r.status);
  status1 = status_byte (is_pse_ok r.pse_status);
  size = 145;
  platform_info_blob = r.info_blob;
  mac = mac;
  payload_size = 8;
  payload = payload;
  payload_tag = tag;
}

abbrev with_block : Frame → Frame
with_block f = record {
  sp = record (f.sp) { blocks = f.sp.blocks + 1 };
  ecc_state = f.ecc_state;
  full = true;
}

respond-again :
    (c : Crypto) (malloc : ℕ → Bool) (b : Bool) (r : AttReport) (f : Frame)
    (mac payload tag : Bytes)
    → accepted r ≡ b
    → malloc 161 ≡ true
    → c.rijndael128_cmac_msg f.sp.db.mk_key (blob_bytes r.info_blob) ≡ success mac
    → Sealed c b f.sp.db.sk_key payload tag
    → respond c malloc r f ≡ go (response r mac payload tag) (with_block f)
unfolding respond seal
respond-again c malloc true r f mac payload tag ok block is_mac sealed =
    simp (block, is_mac, ok, sealed)
respond-again c malloc false r f mac payload tag ok block is_mac sealed =
    simp (block, is_mac, ok, sealed.0, sealed.1)

-- The call of the attestation server on message 3 in state `t`, and the MAC of its answer.
pub record Attests (c : Crypto) (t : Sp) (m : Msg3) (report : AttReport) : Type 0 where
  pub group : ExtendedEpidGroup
  pub is_group : t.group ≡ some group
  pub left : ℕ
  pub answered :
      group.verify_attestation_evidence (some m.quote) (some zero_report) t.contexts
      ≡ (pos 0, some report, left)
  pub mac : Bytes
  pub is_mac : c.rijndael128_cmac_msg t.db.mk_key (blob_bytes report.info_blob) ≡ success mac

-- A message 3 that was answered gets the same payload again whenever it is sent again: after any number of
-- requests with messages 3, whoever sends them, however they end and whatever the library gives at each of
-- them. The library may give other contexts, key pairs and signatures than at the first time, but the same
-- MACs, hashes and encryptions; the attestation server may have been exchanged for one with other results
-- and signs its answer anew, but gives the same statuses; the MAC of its answer can be made; and the
-- response can be allocated. Then the handler returns 0, and the answer has the two status bytes, the
-- payload and the tag of the first one. But for the security properties, the counts and the attestation
-- server, the state is as it was: nothing in a message 3 is used up.
pub sp_ra_proc_msg3_req-replays :
    (c : Crypto) (malloc malloc' : ℕ → Bool) (m : Msg3) (size : ℕ) (pp : Bool) (s s' : Sp) {t : Sp}
    (ret : ℤ) (a : AttResult) (opened : Status ℕ) (pair : ℕ → Status (Bytes × Bytes))
    (sign : Bytes → Bytes → ℕ → Status (List ℕ × List ℕ)) (report : AttReport)
    → sp_ra_proc_msg3_req c malloc (some m) size pp s ≡ done (ret, message a, s')
    → Later s' t
    → Attests c t m report
    → status_byte (is_quote_ok report.status) ≡ a.status0
    → status_byte (is_pse_ok report.pse_status) ≡ a.status1
    → malloc' 161 ≡ true
    → (a' : AttResult) × (t' : Sp) × (sp_ra_proc_msg3_req
          (resigning c opened pair sign)
          malloc'
          (some m)
          size
          pp
          t
        ≡ done (pos 0, message a', t'))
      × SameSecret a a'
      × (core t' ≡ core s)
unfolding sp_ra_proc_msg3_req msg3_end
sp_ra_proc_msg3_req-replays c malloc malloc' m size pp s s' {t} ret a opened pair sign report e l
      attests same0 same1 block =
    let (good, e1) = early-message (ltb size 336 || not pp) _ _ s s' ret a e in
    let (g0, whole, is_s', on, long) = msg3_req-message c malloc m size pp s s' ret a e in
    let (u, f, guarded, rest) =
      >>=-eq-go (guards c malloc m size (entry s)) _
        (sym (msg3_block-guards c malloc m size (entry s)) ∙ whole) in
    let kept : core s' ≡ core s =
      subst (KeepsCore s) e (sp_ra_proc_msg3_req-KeepsCore c malloc (some m) size pp s) in
    let same : core t ≡ core s = Later-core l ∙ kept in
    let (g, again) = guards-again c malloc m size s t u f same guarded in
    let (at, contexts, asks) =
      guards-Has c malloc t m size (entry t) u g (refl, refl, refl) again in
    let v = sp_ra_proc_msg3_req-Vouched c malloc m size pp s s' ret a e in
    let c' = resigning c opened pair sign in
    let passed : guards c' malloc' m size (entry t) ≡ go u g =
      guards-resigning c opened pair sign malloc malloc' m size (entry t) ∙ again in
    let (h, asked, after) =
      verify_quote-again c' malloc' m g attests.group report attests.left (asks ∙ attests.is_group)
        (ap (attests.group.verify_attestation_evidence (some m.quote) (some zero_report)) contexts
          ∙ attests.answered) in
    let mk : t.db.mk_key ≡ h.sp.db.mk_key = ap (λ (x : Sp). x.db.mk_key) (sym (after ∙ at)) in
    let sk : s.db.sk_key ≡ h.sp.db.sk_key =
      ap (λ (x : Sp). x.db.sk_key) (sym (after ∙ at ∙ same)) in
    let ok : accepted report ≡ accepted v.report =
      rw
        (
          status_byte-inj (is_quote_ok report.status) (is_quote_ok v.report.status)
              (same0 ∙ v.status0),
          status_byte-inj (is_pse_ok report.pse_status) (is_pse_ok v.report.pse_status)
              (same1 ∙ v.status1),
        )
        refl in
    let responds =
      respond-again c' malloc' (accepted v.report) report h attests.mac a.payload a.payload_tag ok
        block
        (subst (λ k. c.rijndael128_cmac_msg k (blob_bytes report.info_blob) ≡ success attests.mac)
          mk attests.is_mac)
        (subst (λ k. Sealed c (accepted v.report) k a.payload a.payload_tag) sk v.sealed) in
    let ends : msg3_block c' malloc' m size (entry t)
        ≡ go (response report attests.mac a.payload a.payload_tag) (with_block h) =
      msg3_block-guards c' malloc' m size (entry t)
      ∙ ap (λ r. then_run r (λ u g. then_run (verify_quote c' malloc' m g) (respond c' malloc')))
          passed
      ∙ ap (λ r. then_run r (respond c' malloc')) asked
      ∙ responds in
    let registered : not t.is_registered ≡ false =
      ap (λ (x : Sp). not x.is_registered) same ∙ ap not on in
    (
      response report attests.mac a.payload a.payload_tag,
      (with_block h).sp,
      rw (good, registered, ends) refl,
      record { status0 = same0; status1 = same1; payload = refl; payload_tag = refl },
      after ∙ at ∙ same,
    )
