-- ===== src/Ra/Provider/Binding.antt =====
-- The keys of a session over a run of requests to service_provider/service_provider.cpp.
use sgx_nfv.Prelude.{
  ℕ, ◌≡◌, refl, ap, sym, ◌∙◌, Bool, true, false, not, ◌||◌, Option, none, some, ℤ, ltb, ◌==◌,
  if◌then◌else◌, Outcome, done, fault, spinning, arith,
}
use mathlib.Core.Path.{subst}
use sgx_nfv.Ra.Crypto.{Bytes, Crypto}
use sgx_nfv.Ra.Ecp.{memcpy_s}
use sgx_nfv.Ra.Ias.{ias_enroll, AttReport}
use sgx_nfv.Ra.Provider.{
  ExtendedEpidGroup, initial, Sp, SpDb, Reply, untouched, null, message, sp_internal_error,
  sp_unsupported_extended_epid_group,
}
use sgx_nfv.Ra.Provider.After.{After, After-bind}
use sgx_nfv.Ra.Provider.Grounds.{Vouched}
use sgx_nfv.Ra.Provider.Groups.{extended_epid_groups}
use sgx_nfv.Ra.Provider.Msg0.{other_group, configure, enroll_in, sp_ra_proc_msg0_req}
use sgx_nfv.Ra.Provider.Msg1.{release, sp_ra_proc_msg1_req}
use sgx_nfv.Ra.Provider.Msg3.{
  Msg3, AttResult, authenticate, verify_report_data, expected_report_data, verify_quote, respond,
  seal, msg3_block, msg3_end, sp_ra_proc_msg3_req,
}
use sgx_nfv.Ra.Provider.Offer.{Exchanged, Derived, sp_ra_proc_msg1_req-Offers}
use sgx_nfv.Ra.Provider.Reach.{msg0, msg1, msg3, Serves}
use sgx_nfv.Ra.Provider.Run.{Frame, Flow, go, stop, crash}
use sgx_nfv.Ra.Provider.Sound.{sp_ra_proc_msg3_req-Vouched}

-- All keys of the database come from one key exchange.
pub record OneSession (c : Crypto) (db : SpDb) : Type 0 where
  pub malloc : ℕ → Bool
  pub key : Bytes
  pub ctx : ℕ
  pub dh : Bytes
  pub exchanged : Exchanged c key db ctx dh
  pub derived : Derived c malloc dh db

abbrev KeysKept : SpDb → SpDb → Type 0
KeysKept d e =
    (e.g_a ≡ d.g_a)
    × (e.g_b ≡ d.g_b)
    × (e.b ≡ d.b)
    × (e.smk_key ≡ d.smk_key)
    × (e.mk_key ≡ d.mk_key)
    × (e.sk_key ≡ d.sk_key)
    × (e.vk_key ≡ d.vk_key)

OneSession-kept : (c : Crypto) (d e : SpDb) → OneSession c d → KeysKept d e → OneSession c e
OneSession-kept c d e o k = record {
  malloc = o.malloc;
  key = o.key;
  ctx = o.ctx;
  dh = o.dh;
  exchanged = ground (arith, o.exchanged, k);
  derived = ground (arith, o.derived, k);
}

module _ (c : Crypto) (malloc : ℕ → Bool) (d : SpDb) where
  abbrev Keeps : Frame → Type 0
  Keeps f = KeysKept d f.sp.db

  authenticate-Keeps :
      (m : Msg3) (size : ℕ) (f : Frame)
      → Keeps f
      → After Keeps Keeps (authenticate c malloc m size f)
  unfolding authenticate
  authenticate-Keeps m size f h = ground arith

  verify_report_data-Keeps :
      (m : Msg3) (f : Frame) → Keeps f → After Keeps Keeps (verify_report_data c malloc m f)
  unfolding verify_report_data expected_report_data
  verify_report_data-Keeps m f h = ground arith

  verify_quote-Keeps :
      (m : Msg3) (f : Frame) → Keeps f → After Keeps Keeps (verify_quote c malloc m f)
  unfolding verify_quote
  verify_quote-Keeps m f h = ground arith

  respond-Keeps : (r : AttReport) (f : Frame) → Keeps f → After Keeps Keeps (respond c malloc r f)
  unfolding respond seal
  respond-Keeps r f h = ground arith

  msg3_block-Keeps :
      (m : Msg3) (size : ℕ) (f : Frame) → Keeps f → After Keeps Keeps (msg3_block c malloc m size f)
  unfolding msg3_block
  msg3_block-Keeps m size f h =
      After-bind Keeps Keeps Keeps Keeps _ _ (authenticate-Keeps m size f h) (λ g k. k)
        λ u g p.
          After-bind Keeps Keeps Keeps Keeps _ _ (verify_report_data-Keeps m g p) (λ g k. k)
            λ u g p.
              After-bind Keeps Keeps Keeps Keeps _ _ (verify_quote-Keeps m g p) (λ g k. k)
                λ r g p. respond-Keeps r g p

-- What a handler without a key exchange does to the keys.
abbrev KeepsKeys : {A : Type 0} → Sp → Outcome (ℤ × Reply A × Sp) → Type 0
KeepsKeys s (done (ret, reply, s')) = KeysKept s.db s'.db
KeepsKeys s fault = Unit
KeepsKeys s spinning = Unit

same_keys : (d : SpDb) → KeysKept d d
same_keys d = (refl, refl, refl, refl, refl, refl, refl)

KeepsKeys-early :
    {A : Type 0} (s : Sp) (b : Bool) (ret : ℤ) (rest : Outcome (ℤ × Reply A × Sp))
    → KeepsKeys s rest
    → KeepsKeys s (if b then done (ret, untouched, s) else rest)
KeepsKeys-early s true ret rest k = same_keys s.db
KeepsKeys-early s false ret rest k = k

release-db : (f : Bool) (s : Sp) → (release f s).db ≡ s.db
release-db true s = refl
release-db false s = refl

msg3_end-KeepsKeys :
    (s : Sp) (r : Flow AttResult)
    → After (λ g. KeysKept s.db g.sp.db) (λ g. KeysKept s.db g.sp.db) r
    → KeepsKeys s (msg3_end r)
unfolding msg3_end
msg3_end-KeepsKeys s (go m f) h = h
msg3_end-KeepsKeys s (stop ret f) h = subst (λ d. KeysKept s.db d) (sym (release-db f.full f.sp)) h
msg3_end-KeepsKeys s crash h = tt

msg3-KeepsKeys :
    (c : Crypto) (malloc : ℕ → Bool) (m : Msg3) (size : ℕ) (pp : Bool) (s : Sp)
    → KeepsKeys s (sp_ra_proc_msg3_req c malloc (some m) size pp s)
unfolding sp_ra_proc_msg3_req
msg3-KeepsKeys c malloc m size pp s =
    let f : Frame = record { sp = s; ecc_state = false; full = false } in
    let rest = msg3_end (msg3_block c malloc m size f) in
    KeepsKeys-early s (ltb size 336 || not pp) sp_internal_error _ (
      KeepsKeys-early s (not s.is_registered) sp_unsupported_extended_epid_group rest
        (msg3_end-KeepsKeys s _ (msg3_block-Keeps c malloc s.db m size f (same_keys s.db))))

msg1_null-KeepsKeys :
    (c : Crypto) (malloc : ℕ → Bool) (size : ℕ) (pp : Bool) (s : Sp)
    → KeepsKeys s (sp_ra_proc_msg1_req c malloc none size pp s)
unfolding sp_ra_proc_msg1_req
msg1_null-KeepsKeys c malloc size pp s = same_keys s.db

if-db :
    (d : SpDb) (b : Bool) (x y : ℤ × Sp) → x.1.db ≡ d → y.1.db ≡ d → (if b then x else y).1.db ≡ d
if-db d true x y h k = h
if-db d false x y h k = k

msg0-db :
    (c : Crypto) (m : Option ℕ) (size : ℕ) (s : Sp)
    → (sp_ra_proc_msg0_req (extended_epid_groups c) m size s).1.db ≡ s.db
unfolding sp_ra_proc_msg0_req configure enroll_in ias_enroll
msg0-db c none size s = refl
msg0-db c (some id) size s = if-db s.db (not (size == 4)) _ _ refl (
    if-db s.db (not s.is_registered || other_group s.group id) _ _
      (if-db s.db (0 == id) _ _ refl refl) refl)

-- A run of the requests of `Serves` from the start, with what the library gives at each: its contexts, key pairs
-- and signatures may be others every time. The attestation server's function of a group has its own
-- library, and may at any time be replaced by one with other results.
pub data Run : Sp → Type 1 where
  begins : Run initial
  served : {s s' : Sp} (c : Crypto) → Run s → Serves c s s' → Run s'
  attesting :
      {s : Sp} (group : Option ExtendedEpidGroup) (s' : Sp)
      → s' ≡ record s { group = group }
      → Run s
      → Run s'

-- The library at the last message 1 of a run, if that was answered.
abbrev pub exchanging : {s : Sp} → Run s → Option Crypto
exchanging begins = none
exchanging (served c r (msg0 m size ret s' e)) = exchanging r
exchanging (served c r (msg1 malloc none size pp ret reply s' e)) = exchanging r
exchanging (served c r (msg1 malloc (some m) size pp ret untouched s' e)) = none
exchanging (served c r (msg1 malloc (some m) size pp ret null s' e)) = none
exchanging (served c r (msg1 malloc (some m) size pp ret (message m2) s' e)) = some c
exchanging (served c r (msg3 malloc m size pp ret reply s' whole quote e)) = exchanging r
exchanging (attesting group s' e r) = exchanging r

-- While the last message 1 of a run is an answered one, the provider's keys are those of one session, whose
-- key pair the library gave at that message.
Run-OneSession : {s : Sp} (r : Run s) (c : Crypto) → exchanging r ≡ some c → OneSession c s.db
Run-OneSession begins c h = cc
Run-OneSession (served k r (msg0 m size {s} ret s' e)) c h =
    subst (λ p. OneSession c p.1.db) e
      (subst (λ d. OneSession c d) (sym (msg0-db k m size s)) (Run-OneSession r c h))
Run-OneSession (served k r (msg1 malloc none size pp {s} ret reply s' e)) c h =
    OneSession-kept c s.db s'.db (Run-OneSession r c h)
      (subst (λ o. KeepsKeys s o) e (msg1_null-KeepsKeys k malloc size pp s))
Run-OneSession (served k r (msg1 malloc (some m) size pp {s} ret untouched s' e)) c h = cc
Run-OneSession (served k r (msg1 malloc (some m) size pp {s} ret null s' e)) c h = cc
Run-OneSession (served k r (msg1 malloc (some m) size pp {s} ret (message m2) s' e)) c h =
    let o = sp_ra_proc_msg1_req-Offers k malloc m size pp s s' ret m2 e in
    let session : OneSession k s'.db = record {
      malloc = malloc;
      key = m.g_a;
      ctx = o.ctx;
      dh = o.dh;
      exchanged = o.exchanged;
      derived = o.derived;
    } in
    subst (λ x. elim x [ none ↦ Unit | some c ↦ OneSession c s'.db ]) h session
Run-OneSession (served k r (msg3 malloc m size pp {s} ret reply s' whole quote e)) c h =
    OneSession-kept c s.db s'.db (Run-OneSession r c h)
      (subst (λ o. KeepsKeys s o) e (msg3-KeepsKeys k malloc m size pp s))
Run-OneSession (attesting group s' e r) c h =
    subst (λ (x : Sp). OneSession c x.db) (sym e) (Run-OneSession r c h)

Exchanged-key :
    (c : Crypto) (key : Bytes) (d : SpDb) (ctx : ℕ) (dh : Bytes)
    → Exchanged c key d ctx dh
    → memcpy_s 64 key 64 ≡ some d.g_a
Exchanged-key c key d ctx dh h = ground arith

-- After any run of requests in which the library may give other contexts, key pairs and signatures
-- every time, and of which the last message 1 was answered, a message 3 is answered only on its grounds with
-- keys that all come from one key exchange, with the library as it was at the last message 1: the pair
-- `g_b` and `b` is the one that it gave then, and SMK, which the MAC of message 3 is made with, SK, under
-- which the secret goes out, MK and VK are derived from the one secret that this pair shares with the
-- client whose public key message 3 has.
pub sp_ra_proc_msg3_req-OneSession :
    (c c' : Crypto) (malloc : ℕ → Bool) (m : Msg3) (size : ℕ) (pp : Bool) {s : Sp} (s' : Sp)
    (ret : ℤ) (a : AttResult) (r : Run s)
    → exchanging r ≡ some c
    → sp_ra_proc_msg3_req c' malloc (some m) size pp s ≡ done (ret, message a, s')
    → (o : OneSession c s.db) × (memcpy_s 64 o.key 64 ≡ some m.g_a) × Vouched c' s m size a
sp_ra_proc_msg3_req-OneSession c c' malloc m size pp {s} s' ret a r h e =
    let v = sp_ra_proc_msg3_req-Vouched c' malloc m size pp s s' ret a e in
    let o = Run-OneSession r c h in
    let same = Exchanged-key c o.key s.db o.ctx o.dh o.exchanged in
    (o, same ∙ ap some (sym v.same_g_a), v)
