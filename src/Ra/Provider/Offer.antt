-- ===== src/Ra/Provider/Offer.antt =====
-- What an answer to message 1 rests on: the key exchange of service_provider/service_provider.cpp and the
-- message 2 that it makes.
use sgx_nfv.Prelude.{
  ℕ, ◌≡◌, ap, sym, ◌∙◌, Bool, false, not, ◌||◌, Option, none, some, ◌++◌, ◌==◌, ℤ, negsuc, done,
  arith,
}
use mathlib.Core.Path.{subst}
use sgx_nfv.Ra.Crypto.{Bytes, Crypto, Status, success, failed}
use sgx_nfv.Ra.Ecp.{memcpy_s, derive_key, smk, mk, sk, vk, key_number}
use sgx_nfv.Ra.Provider.{Sp, SpDb, message, sp_unsupported_extended_epid_group}
use sgx_nfv.Ra.Provider.Groups.{sp_priv_key}
use sgx_nfv.Ra.Provider.Interleaved.{msg1_end-message}
use sgx_nfv.Ra.Provider.Msg1.{
  Msg1, Msg2, maced_bytes, fetch_sigrl, exchange, derive_keys, assemble, msg1_block,
  sp_ra_proc_msg1_req,
}
use sgx_nfv.Ra.Provider.Run.{Frame, go, >>=-eq-go}
use sgx_nfv.Ra.Provider.Sound.{early-message}

-- The call succeeds, and its output satisfies `V`.
abbrev pub Yields : {A : Type 0} → (A → Type 0) → Status A → Type 0
Yields V (success a) = V a
Yields V (failed n) = ⊥

abbrev pub Present : {A : Type 0} → (A → Type 0) → Option A → Type 0
Present V (some a) = V a
Present V none = ⊥

-- A key exchange with the client's key, in the context `ctx` and with the shared secret `dh`: what it
-- leaves in the database.
abbrev pub Exchanged : Crypto → Bytes → SpDb → ℕ → Bytes → Type 0
Exchanged c key db ctx dh =
    (c.ecc256_open_context ≡ success ctx)
    × Yields
        (λ p.
          (c.ecc256_compute_shared_dhkey p.0 key ctx ≡ success dh)
          × (memcpy_s 64 key 64 ≡ some db.g_a)
          × (memcpy_s 64 p.1 64 ≡ some db.g_b)
          × (memcpy_s 32 p.0 32 ≡ some db.b))
        (c.ecc256_create_key_pair ctx)

-- The keys of the session are derived from the shared secret.
abbrev pub Derived : Crypto → (ℕ → Bool) → Bytes → SpDb → Type 0
Derived c malloc dh db =
    (derive_key c malloc dh (key_number smk) ≡ some db.smk_key)
    × (derive_key c malloc dh (key_number mk) ≡ some db.mk_key)
    × (derive_key c malloc dh (key_number sk) ≡ some db.sk_key)
    × (derive_key c malloc dh (key_number vk) ≡ some db.vk_key)

-- The keys that the exchange has left are not touched.
abbrev SameKeys : SpDb → SpDb → Type 0
SameKeys d e = (e.g_a ≡ d.g_a) × (e.g_b ≡ d.g_b) × (e.b ≡ d.b)

Exchanged-same :
    (c : Crypto) (key : Bytes) (ctx : ℕ) (dh : Bytes) (d e : SpDb)
    → Exchanged c key d ctx dh
    → SameKeys d e
    → Exchanged c key e ctx dh
Exchanged-same c key ctx dh d e h same = ground arith

-- Message 2 names the provider's key and SPID, signs both public keys, and goes out under a MAC with SMK.
pub record IsOffer (c : Crypto) (spid : Bytes) (db : SpDb) (ctx : ℕ) (m2 : Msg2) : Type 0 where
  pub g_b : memcpy_s 64 db.g_b 64 ≡ some m2.g_b
  pub spid_of : memcpy_s 16 spid 16 ≡ some m2.spid
  pub signed :
      Present
        (λ g_a. c.ecdsa_sign sp_priv_key (m2.g_b ++ g_a) ctx ≡ success m2.sign_gb_ga)
        (memcpy_s 64 db.g_a 64)
  pub maced :
      Yields
        (λ mac. memcpy_s 16 mac 16 ≡ some m2.mac)
        (c.rijndael128_cmac_msg db.smk_key (maced_bytes m2.g_b m2.spid 1 1 m2.sign_gb_ga))

-- A key exchange, the keys derived from it, and the message 2 made with them.
pub record Offers (c : Crypto) (malloc : ℕ → Bool) (key spid : Bytes) (db : SpDb) (m2 : Msg2)
    : Type 0 where
  pub ctx : ℕ
  pub dh : Bytes
  pub exchanged : Exchanged c key db ctx dh
  pub derived : Derived c malloc dh db
  pub offer : IsOffer c spid db ctx m2

module _ (c : Crypto) (malloc : ℕ → Bool) where
  exchange-Exchanged :
      (g_a : Bytes) (f g : Frame) (ctx : ℕ) (dh : Bytes)
      → exchange c malloc g_a f ≡ go (ctx, dh) g
      → Exchanged c g_a g.sp.db ctx dh × (g.sp.spid ≡ f.sp.spid)
  unfolding exchange
  exchange-Exchanged g_a f g ctx dh h = ground arith

  derive_keys-Derived :
      (dh : Bytes) (f g : Frame) (u : Unit {0})
      → derive_keys c malloc dh f ≡ go u g
      → Derived c malloc dh g.sp.db × SameKeys f.sp.db g.sp.db × (g.sp.spid ≡ f.sp.spid)
  unfolding derive_keys
  derive_keys-Derived dh f g u h = ground arith

  assemble-IsOffer :
      (ctx : ℕ) (rl : ℕ × Option Bytes) (f g : Frame) (m : Msg2)
      → assemble c malloc ctx rl f ≡ go m g
      → IsOffer c f.sp.spid f.sp.db ctx m × (g.sp.db ≡ f.sp.db) × (g.sp.spid ≡ f.sp.spid)
  unfolding assemble
  assemble-IsOffer ctx rl f g m h = ground arith

  fetch_sigrl-go :
      (gid : Bytes) (f g : Frame) (rl : ℕ × Option Bytes)
      → fetch_sigrl c malloc gid f ≡ go rl g
      → g ≡ f
  unfolding fetch_sigrl
  fetch_sigrl-go gid f g rl h = ground arith

  msg1_block-Offers :
      (m : Msg1) (f g : Frame) (m2 : Msg2)
      → msg1_block c malloc m f ≡ go m2 g
      → Offers c malloc m.g_a f.sp.spid g.sp.db m2
  unfolding msg1_block
  msg1_block-Offers m f g m2 h =
      let (rl, f1, e1, k1) = >>=-eq-go (fetch_sigrl c malloc m.gid f) _ h in
      let ((ctx, dh), f2, e2, k2) = >>=-eq-go (exchange c malloc m.g_a f1) _ k1 in
      let (u, f3, e3, k3) = >>=-eq-go (derive_keys c malloc dh f2) _ k2 in
      let same = fetch_sigrl-go m.gid f f1 rl e1 in
      let (exchanged, spid2) = exchange-Exchanged m.g_a f1 f2 ctx dh e2 in
      let (derived, keys, spid3) = derive_keys-Derived dh f2 f3 u e3 in
      let (offer, db, spid4) = assemble-IsOffer ctx rl f3 g m2 k3 in
      let spid : f3.sp.spid ≡ f.sp.spid = spid3 ∙ spid2 ∙ ap (λ (f : Frame). f.sp.spid) same in
      let offers : Offers c malloc m.g_a f.sp.spid f3.sp.db m2 = record {
        ctx = ctx;
        dh = dh;
        exchanged = Exchanged-same c m.g_a ctx dh f2.sp.db f3.sp.db exchanged keys;
        derived = derived;
        offer = subst (λ i. IsOffer c i f3.sp.db ctx m2) spid offer;
      } in
      subst (λ d. Offers c malloc m.g_a f.sp.spid d m2) (sym db) offers

  -- An answer to message 1, whatever calls may fail, rests on a key exchange with the key of the client: the
  -- provider has opened a context and made a key pair, and keeps both public keys and its private key;
  -- the four keys of the session are derived from the secret shared with the client; and message 2 has the
  -- provider's key and SPID, the signature of both public keys under the provider's long-term key, and a
  -- MAC with SMK over all that.
  pub sp_ra_proc_msg1_req-Offers :
      (m : Msg1) (size : ℕ) (pp : Bool) (s s' : Sp) (ret : ℤ) (m2 : Msg2)
      → sp_ra_proc_msg1_req c malloc (some m) size pp s ≡ done (ret, message m2, s')
      → Offers c malloc m.g_a s.spid s'.db m2
  unfolding sp_ra_proc_msg1_req
  sp_ra_proc_msg1_req-Offers m size pp s s' ret m2 h =
      let (good, h1) = early-message (not pp || not (size == 68)) (negsuc 0) _ s s' ret m2 h in
      let (on, h2) =
        early-message (not s.is_registered) sp_unsupported_extended_epid_group _ s s' ret m2 h1 in
      let (g, e, same) = msg1_end-message _ ret m2 s' h2 in
      let offers =
        msg1_block-Offers m (record { sp = s; ecc_state = false; full = false }) g m2 e in
      subst (λ d. Offers c malloc m.g_a s.spid d m2) (sym same) offers
