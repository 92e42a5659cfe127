-- ===== src/Ra/Provider/Msg1.antt =====
-- `sp_ra_proc_msg1_req` of service_provider/service_provider.cpp, as it is built without
-- SUPPLIED_KEY_DERIVATION.
use sgx_nfv.Prelude.{
  ℕ, ◌+◌, ◌-◌, Bool, true, false, not, ◌||◌, Option, none, some, List, [], ◌++◌, ◌==◌,
  if◌then◌else◌, ℤ, pos, negsuc, Outcome, done, fault,
}
use sgx_nfv.Ra.Crypto.{Bytes, Crypto}
use sgx_nfv.Ra.Ecp.{memcpy_s, derive_key, KeyId, key_number}
use sgx_nfv.Ra.Ias.{le16, le32s}
use sgx_nfv.Ra.Provider.{
  Sp, SpDb, Reply, untouched, null, message, sp_unsupported_extended_epid_group, sp_ias_failed,
  sp_internal_error,
}
use sgx_nfv.Ra.Provider.Groups.{sp_priv_key}
use sgx_nfv.Ra.Provider.Msg0.{is_zero}
use sgx_nfv.Ra.Provider.Run.{
  Flow, go, stop, crash, Step, ◌>>=◌, ◌>>◌, pure, gets, call, some_or, deref, check, modify,
}

-- `sample_ra_msg1_t`, of 68 bytes
pub record Msg1 : Type 0 where
  pub g_a : Bytes
  pub gid : Bytes

-- The response header and `sample_ra_msg2_t`, of 168 bytes before `sig_rl`.
pub record Msg2 : Type 0 where
  pub type : ℕ
  pub status0 : ℕ
  pub status1 : ℕ
  pub size : ℕ
  pub g_b : Bytes
  pub spid : Bytes
  pub quote_type : ℕ
  pub kdf_id : ℕ
  pub sign_gb_ga : List ℕ × List ℕ
  pub mac : Bytes
  pub sig_rl_size : ℕ
  pub sig_rl : Bytes

-- The bytes from `g_b` up to `mac`, which the MAC of message 2 covers.
abbrev pub maced_bytes : Bytes → Bytes → ℕ → ℕ → List ℕ × List ℕ → Bytes
maced_bytes g_b spid quote_type kdf_id sign =
    g_b ++ (spid ++ (le16 quote_type ++ (le16 kdf_id ++ (le32s sign.0 ++ le32s sign.1))))

abbrev pub set_db : (SpDb → SpDb) → Step (Unit {0})
set_db k = modify (λ s. record s { db = k s.db })

-- the list of a NULL pointer, of which no byte is read
abbrev bytes_of : Option Bytes → Bytes
bytes_of none = []
bytes_of (some b) = b

abbrev open_state : Step (Unit {0})
open_state f = go tt (record {
  sp = record (f.sp) { contexts = f.sp.contexts + 1 };
  ecc_state = true;
  full = f.full;
})

abbrev keep_block : Step (Unit {0})
keep_block f = go tt (record {
  sp = record (f.sp) { blocks = f.sp.blocks + 1 };
  ecc_state = f.ecc_state;
  full = true;
})

module _ (c : Crypto) (malloc : ℕ → Bool) where
  -- the size and the list of the attestation server
  unfoldable pub fetch_sigrl : Bytes → Step (ℕ × Option Bytes)
  fetch_sigrl gid = do
    group ← gets (λ s. s.group)
    g ← deref group
    let answer = g.get_sigrl gid (some (0, none))
    check (is_zero answer.0) sp_ias_failed
    deref answer.1

  -- Generate the key pair, save it, and compute the shared secret.
  unfoldable pub exchange : Bytes → Step (ℕ × Bytes)
  exchange g_a = do
    saved ← some_or (memcpy_s 64 g_a 64) sp_internal_error
    set_db (λ d. record d { g_a = saved })
    ctx ← call c.ecc256_open_context (negsuc 0)
    open_state
    pair ← call (c.ecc256_create_key_pair ctx) sp_internal_error
    priv ← some_or (memcpy_s 32 (pair.0) 32) sp_internal_error
    set_db (λ d. record d { b = priv })
    pub_key ← some_or (memcpy_s 64 (pair.1) 64) sp_internal_error
    set_db (λ d. record d { g_b = pub_key })
    dh ← call (c.ecc256_compute_shared_dhkey (pair.0) g_a ctx) sp_internal_error
    pure (ctx, dh)

  unfoldable pub derive_keys : Bytes → Step (Unit {0})
  derive_keys dh = do
    smk ← some_or (derive_key c malloc dh (key_number KeyId.smk)) sp_internal_error
    set_db (λ d. record d { smk_key = smk })
    mk ← some_or (derive_key c malloc dh (key_number KeyId.mk)) sp_internal_error
    set_db (λ d. record d { mk_key = mk })
    sk ← some_or (derive_key c malloc dh (key_number KeyId.sk)) sp_internal_error
    set_db (λ d. record d { sk_key = sk })
    vk ← some_or (derive_key c malloc dh (key_number KeyId.vk)) sp_internal_error
    set_db (λ d. record d { vk_key = vk })

  -- Allocate the response, fill it in, sign it and add its MAC. The header takes 8 bytes.
  unfoldable pub assemble : ℕ → ℕ × Option Bytes → Step Msg2
  assemble ctx rl = do
    let msg2_size = 168 + rl.0
    check (malloc (msg2_size + 8)) sp_internal_error
    keep_block
    db ← gets (λ s. s.db)
    own_spid ← gets (λ s. s.spid)
    g_b ← some_or (memcpy_s 64 db.g_b 64) sp_internal_error
    spid ← some_or (memcpy_s 16 own_spid 16) sp_internal_error
    first ← some_or (memcpy_s 64 db.g_b 64) sp_internal_error
    second ← some_or (memcpy_s 64 db.g_a 64) sp_internal_error
    sign ← call (c.ecdsa_sign sp_priv_key (first ++ second) ctx) sp_internal_error
    mac ← call (c.rijndael128_cmac_msg db.smk_key (maced_bytes g_b spid 1 1 sign)) sp_internal_error
    mac' ← some_or (memcpy_s 16 mac 16) sp_internal_error
    sig_rl ← some_or (memcpy_s (rl.0) (bytes_of rl.1) (rl.0)) sp_internal_error
    pure (record {
      type = 2;
      status0 = 0;
      status1 = 0;
      size = msg2_size;
      g_b = g_b;
      spid = spid;
      quote_type = 1;
      kdf_id = 1;
      sign_gb_ga = sign;
      mac = mac';
      sig_rl_size = rl.0;
      sig_rl = sig_rl;
    })

  unfoldable pub msg1_block : Msg1 → Step Msg2
  msg1_block m = do rl ← fetch_sigrl m.gid; x ← exchange m.g_a; derive_keys x.1; assemble x.0 rl

-- `SAFE_FREE(p_msg2_full)` after an error, and the context closed where it was opened
abbrev pub release : Bool → Sp → Sp
release true s = record s { blocks = s.blocks - 1 }
release false s = s

abbrev pub close_context : Bool → Sp → Sp
close_context true s = record s { contexts = s.contexts - 1 }
close_context false s = s

unfoldable pub msg1_end : Flow Msg2 → Outcome (ℤ × Reply Msg2 × Sp)
msg1_end (go m f) = done (pos 0, message m, close_context f.ecc_state f.sp)
msg1_end (stop ret f) = done (ret, null, close_context f.ecc_state (release f.full f.sp))
msg1_end crash = fault

-- `none` is a NULL message, `false` a NULL `pp_msg2`.
unfoldable pub sp_ra_proc_msg1_req :
    Crypto → (ℕ → Bool) → Option Msg1 → ℕ → Bool → Sp → Outcome (ℤ × Reply Msg2 × Sp)
sp_ra_proc_msg1_req c malloc none size pp s = done (negsuc 0, untouched, s)
sp_ra_proc_msg1_req c malloc (some m) size pp s =
    if not pp || not (size == 68)
    then done (negsuc 0, untouched, s)
    else if not s.is_registered
    then done (sp_unsupported_extended_epid_group, untouched, s)
    else msg1_end (msg1_block c malloc m (record { sp = s; ecc_state = false; full = false }))
