-- ===== src/Ra/Session/Exchange.antt =====
-- Message 1 of a session in which no call fails.
use sgx_nfv.Prelude.{
  ℕ, ◌+◌, ◌-◌, ◌≡◌, ◌∙◌, refl, Bool, true, false, some, none, [], ◌∷◌, ◌++◌, length, take, pos,
  done,
}
use sgx_nfv.Ra.Crypto.{Bytes, Crypto}
use sgx_nfv.Ra.Ecp.{memcpy_s, derive_key, label}
use sgx_nfv.Ra.Ias.{ias_get_sigrl}
use sgx_nfv.Ra.Provider.{Sp, SpDb, message}
use sgx_nfv.Ra.Provider.Groups.{ias_group, sp_priv_key}
use sgx_nfv.Ra.Provider.Msg1.{
  Msg1, Msg2, maced_bytes, fetch_sigrl, exchange, derive_keys, assemble, msg1_block, msg1_end,
  sp_ra_proc_msg1_req,
}
use sgx_nfv.Ra.Provider.Run.{Frame, go}
use sgx_nfv.Ra.Session.{if_registered, Works, session_key, smk_of, sk_of, mk_of, vk_of}

module _ {c : Crypto} (w : Works c) where
  -- The entry of the provider's database after message 1.
  abbrev pub db_of : Bytes → SpDb → SpDb
  db_of g_a d = record d {
    g_a = take 64 g_a;
    b = take 32 w.private_key;
    g_b = take 64 w.public_key;
    smk_key = smk_of w (w.dh g_a);
    mk_key = mk_of w (w.dh g_a);
    sk_key = sk_of w (w.dh g_a);
    vk_key = vk_of w (w.dh g_a);
  }

  exchange-works :
      (malloc : ℕ → Bool) (g_a : Bytes) (f : Frame)
      → exchange c malloc g_a f
        ≡ go
            (w.ctx, w.dh g_a)
            (record {
              sp = record (f.sp) {
                contexts = f.sp.contexts + 1;
                db = record (f.sp.db) {
                  g_a = take 64 g_a;
                  b = take 32 w.private_key;
                  g_b = take 64 w.public_key;
                };
              };
              ecc_state = true;
              full = f.full;
            })
  unfolding exchange memcpy_s
  exchange-works malloc g_a f = simp (w.opens, w.creates, w.shares)

  derive_key-works :
      (malloc : ℕ → Bool) (dh : Bytes) (id : ℕ) (l : Bytes)
      → label id ≡ some l
      → malloc (length l + 4) ≡ true
      → derive_key c malloc dh id ≡ some (session_key w dh l)
  unfolding derive_key
  derive_key-works malloc dh id l known room = simp (derive_key, w.macs, known, room)

  derive_keys-works :
      (malloc : ℕ → Bool) (dh : Bytes) (f : Frame)
      → ((n : ℕ) → malloc n ≡ true)
      → derive_keys c malloc dh f
        ≡ go tt (record f {
          sp = record (f.sp) {
            db = record (f.sp.db) {
              smk_key = smk_of w dh;
              mk_key = mk_of w dh;
              sk_key = sk_of w dh;
              vk_key = vk_of w dh;
            };
          };
        })
  unfolding derive_keys label
  derive_keys-works malloc dh f room =
      let smk = derive_key-works malloc dh 0 (b'S' ∷ b'M' ∷ b'K' ∷ []) refl (room 7) in
      let sk = derive_key-works malloc dh 1 (b'S' ∷ b'K' ∷ []) refl (room 6) in
      let mk = derive_key-works malloc dh 2 (b'M' ∷ b'K' ∷ []) refl (room 6) in
      let vk = derive_key-works malloc dh 3 (b'V' ∷ b'K' ∷ []) refl (room 6) in
      simp (smk, sk, mk, vk)

  -- Message 2, to the public key `g_a`.
  abbrev pub msg2_of : Bytes → Bytes → Msg2
  msg2_of g_a spid =
      let g_b = take 64 w.public_key in
      let sign = w.sign sp_priv_key (take 64 g_b ++ take 64 (take 64 g_a)) in
      record {
        type = 2;
        status0 = 0;
        status1 = 0;
        size = 168;
        g_b = take 64 g_b;
        spid = take 16 spid;
        quote_type = 1;
        kdf_id = 1;
        sign_gb_ga = sign;
        mac =
            take 16
              (w.cmac (smk_of w (w.dh g_a)) (maced_bytes (take 64 g_b) (take 16 spid) 1 1 sign));
        sig_rl_size = 0;
        sig_rl = [];
      }

  abbrev pub after_msg1 : Bytes → Sp → Sp
  after_msg1 g_a s = record s {
    db = db_of g_a s.db;
    blocks = s.blocks + 1;
    contexts = s.contexts + 1 - 1;
  }

  assemble-works :
      (malloc : ℕ → Bool) (f : Frame) (g_a : Bytes)
      → ((n : ℕ) → malloc n ≡ true)
      → f.sp.db.g_a ≡ take 64 g_a
      → f.sp.db.g_b ≡ take 64 w.public_key
      → f.sp.db.smk_key ≡ smk_of w (w.dh g_a)
      → assemble c malloc w.ctx (0, none) f
        ≡ go (msg2_of g_a f.sp.spid) (record {
          sp = record (f.sp) { blocks = f.sp.blocks + 1 };
          ecc_state = f.ecc_state;
          full = true;
        })
  unfolding assemble memcpy_s
  assemble-works malloc f g_a room ga gb smk = simp (room, ga, gb, smk, w.signs, w.macs)

  pub sp_ra_proc_msg1_req-works :
      (malloc : ℕ → Bool) (m : Msg1) (s : Sp)
      → ((n : ℕ) → malloc n ≡ true)
      → s.is_registered ≡ true
      → s.group ≡ some (ias_group c)
      → sp_ra_proc_msg1_req c malloc (some m) 68 true s
        ≡ done (pos 0, message (msg2_of m.g_a s.spid), after_msg1 m.g_a s)
  unfolding sp_ra_proc_msg1_req msg1_block msg1_end fetch_sigrl ias_get_sigrl
  sp_ra_proc_msg1_req-works malloc m s room on group =
      let f0 : Frame = record { sp = s; ecc_state = false; full = false } in
      let f1 : Frame = record {
        sp = record s {
          contexts = s.contexts + 1;
          db = record (s.db) {
            g_a = take 64 m.g_a;
            b = take 32 w.private_key;
            g_b = take 64 w.public_key;
          };
        };
        ecc_state = true;
        full = false;
      } in
      let dh = w.dh m.g_a in
      let f2 : Frame = record f1 { sp = record (f1.sp) { db = db_of m.g_a s.db } } in
      let rl : fetch_sigrl c malloc m.gid f0 ≡ go (0, none) f0 = simp group in
      let keys : exchange c malloc m.g_a f0 ≡ go (w.ctx, dh) f1 = exchange-works malloc m.g_a f0 in
      let derived : derive_keys c malloc dh f1 ≡ go tt f2 = derive_keys-works malloc dh f1 room in
      let whole = assemble-works malloc f2 m.g_a room refl refl refl in
      let f3 : Frame = record {
        sp = record (f2.sp) { blocks = f2.sp.blocks + 1 };
        ecc_state = true;
        full = true;
      } in
      let block : msg1_block c malloc m f0 ≡ go (msg2_of m.g_a s.spid) f3 =
        simp (msg1_block, rl, keys, derived, whole) in
      let end : msg1_end (msg1_block c malloc m f0)
          ≡ done (pos 0, message (msg2_of m.g_a s.spid), after_msg1 m.g_a s) =
        simp (block, msg1_end) in
      if_registered s.is_registered _ _ on ∙ end
