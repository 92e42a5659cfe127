-- ===== src/Keys/Export.antt =====
-- The numbers that the exported arrays stand for.
use sgx_nfv.Prelude.{
  ℕ, zero, suc, ◌+◌, ◌-◌, ◌*◌, ◌^◌, ◌≤◌, ◌≡◌, ◌↔◌, ◌⊎◌, inl, inr, refl, sym, ◌∙◌, ap, true, false,
  some, [], ◌∷◌, ◌++◌, ltb, leb, if◌then◌else◌, arith, length, drop, replicate, length-append,
  length-replicate, Bool-cases, ◌==◌, drop-replicate, done,
}
use native.Mathlib.Nat.{mul_comm, mul_assoc, pow-succ'}
use sgx_nfv.Keys.{
  Bytes, OpenSsl, Arrays, key_size, openssl_curve, write, export_number, export_key,
  get_openssl_keys, generate_dh_keys_openssl,
}

-- The number that bytes stand for, the first byte being the highest.
unfoldable pub big_endian : ℕ → Bytes → ℕ
big_endian high [] = high
big_endian high (b ∷ bs) = big_endian (high * 256 + b) bs

-- What OpenSSL says of BN_bn2bin: it writes as many bytes as BN_num_bytes says, in big-endian order.
abbrev pub IsWritten : OpenSsl → ℕ → Type 0
IsWritten o n = (length (o.bn2bin n) ≡ o.num_bytes n) × (big_endian 0 (o.bn2bin n) ≡ n)

-- An exported number: 32 bytes, which stand for the number only if it has 32 bytes itself or is zero.
pub record IsExported (o : OpenSsl) (n : ℕ) (out : Bytes) : Type 0 where
  pub size : length out ≡ 32
  pub value :
      big_endian 0 out ≡ (if leb (o.num_bytes n) 32 then n * 256 ^ (32 - o.num_bytes n) else 0)
  pub exact : (big_endian 0 out ≡ n) ↔ ((o.num_bytes n ≡ 32) ⊎ (n ≡ 0))

one_more : (n k : ℕ) → n * 256 ^ suc k ≡ n * 256 ^ k * 256
one_more n k =
    ap (λ (m : ℕ). n * m) (pow-succ' 256 k ∙ mul_comm 256 (256 ^ k))
    ∙ sym (mul_assoc n (256 ^ k) 256)

times_power-le : (n k : ℕ) → n ≤ n * 256 ^ k
times_power-le n zero = omega arith
times_power-le n (suc k) = omega (arith, one_more n k, times_power-le n k)

times_power : (n k : ℕ) → n * 256 ^ suc k ≡ n → n ≡ 0
times_power n k h = omega (arith, one_more n k, times_power-le n k)

big_endian-replicate : (k high : ℕ) → big_endian high (replicate k 0) ≡ high * 256 ^ k
unfolding big_endian
big_endian-replicate zero high = omega arith
big_endian-replicate (suc k) high =
    let step : high * 256 + 0 ≡ high * 256 = omega arith in
    big_endian-replicate k (high * 256 + 0)
    ∙ ap (λ (m : ℕ). m * 256 ^ k) step
    ∙ mul_assoc high 256 (256 ^ k)
    ∙ sym (ap (λ (m : ℕ). high * m) (pow-succ' 256 k))

pub big_endian-append :
    (bs cs : Bytes) (high : ℕ) → big_endian high (bs ++ cs) ≡ big_endian (big_endian high bs) cs
unfolding big_endian
big_endian-append [] cs high = refl
big_endian-append (b ∷ bs) cs high = big_endian-append bs cs (high * 256 + b)

-- The shift leaves a number as it is only by no byte, or the number 0.
shift : (n w : ℕ) → w ≤ 32 → (n * 256 ^ (32 - w) ≡ n) ↔ ((w ≡ 32) ⊎ (n ≡ 0))
shift n w h = (there, back)
  where
    there : n * 256 ^ (32 - w) ≡ n → (w ≡ 32) ⊎ (n ≡ 0)
    there e = elim (Bool-cases (w == 32)) [
      | inl whole ↦ inl (ground arith)
      | inr less ↦
          let k : 32 - w ≡ suc (31 - w) = ground arith in
          inr (times_power n (31 - w) (ap (λ (m : ℕ). n * 256 ^ m) (sym k) ∙ e))
    ]

    back : (w ≡ 32) ⊎ (n ≡ 0) → n * 256 ^ (32 - w) ≡ n
    back (inl e) = let k : 32 - w ≡ 0 = omega arith in ap (λ (m : ℕ). n * 256 ^ m) k ∙ omega arith
    back (inr e) = ap (λ (m : ℕ). m * 256 ^ (32 - w)) e ∙ omega arith

module _ (o : OpenSsl) where
  -- Written from the start of the array: the number, shifted up by the bytes that it lacks.
  export_number-IsExported :
      (n : ℕ) → IsWritten o n → (out : Bytes) × (export_number o n ≡ done out) × IsExported o n out
  unfolding export_number write
  export_number-IsExported n h = elim (Bool-cases (ltb key_size (o.num_bytes n))) [
    | inl long ↦
        let zeros : big_endian 0 (replicate 32 0) ≡ 0 = big_endian-replicate 32 0 in
        let test : leb (o.num_bytes n) 32 ≡ false = ground arith in
        let back : (o.num_bytes n ≡ 32) ⊎ (n ≡ 0) → big_endian 0 (replicate 32 0) ≡ n =
          ground (arith, zeros) in
        (
          replicate key_size 0,
          rw long refl,
          record { size = refl; value = rw test zeros; exact = ((λ e. inr (sym e ∙ zeros)), back) },
        )
    | inr fits ↦
        let bs = o.bn2bin n in
        let less : o.num_bytes n ≤ 32 = ground arith in
        let room : ltb 32 (length bs) ≡ false = ground (arith, h.0) in
        let test : leb (o.num_bytes n) 32 ≡ true = ground arith in
        let rest : drop (length bs) (replicate {A = ℕ} 32 0) ≡ replicate (32 - o.num_bytes n) 0 =
          drop-replicate (length bs) 32 0 ∙ ap (λ (m : ℕ). replicate {A = ℕ} (32 - m) 0) (h.0) in
        let value : big_endian 0 (bs ++ replicate (32 - o.num_bytes n) 0)
            ≡ n * 256 ^ (32 - o.num_bytes n) =
          big_endian-append bs (replicate (32 - o.num_bytes n) 0) 0
          ∙ big_endian-replicate (32 - o.num_bytes n) (big_endian 0 bs)
          ∙ ap (λ (m : ℕ). m * 256 ^ (32 - o.num_bytes n)) (h.1) in
        (
          bs ++ replicate (32 - o.num_bytes n) 0,
          rw (fits, room, rest) refl,
          record {
            size = omega (
              arith,
              length-append bs (replicate (32 - o.num_bytes n) 0),
              length-replicate {A = ℕ} (32 - o.num_bytes n) 0,
              h.0,
              less,
            );
            value = rw test value;
            exact = rw value (shift n (o.num_bytes n) (ground arith));
          },
        )
  ]

  pub get_openssl_keys-IsExported :
      (nid x y ssl_priv : ℕ) (arrays : Arrays)
      → o.sn2nid openssl_curve ≡ some nid
      → o.new_by_curve_name nid ≡ true
      → o.generated ≡ some (ssl_priv, some (x, y))
      → o.bn_new ≡ true
      → IsWritten o x
      → IsWritten o y
      → IsWritten o ssl_priv
      → (a : Arrays) × (get_openssl_keys o arrays ≡ done a)
        × IsExported o x a.ga_x
        × IsExported o y a.ga_y
        × IsExported o ssl_priv a.ga_priv
  unfolding export_key get_openssl_keys
  get_openssl_keys-IsExported nid x y ssl_priv arrays curve key parts news hx hy hp =
      let (ga_x, at_x, is_x) = export_number-IsExported x hx in
      let (ga_y, at_y, is_y) = export_number-IsExported y hy in
      let (ga_priv, at_p, is_p) = export_number-IsExported ssl_priv hp in
      let a : Arrays = record { ga_x = ga_x; ga_y = ga_y; ga_priv = ga_priv } in
      let exported : export_key o ssl_priv (some (x, y)) ≡ done a =
        rw (export_key, at_x, at_y, at_p) refl in
      (a, simp (get_openssl_keys, curve, key, parts, news, exported), is_x, is_y, is_p)

  -- Where OpenSSL knows the curve and gives a key with its coordinates, Python gets three arrays of 32
  -- bytes, none written beyond its end: each stands, in big-endian order, for its number times 256 to the
  -- number of bytes that the number lacks to 32, or for 0 if it has more than 32; so it stands for the number
  -- itself exactly where that has 32 bytes or is 0.
  pub generate_dh_keys_openssl-IsExported :
      (nid x y ssl_priv : ℕ) (uninitialized : Arrays)
      → o.sn2nid openssl_curve ≡ some nid
      → o.new_by_curve_name nid ≡ true
      → o.generated ≡ some (ssl_priv, some (x, y))
      → o.bn_new ≡ true
      → IsWritten o x
      → IsWritten o y
      → IsWritten o ssl_priv
      → (a : Arrays) × (generate_dh_keys_openssl o uninitialized
          ≡ done (a.ga_x ∷ a.ga_y ∷ a.ga_priv ∷ []))
        × IsExported o x a.ga_x
        × IsExported o y a.ga_y
        × IsExported o ssl_priv a.ga_priv
  unfolding generate_dh_keys_openssl
  generate_dh_keys_openssl-IsExported nid x y ssl_priv uninitialized curve key parts news hx hy hp =
      let (a, keys, is_x, is_y, is_p) =
        get_openssl_keys-IsExported nid x y ssl_priv uninitialized curve key parts news hx hy hp in
      (a, rw (generate_dh_keys_openssl, keys) refl, is_x, is_y, is_p)
