-- ===== src/Keys/Agreement.antt =====
-- The keys that `main` of NFV_Remote_Attestation_Python/sample_crypto_wrappermodule.c agrees on.
use sgx_nfv.Prelude.{
  ℕ, ◌+◌, ◌*◌, ◌≡◌, refl, ap, ◌∙◌, inl, true, Option, some, [], ◌∷◌, ◌++◌, arith, done, bit,
  replicate,
}
use mathlib.Core.List.{reverse, reverse-append}
use sgx_nfv.Keys.{Bytes, OpenSsl, Arrays, openssl_curve, get_openssl_keys}
use sgx_nfv.Keys.Export.{big_endian, big_endian-append, IsWritten, get_openssl_keys-IsExported}
use sgx_nfv.Keys.Program.{
  Public, Pair, Ecc, Stack, Printout, written, sgx_pairs, key_pairs, test_dh_keys, dh_keys, main,
}

-- The number that bytes stand for, the first byte being the lowest.
unfoldable pub little_endian : Bytes → ℕ
little_endian [] = 0
little_endian (b ∷ bs) = b + 256 * little_endian bs

abbrev pub point_of : Public → ℕ × ℕ
point_of p = (little_endian p.gx, little_endian p.gy)

-- What sample_libcrypto.h says of its keys: they are little-endian numbers. `point` is the public key of a
-- private one, `dh` the shared key of a private key and a public one.
pub record IsLittleEndian (c : Ecc) (point : ℕ → ℕ × ℕ) (dh : ℕ → ℕ × ℕ → Option Bytes)
    : Type 0 where
  pub compute :
      (priv : Bytes) (pub_key : Public)
      → c.compute_shared_dhkey priv pub_key ≡ dh (little_endian priv) (point_of pub_key)
  pub create :
      (i : ℕ) (k : Pair)
      → c.create_key_pair i ≡ some k
      → point_of k.public ≡ point (little_endian k.private)

-- What is documented of a curve: both sides of an exchange get one key.
pub record Agrees (point : ℕ → ℕ × ℕ) (dh : ℕ → ℕ × ℕ → Option Bytes) : Type 0 where
  pub agree : (a b : ℕ) → dh a (point b) ≡ dh b (point a)

-- A key of OpenSSL whose numbers have 32 bytes.
pub record Gives (o : OpenSsl) (ssl_priv x y : ℕ) : Type 0 where
  pub nid : ℕ
  pub curve : o.sn2nid openssl_curve ≡ some nid
  pub key : o.new_by_curve_name nid ≡ true
  pub parts : o.generated ≡ some (ssl_priv, some (x, y))
  pub news : o.bn_new ≡ true
  pub written_x : IsWritten o x
  pub written_y : IsWritten o y
  pub written_priv : IsWritten o ssl_priv
  pub size_x : o.num_bytes x ≡ 32
  pub size_y : o.num_bytes y ≡ 32
  pub size_priv : o.num_bytes ssl_priv ≡ 32

little_endian-reverse : (bs : Bytes) → little_endian bs ≡ big_endian 0 (reverse bs)
unfolding little_endian
little_endian-reverse [] = unfold big_endian in refl
little_endian-reverse (b ∷ bs) =
    let turned : reverse (b ∷ bs) ≡ reverse bs ++ (b ∷ []) = reverse-append (b ∷ []) bs in
    let last : big_endian (big_endian 0 (reverse bs)) (b ∷ [])
        ≡ big_endian 0 (reverse bs) * 256 + b =
      unfold big_endian in refl in
    omega (
      arith,
      little_endian-reverse bs,
      ap (big_endian 0) turned ∙ big_endian-append (reverse bs) (b ∷ []) 0 ∙ last,
    )

-- The arrays stand for the numbers of a key in big-endian order.
abbrev pub Exports : Arrays → ℕ → ℕ → ℕ → Type 0
Exports a ssl_priv x y =
    (big_endian 0 a.ga_priv ≡ ssl_priv) × (big_endian 0 a.ga_x ≡ x) × (big_endian 0 a.ga_y ≡ y)

get_openssl_keys-Exports :
    (o : OpenSsl) (ssl_priv x y : ℕ) (before : Arrays)
    → Gives o ssl_priv x y
    → (a : Arrays) × (get_openssl_keys o before ≡ done a) × Exports a ssl_priv x y
get_openssl_keys-Exports o ssl_priv x y before g =
    let (a, run, is_x, is_y, is_p) =
      get_openssl_keys-IsExported o g.nid x y ssl_priv before g.curve g.key g.parts g.news
        g.written_x g.written_y g.written_priv in
    (
      a,
      run,
      (is_p.exact.1 (inl g.size_priv), is_x.exact.1 (inl g.size_x), is_y.exact.1 (inl g.size_y)),
    )

-- The calls of the two libraries that do not fail, with the pairs that they give.
pub record Works (c sgx : Ecc) (one two : Pair) : Type 0 where
  pub opens_0 : c.open_context 0 ≡ true
  pub opens_1 : c.open_context 1 ≡ true
  pub opens_2 : c.open_context 2 ≡ true
  pub opens_sgx : sgx.open_context 0 ≡ true
  pub creates_0 : c.create_key_pair 0 ≡ some one
  pub creates_1 : c.create_key_pair 1 ≡ some two

-- What the program prints of the keys that it agrees on, `key` being the shared one of the two pairs and
-- `a` the exported arrays.
pub record AgreesOn (c : Ecc) (dh : ℕ → ℕ × ℕ → Option Bytes) (one : Pair) (key : Bytes)
    (a : Arrays) (out : Printout) : Type 0 where
  pub first_test : out.test_dh_key_1 ≡ key
  pub second_test : out.test_dh_key_2 ≡ key
  pub first_key :
      out.dh_key_1
      ≡ written (dh (big_endian 0 (reverse a.ga_priv)) (point_of one.public)) (replicate 32 0)
  pub second_key :
      out.dh_key_2
      ≡ written
          (dh
            (little_endian one.private)
            (big_endian 0 (reverse a.ga_x), big_endian 0 (reverse a.ga_y)))
          (replicate 32 0)
  pub contexts : out.contexts ≡ 1 + bit (c.open_context 3)
  pub sgx_contexts : out.sgx_contexts ≡ 1

-- Where sample_libcrypto reads its keys as little-endian numbers, as its header says, both sides of an
-- exchange get one key, no context or pair is missing, and OpenSSL gives two keys whose numbers have 32
-- bytes, the program ends and prints the shared key of the library's two pairs twice. The exchange with a
-- key of OpenSSL is another one: the arrays hold its numbers in big-endian order, and the library gets the
-- numbers of the reversed bytes for all three. One context of the SDK and one of sample_libcrypto stay
-- open, and one more if the last can be opened.
pub main-reverses :
    (c sgx : Ecc) (ssl : ℕ → OpenSsl) (s : Stack) (point : ℕ → ℕ × ℕ)
    (dh : ℕ → ℕ × ℕ → Option Bytes) (one two : Pair) (key : Bytes) (p x y p' x' y' : ℕ)
    → IsLittleEndian c point dh
    → Agrees point dh
    → Works c sgx one two
    → dh (little_endian one.private) (point (little_endian two.private)) ≡ some key
    → Gives (ssl 0) p x y
    → Gives (ssl 1) p' x' y'
    → (a : Arrays) × (out : Printout) × (main c sgx ssl s ≡ done out)
      × Exports a p x y
      × AgreesOn c dh one key a out
unfolding main key_pairs test_dh_keys sgx_pairs dh_keys
main-reverses c sgx ssl s point dh one two key p x y p' x' y' l agrees w shared g g' =
    let (a, run, is_a) = get_openssl_keys-Exports (ssl 0) p x y s.arrays_1 g in
    let (b, run', is_b) = get_openssl_keys-Exports (ssl 1) p' x' y' s.arrays_2 g' in
    let test_1 : c.compute_shared_dhkey one.private two.public ≡ some key =
      l.compute one.private two.public
      ∙ ap (dh (little_endian one.private)) (l.create 1 two w.creates_1)
      ∙ shared in
    let test_2 : c.compute_shared_dhkey two.private one.public ≡ some key =
      l.compute two.private one.public
      ∙ ap (dh (little_endian two.private)) (l.create 0 one w.creates_0)
      ∙ agrees.agree (little_endian two.private) (little_endian one.private)
      ∙ shared in
    let ga : Public = record { gx = a.ga_x; gy = a.ga_y } in
    let zeros = replicate {A = ℕ} 32 0 in
    (
      a,
      record {
        pair_1 = one;
        pair_2 = two;
        test_dh_key_1 = key;
        test_dh_key_2 = key;
        sgx_pair_1 = written (sgx.create_key_pair 0) s.sgx_pair_1;
        sgx_pair_2 = written (sgx.create_key_pair 1) s.sgx_pair_2;
        dh_key_1 = written (c.compute_shared_dhkey a.ga_priv one.public) zeros;
        dh_key_2 = written (c.compute_shared_dhkey one.private ga) zeros;
        contexts = 1 + bit (c.open_context 3);
        sgx_contexts = 1;
      },
      simp (
        w.opens_0, w.opens_1, w.opens_2, w.opens_sgx, w.creates_0, w.creates_1, test_1, test_2, run,
        run',
      ),
      is_a,
      record {
        first_test = refl;
        second_test = refl;
        first_key = rw (l.compute a.ga_priv one.public, little_endian-reverse a.ga_priv) refl;
        second_key =
            rw
              (l.compute one.private ga, little_endian-reverse a.ga_x, little_endian-reverse a.ga_y)
              refl;
        contexts = refl;
        sgx_contexts = refl;
      },
    )
