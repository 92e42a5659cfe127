-- ===== src/Witness/Agreement.antt =====
-- A run of the key agreement with a small library.
use sgx_nfv.Prelude.{
  ℕ, ◌+◌, ◌*◌, ◌^◌, ◌≡◌, refl, ap, true, Option, none, some, [], ◌∷◌, replicate, arith, done,
}
use native.Mathlib.Nat.{mul_comm}
use mathlib.Core.Path.{subst}
use sgx_nfv.Keys.{Bytes, OpenSsl, Arrays}
use sgx_nfv.Keys.Export.{big_endian}
use sgx_nfv.Keys.Program.{Pair, Ecc, Stack, Printout, main}
use sgx_nfv.Keys.Agreement.{
  little_endian, point_of, IsLittleEndian, Agrees, Gives, Works, AgreesOn, Exports, main-reverses,
}

-- 32 bytes of a small number, the lowest first.
abbrev low : ℕ → Bytes
low n = n ∷ replicate 31 0

abbrev pair : ℕ → Pair
pair n = record { public = record { gx = low n; gy = low 0 }; private = low n }

abbrev point : ℕ → ℕ × ℕ
point n = (n, 0)

abbrev dh : ℕ → ℕ × ℕ → Option Bytes
dh a p = some (a * p.0 ∷ [])

-- Multiplication in place of a curve.
abbrev library : Ecc
library = record {
  open_context = λ i. true;
  create_key_pair = λ i. some (pair (i + 2));
  compute_shared_dhkey = λ priv pub_key. dh (little_endian priv) (point_of pub_key);
}

abbrev high : ℕ
high = 256 ^ 31

-- A key whose numbers are all 256 ^ 31.
abbrev ssl : OpenSsl
ssl = record {
  sn2nid = λ name. some 415;
  new_by_curve_name = λ nid. true;
  generated = some (high, some (high, high));
  bn_new = true;
  num_bytes = λ n. 32;
  bn2bin = λ n. 1 ∷ replicate 31 0;
}

abbrev unset : Arrays
unset = record { ga_x = low 0; ga_y = low 0; ga_priv = low 0 }

abbrev stack : Stack
stack = record {
  pair_1 = pair 0;
  pair_2 = pair 0;
  test_dh_key_1 = [];
  test_dh_key_2 = [];
  sgx_pair_1 = pair 0;
  sgx_pair_2 = pair 0;
  arrays_1 = unset;
  arrays_2 = unset;
}

little_endian-low : (n : ℕ) → little_endian (low n) ≡ n
unfolding little_endian
little_endian-low n = omega arith

abbrev Matches : Option Pair → Type 0
Matches none = Unit
Matches (some k) = point_of k.public ≡ point (little_endian k.private)

pair-Matches : (n : ℕ) → Matches (some (pair n))
pair-Matches n =
    let zero_high = little_endian-low 0 in ap (λ (y : ℕ). (little_endian (low n), y)) zero_high

library-IsLittleEndian : IsLittleEndian library point dh
library-IsLittleEndian = record {
  compute = λ priv pub_key. refl;
  create = λ i k e. subst Matches e (pair-Matches (i + 2));
}

exchange-Agrees : Agrees point dh
exchange-Agrees = record { agree = λ a b. ap (λ (n : ℕ). some (n ∷ [])) (mul_comm a b) }

value-high : big_endian 0 (1 ∷ replicate 31 0) ≡ high
unfolding big_endian
value-high = refl

ssl-Gives : Gives ssl high high high
ssl-Gives = record {
  nid = 415;
  curve = refl;
  key = refl;
  parts = refl;
  news = refl;
  written_x = (refl, value-high);
  written_y = (refl, value-high);
  written_priv = (refl, value-high);
  size_x = refl;
  size_y = refl;
  size_priv = refl;
}

works : Works library library (pair 2) (pair 3)
works = record {
  opens_0 = refl;
  opens_1 = refl;
  opens_2 = refl;
  opens_sgx = refl;
  creates_0 = refl;
  creates_1 = refl;
}

six : dh (little_endian (pair 2).private) (point (little_endian (pair 3).private)) ≡ some (6 ∷ [])
unfolding little_endian
six = refl

main-reverses_example :
    (a : Arrays) × (out : Printout) × (main library library (λ i. ssl) stack ≡ done out)
    × Exports a high high high
    × AgreesOn library dh (pair 2) (6 ∷ []) a out
main-reverses_example =
    main-reverses library library (λ i. ssl) stack point dh (pair 2) (pair 3) (6 ∷ []) high high
      high high high high library-IsLittleEndian exchange-Agrees works six ssl-Gives ssl-Gives
