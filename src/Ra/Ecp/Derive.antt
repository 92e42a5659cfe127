-- ===== src/Ra/Ecp/Derive.antt =====
-- The texts from which service_provider/ecp.cpp derives the four keys of a session.
use sgx_nfv.Prelude.{ℕ, ◌≡◌, refl, ◌∙◌, ap, sym, false, ◌&&◌, Option, some, ◌==◌, arith, get_or}
use mathlib.Core.Logic.{◌≢◌}
use sgx_nfv.Ra.Crypto.{Bytes}
use sgx_nfv.Ra.Ecp.{KeyId, smk, sk, mk, vk, key_number, label, derivation_buffer}

-- The bytes of a text that tell the keys apart: the first two letters of the label.
abbrev first_letter : Bytes → ℕ
first_letter l = get_or l 1 0

abbrev second_letter : Bytes → ℕ
second_letter l = get_or l 2 0

some_parts : {a b : Bytes} → Option.some a ≡ some b → a ≡ b
some_parts h = cc

texts_differ :
    (x y x' y' : Bytes)
    → x' ≡ x
    → y' ≡ y
    → (first_letter (derivation_buffer x') == first_letter (derivation_buffer y'))
        && (second_letter (derivation_buffer x') == second_letter (derivation_buffer y'))
      ≡ false
    → derivation_buffer x ≢ derivation_buffer y
texts_differ x y x' y' hx hy differ e =
    let a = ap first_letter (ap derivation_buffer hx ∙ e ∙ sym (ap derivation_buffer hy)) in
    let b = ap second_letter (ap derivation_buffer hx ∙ e ∙ sym (ap derivation_buffer hy)) in
    ground (arith, a, b, differ)

-- Two keys of a session are derived from different texts.
label-derivation_buffer :
    (a b : KeyId) (x y : Bytes)
    → label (key_number a) ≡ some x
    → label (key_number b) ≡ some y
    → derivation_buffer x ≡ derivation_buffer y
    → a ≡ b
unfolding label
label-derivation_buffer smk smk x y h k e = refl
label-derivation_buffer sk sk x y h k e = refl
label-derivation_buffer mk mk x y h k e = refl
label-derivation_buffer vk vk x y h k e = refl
label-derivation_buffer smk sk x y h k e =
    absurd (texts_differ x y _ _ (some_parts h) (some_parts k) refl e)
label-derivation_buffer smk mk x y h k e =
    absurd (texts_differ x y _ _ (some_parts h) (some_parts k) refl e)
label-derivation_buffer smk vk x y h k e =
    absurd (texts_differ x y _ _ (some_parts h) (some_parts k) refl e)
label-derivation_buffer sk smk x y h k e =
    absurd (texts_differ x y _ _ (some_parts h) (some_parts k) refl e)
label-derivation_buffer sk mk x y h k e =
    absurd (texts_differ x y _ _ (some_parts h) (some_parts k) refl e)
label-derivation_buffer sk vk x y h k e =
    absurd (texts_differ x y _ _ (some_parts h) (some_parts k) refl e)
label-derivation_buffer mk smk x y h k e =
    absurd (texts_differ x y _ _ (some_parts h) (some_parts k) refl e)
label-derivation_buffer mk sk x y h k e =
    absurd (texts_differ x y _ _ (some_parts h) (some_parts k) refl e)
label-derivation_buffer mk vk x y h k e =
    absurd (texts_differ x y _ _ (some_parts h) (some_parts k) refl e)
label-derivation_buffer vk smk x y h k e =
    absurd (texts_differ x y _ _ (some_parts h) (some_parts k) refl e)
label-derivation_buffer vk sk x y h k e =
    absurd (texts_differ x y _ _ (some_parts h) (some_parts k) refl e)
label-derivation_buffer vk mk x y h k e =
    absurd (texts_differ x y _ _ (some_parts h) (some_parts k) refl e)
