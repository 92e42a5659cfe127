-- ===== src/Nfv/Text.antt =====
-- The C library's text functions as the servers and clients use them: strncmp, strtol with base 0 and
-- sprintf with %i, on lists of bytes.
pub mod Numbers
pub use sgx_nfv.Prelude.{Bytes}
use sgx_nfv.Prelude.{
  ℕ, zero, suc, ◌+◌, ◌-◌, ◌*◌, ◌/◌, ◌%◌, Bool, true, false, ◌&&◌, ◌||◌, Option, none, some, List,
  [], ◌∷◌, ◌++◌, ltb, leb, ◌==◌, if◌then◌else◌, ℤ, pos, negsuc,
}

-- `isspace`
abbrev pub is_space : ℕ → Bool
is_space c = c == 0x20 || (leb 9 c && leb c 13)

-- The value of a digit, 36 for any other character.
abbrev pub digit : ℕ → ℕ
digit c =
    if leb b'0' c && leb c b'9'
    then c - b'0'
    else if leb b'a' c && leb c b'z'
    then c - b'a' + 10
    else if leb b'A' c && leb c b'Z'
    then c - b'A' + 10
    else 36

-- The digits of a number in `base`, from the value `acc` on, with the count of digits read.
unfoldable pub scan : ℕ → ℕ → ℕ → Bytes → ℕ × ℕ
scan base acc k [] = (acc, k)
scan base acc k (c ∷ cs) =
    let rest = scan base (acc * base + digit c) (k + 1) cs in
    if ltb (digit c) base then rest else (acc, k)

-- Base 0: "0x" and a hexadecimal digit, "0", or any other digit. With no digit nothing is read.
unfoldable pub scan_prefixed : Bytes → ℕ × ℕ
scan_prefixed (zeroth ∷ x ∷ h ∷ cs) =
    if zeroth == b'0' && (x == b'x' || x == b'X') && ltb (digit h) 16
    then (let (v, k) = scan 16 0 0 (h ∷ cs) in (v, k + 2))
    else if zeroth == b'0'
    then scan 8 0 0 (zeroth ∷ x ∷ h ∷ cs)
    else scan 10 0 0 (zeroth ∷ x ∷ h ∷ cs)
scan_prefixed (zeroth ∷ cs) =
    if zeroth == b'0' then scan 8 0 0 (zeroth ∷ cs) else scan 10 0 0 (zeroth ∷ cs)
scan_prefixed [] = (0, 0)

-- A `long` holds values from -2 ^ 63 to 2 ^ 63 - 1; beyond them the result is the nearest.
abbrev pub long_pos : ℕ → ℤ
long_pos v = if leb v 0x7fff_ffff_ffff_ffff then pos v else pos 0x7fff_ffff_ffff_ffff

abbrev pub long_neg : ℕ → ℤ
long_neg v =
    if v == 0
    then pos 0
    else if leb v 0x8000_0000_0000_0000
    then negsuc (v - 1)
    else negsuc 0x7fff_ffff_ffff_ffff

-- The number of characters read counts from the start; it is 0 where there is no digit.
abbrev finish : (ℕ → ℤ) → ℕ → ℕ × ℕ → ℤ × ℕ
finish sign before (v, k) = if k == 0 then (pos 0, 0) else (sign v, before + k)

abbrev signed : ℕ → Bytes → ℤ × ℕ
signed before [] = (pos 0, 0)
signed before (c ∷ cs) =
    if c == b'-'
    then finish long_neg (before + 1) (scan_prefixed cs)
    else if c == b'+'
    then finish long_pos (before + 1) (scan_prefixed cs)
    else finish long_pos before (scan_prefixed (c ∷ cs))

unfoldable pub skip_spaces : ℕ → Bytes → ℤ × ℕ
skip_spaces before [] = (pos 0, 0)
skip_spaces before (c ∷ cs) =
    let rest = skip_spaces (before + 1) cs in if is_space c then rest else signed before (c ∷ cs)

-- `strtol(s, &end, 0)`: the value, and how far `end` is behind `s`
unfoldable pub strtol : Bytes → ℤ × ℕ
unfolding skip_spaces
strtol s = skip_spaces 0 s

-- The decimal digits of a number below 10 ^ fuel.
unfoldable pub decimal : ℕ → ℕ → Bytes
decimal zero n = []
decimal (suc f) n =
    let more = decimal f (n / 10) ++ ((b'0' + n % 10) ∷ []) in
    if ltb n 10 then (b'0' + n) ∷ [] else more

-- `%i` for an `int`: ten digits are enough
unfoldable pub format_int : ℤ → Bytes
format_int (pos n) = decimal 10 n
format_int (negsuc n) = b'-' ∷ decimal 10 (suc n)

-- The `int` with the low 32 bits of a number.
abbrev pub to_int : ℤ → ℤ
to_int (pos n) =
    let w = n % 0x1_0000_0000 in if ltb w 0x8000_0000 then pos w else negsuc (0xffff_ffff - w)
to_int (negsuc n) =
    let w = n % 0x1_0000_0000 in if ltb w 0x8000_0000 then negsuc w else pos (0xffff_ffff - w)

-- The `unsigned int` with the low 32 bits of a number.
abbrev pub to_uint : ℤ → ℕ
to_uint (pos n) = n % 0x1_0000_0000
to_uint (negsuc n) = 0xffff_ffff - n % 0x1_0000_0000
