-- ===== src/CLib.antt =====
-- The number readers of the C library, as the sources call them: strtol and strtoll (both over 64
-- bits), atoi. A text is the list of its bytes before the terminating NUL. A 32-bit value is the
-- number that has its bits.
pub mod Decimal
pub mod Prefix
pub mod Bounds
use Prim.Native.Nat.{min}
use cmds.Common.{
  ℕ, zero, suc, ◌+◌, ◌-◌, ◌*◌, ◌%◌, ◌^◌, Bool, true, false, ◌&&◌, ◌||◌, List, [], ◌∷◌, Bytes,
  Option, none, some, ◌==◌, ltb, leb, if◌then◌else◌,
}

abbrev pub u32_mod : ℕ
u32_mod = 2 ^ 32

abbrev pub long_max : ℕ
long_max = 2 ^ 63 - 1

-- isspace in the C locale.
unfoldable pub is_space : ℕ → Bool
is_space c = c == 32 || (leb 9 c && leb c 13)

-- The value of a digit in any base up to 36; 36 for what is no digit.
unfoldable pub digit_value : ℕ → ℕ
digit_value c =
    if leb b'0' c && leb c b'9'
    then c - b'0'
    else if leb b'a' c && leb c b'z'
    then c - b'a' + 10
    else if leb b'A' c && leb c b'Z'
    then c - b'A' + 10
    else 36

unfoldable pub skip_spaces : Bytes → Bytes
skip_spaces [] = []
skip_spaces (c ∷ s) = let rest = skip_spaces s in if is_space c then rest else c ∷ s

-- The longest run of digits, on top of `acc`, and what follows it.
unfoldable pub read_digits : ℕ → ℕ → Bytes → ℕ × Bytes
read_digits base acc [] = (acc, [])
read_digits base acc (c ∷ s) =
    let rest = read_digits base (acc * base + digit_value c) s in
    if ltb (digit_value c) base then rest else (acc, c ∷ s)

-- What strtol gives: the sign and the size of the number, saturated at the limits of a 64-bit long,
-- and the text from `endptr` on; `none` when there is no number, where `endptr` is the start.
pub record Long : Type 0 where
  pub is_negative : Bool
  pub size : ℕ
  pub rest : Bytes

unfoldable pub saturate : Bool → ℕ → ℕ
saturate is_negative n = min n (if is_negative then long_max + 1 else long_max)

unfoldable pub starts_digit : ℕ → Bytes → Bool
starts_digit base [] = false
starts_digit base (c ∷ s) = ltb (digit_value c) base

unfoldable pub strtol_digits : ℕ → Bool → Bytes → Option Long
strtol_digits base is_negative s =
    let (n, rest) = read_digits base 0 s in
    if starts_digit base s
    then some (record { is_negative = is_negative; size = saturate is_negative n; rest = rest })
    else none

-- Base 0 takes the base from the prefix: 0x, 0, or none.
unfoldable pub strtol_prefix : ℕ → Bool → Bytes → Option Long
strtol_prefix zero is_negative (z ∷ x ∷ s) =
    if z == b'0' && (x == b'x' || x == b'X') && starts_digit 16 s
    then strtol_digits 16 is_negative s
    else strtol_digits (if z == b'0' then 8 else 10) is_negative (z ∷ x ∷ s)
strtol_prefix zero is_negative s = strtol_digits 10 is_negative s
strtol_prefix (suc b) is_negative s = strtol_digits (suc b) is_negative s

unfoldable pub strtol_signed : ℕ → Bytes → Option Long
strtol_signed base [] = none
strtol_signed base (c ∷ s) =
    if c == b'-'
    then strtol_prefix base true s
    else if c == b'+'
    then strtol_prefix base false s
    else strtol_prefix base false (c ∷ s)

unfoldable pub strtol : ℕ → Bytes → Option Long
strtol base s = strtol_signed base (skip_spaces s)

-- The low 32 bits of a long.
unfoldable pub low_word : Bool → ℕ → ℕ
low_word is_negative size =
    if is_negative then (u32_mod - size % u32_mod) % u32_mod else size % u32_mod

-- atoi(s): strtol(s, NULL, 10), converted to int.
unfoldable pub atoi : Bytes → ℕ
atoi s = elim (strtol 10 s) [ none ↦ 0 | some v ↦ low_word v.is_negative v.size ]
