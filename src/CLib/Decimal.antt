-- ===== src/CLib/Decimal.antt =====
-- The decimal text of a number (%u), and that the readers of the C library read it back.
use cmds.Common.{
  ℤ, pos, negsuc, ℕ, zero, suc, ◌+◌, ◌*◌, ◌/◌, ◌%◌, ◌≤◌, ◌<◌, ◌≡◌, refl, ◌∙◌, false, [], ◌∷◌, Bytes,
  some, ◌==◌, if◌then◌else◌, arith, Bool-cases, inl, inr,
}
use cmds.CLib.{
  digit_value, is_space, read_digits, starts_digit, skip_spaces, Long, saturate, strtol_digits,
  strtol_prefix, strtol_signed, strtol,
}

-- On fuel: a number has fewer digits than itself, or one.
unfoldable pub push_digits : ℕ → ℕ → Bytes → Bytes
push_digits zero n acc = acc
push_digits (suc f) n acc =
    let more = push_digits f (n / 10) ((b'0' + n % 10) ∷ acc) in
    if n / 10 == 0 then (b'0' + n % 10) ∷ acc else more

unfoldable pub decimal : ℕ → Bytes
unfolding push_digits
decimal n = push_digits (suc n) n []

-- %d
unfoldable pub signed_decimal : ℤ → Bytes
signed_decimal (pos n) = decimal n
signed_decimal (negsuc n) = b'-' ∷ decimal (n + 1)

read_digit :
    (a d : ℕ) (s : Bytes)
    → d < 10
    → read_digits 10 a ((b'0' + d) ∷ s) ≡ read_digits 10 (a * 10 + d) s
unfolding read_digits digit_value
read_digit a d s h = ground arith

read_digits-push_digits :
    (f n : ℕ) (acc : Bytes) → n < f → read_digits 10 0 (push_digits f n acc) ≡ read_digits 10 n acc
unfolding push_digits
read_digits-push_digits zero n acc h = absurd (omega arith)
read_digits-push_digits (suc f) n acc h = elim (Bool-cases (n / 10 == 0)) [
  | inl e ↦ ground (arith, read_digit 0 (n % 10) acc)
  | inr e ↦ ground (
    arith,
    read_digits-push_digits f (n / 10) ((b'0' + n % 10) ∷ acc),
    read_digit (n / 10) (n % 10) acc,
  )
]

-- The first digit is 0 for zero alone.
push_digits-first :
    (f n : ℕ) (acc : Bytes)
    → 0 < n
    → n < f
    → (c : ℕ) × (s : Bytes) × (push_digits f n acc ≡ c ∷ s) × (b'1' ≤ c) × (c ≤ b'9')
unfolding push_digits
push_digits-first zero n acc h k = absurd (omega arith)
push_digits-first (suc f) n acc h k = elim (Bool-cases (n / 10 == 0)) [
  | inl e ↦ (b'0' + n % 10, acc, rw e, ground arith, ground arith)
  | inr e ↦
      let (c, s, q, lo, hi) =
        push_digits-first f (n / 10) ((b'0' + n % 10) ∷ acc) (ground arith) (ground arith) in
      (c, s, rw e q, lo, hi)
]

pub read_digits-decimal : (n : ℕ) → read_digits 10 0 (decimal n) ≡ (n, [])
unfolding decimal read_digits
read_digits-decimal n = read_digits-push_digits (suc n) n [] (omega arith)

abbrev pub plain : ℕ → Long
plain n = record { is_negative = false; size = saturate false n; rest = [] }

strtol_digits-read :
    (c n : ℕ) (s : Bytes)
    → b'0' ≤ c
    → c ≤ b'9'
    → read_digits 10 0 (c ∷ s) ≡ (n, [])
    → strtol_digits 10 false (c ∷ s) ≡ some (plain n)
unfolding strtol_digits starts_digit digit_value
strtol_digits-read c n s lo hi e = rw e (ground arith)

-- What begins with a digit other than 0 is read in base 10 in both bases.
pub strtol-first :
    (c : ℕ) (s : Bytes)
    → b'1' ≤ c
    → c ≤ b'9'
    → (strtol 0 (c ∷ s) ≡ strtol_digits 10 false (c ∷ s))
      × (strtol 10 (c ∷ s) ≡ strtol_digits 10 false (c ∷ s))
unfolding strtol skip_spaces is_space strtol_signed strtol_prefix
strtol-first c [] lo hi = ground arith
strtol-first c (d ∷ s) lo hi = ground arith

decimal_zero : (strtol 0 (decimal 0) ≡ some (plain 0)) × (strtol 10 (decimal 0) ≡ some (plain 0))
unfolding strtol skip_spaces is_space strtol_signed strtol_prefix strtol_digits starts_digit
    digit_value read_digits decimal saturate
decimal_zero = (refl, refl)

pub decimal-first :
    (n : ℕ) → 0 < n → (c : ℕ) × (s : Bytes) × (decimal n ≡ c ∷ s) × (b'1' ≤ c) × (c ≤ b'9')
decimal-first n h = unfold decimal in push_digits-first (suc n) n [] h (omega arith)

-- The decimal text of a number reads back as that number, up to saturation, and as a whole.
pub strtol-decimal :
    (n : ℕ) → (strtol 0 (decimal n) ≡ some (plain n)) × (strtol 10 (decimal n) ≡ some (plain n))
strtol-decimal zero = decimal_zero
strtol-decimal (suc m) =
    let (c, s, e, lo, hi) = decimal-first (suc m) (omega arith) in
    let r : read_digits 10 0 (c ∷ s) ≡ (suc m, []) = rw (← e) (read_digits-decimal (suc m)) in
    let (f0, f10) = strtol-first c s lo hi in
    let d = strtol_digits-read c (suc m) s (omega arith) hi r in rw e (f0 ∙ d, f10 ∙ d)
