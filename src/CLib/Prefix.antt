-- ===== src/CLib/Prefix.antt =====
-- What the number readers of the C library make of a decimal text where more follows it.
use cmds.Common.{
  ℕ, ◌+◌, ◌*◌, ◌<◌, ◌≤◌, ◌≡◌, refl, ap, ◌∙◌, false, [], ◌∷◌, ◌++◌, Bytes, some, ltb, arith,
}
use cmds.CLib.{
  digit_value, is_space, read_digits, starts_digit, skip_spaces, saturate, strtol_digits, strtol,
}
use cmds.CLib.Decimal.{decimal, read_digits-decimal, decimal-first, strtol-first}

-- The character is no digit.
abbrev pub IsEnd : ℕ → Type 0
IsEnd d = ltb (digit_value d) 10 ≡ false

-- A reading that ends with the text ends also where something follows that is no digit.
pub read_digits-append :
    (acc n : ℕ) (s : Bytes) (d : ℕ) (t : Bytes)
    → IsEnd d
    → read_digits 10 acc s ≡ (n, [])
    → read_digits 10 acc (s ++ d ∷ t) ≡ (n, d ∷ t)
unfolding read_digits
read_digits-append acc n [] d t end h = ground arith
read_digits-append acc n (c ∷ s) d t end h =
    ground (arith, read_digits-append (acc * 10 + digit_value c) n s d t end)

strtol_digits-prefix :
    (c n : ℕ) (s rest : Bytes)
    → b'0' ≤ c
    → c ≤ b'9'
    → read_digits 10 0 (c ∷ s) ≡ (n, rest)
    → strtol_digits 10 false (c ∷ s)
      ≡ some (record { is_negative = false; size = saturate false n; rest = rest })
unfolding strtol_digits starts_digit digit_value
strtol_digits-prefix c n s rest lo hi e = rw e (ground arith)

-- strtol reads a positive number from the front of a text, and leaves the rest of the text.
pub strtol-prefix :
    (n d : ℕ) (t : Bytes)
    → 0 < n
    → IsEnd d
    → strtol 10 (decimal n ++ d ∷ t)
      ≡ some (record { is_negative = false; size = saturate false n; rest = d ∷ t })
strtol-prefix n d t h end =
    let (c, s, e, lo, hi) = decimal-first n h in
    let r : read_digits 10 0 (c ∷ (s ++ d ∷ t)) ≡ (n, d ∷ t) =
      rw (← ap (λ x. x ++ d ∷ t) e)
        (read_digits-append 0 n (decimal n) d t end (read_digits-decimal n)) in
    rw e (
      (strtol-first c (s ++ d ∷ t) lo hi).1
      ∙ strtol_digits-prefix c n (s ++ d ∷ t) (d ∷ t) (omega arith) hi r)

pub strtol-space : (s : Bytes) → strtol 10 (b' ' ∷ s) ≡ strtol 10 s
unfolding strtol skip_spaces is_space
strtol-space s = refl
