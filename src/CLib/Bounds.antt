-- ===== src/CLib/Bounds.antt =====
-- The ranges of what the readers of the C library give.
use cmds.Common.{ℕ, ◌<◌, ◌≡◌, Bool, Bytes, arith, Option-cases, inl, inr}
use cmds.CLib.{saturate, low_word, strtol, atoi, u32_mod}
use cmds.CLib.Decimal.{decimal, strtol-decimal}

low_word-lt : (b : Bool) (n : ℕ) → low_word b n < u32_mod
unfolding low_word
low_word-lt b n = ground arith

pub atoi-lt : (s : Bytes) → atoi s < u32_mod
unfolding atoi
atoi-lt s = elim (Option-cases (strtol 10 s)) [
  | inl e ↦ rw (e, atoi) (omega arith)
  | inr (v, e) ↦ rw (e, atoi) (low_word-lt v.is_negative v.size)
]

-- atoi reads back the decimal text of an int that is not negative.
pub atoi-decimal : (n : ℕ) → n < u32_mod → atoi (decimal n) ≡ n
unfolding atoi low_word saturate
atoi-decimal n h = rw ((strtol-decimal n).1, atoi) (omega arith)
