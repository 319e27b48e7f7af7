-- ===== src/Preopt/Number.antt =====
-- The version number of otapreopt's command line: ParseUInt of installd/otapreopt_parameters.cpp.
use cmds.Common.{ℕ, ◌≡◌, some, Bytes, ◌<◌, ◌≤◌, none, arith, ltb, ◌∙◌, if◌then◌else◌}
use cmds.CLib.{saturate, u32_mod}
use cmds.CLib.Decimal.{decimal, strtol-decimal}
use cmds.Preopt.{parse_uint}

-- Every 32-bit number is read back from its decimal text, and no larger number is accepted.
parse_uint-decimal : (n : ℕ) → parse_uint (decimal n) ≡ (if ltb n u32_mod then some n else none)
unfolding parse_uint saturate
parse_uint-decimal n = rw ((strtol-decimal n).0, parse_uint) (ground arith)

pub parse_uint_small : (n : ℕ) → n < u32_mod → parse_uint (decimal n) ≡ some n
parse_uint_small n h = parse_uint-decimal n ∙ ground arith

pub parse_uint_large : (n : ℕ) → u32_mod ≤ n → parse_uint (decimal n) ≡ none
parse_uint_large n h = parse_uint-decimal n ∙ ground arith

-- What is accepted fits 32 bits.
pub parse_uint-lt : (arg : Bytes) {n : ℕ} → parse_uint arg ≡ some n → n < u32_mod
unfolding parse_uint
parse_uint-lt arg h = ground arith
