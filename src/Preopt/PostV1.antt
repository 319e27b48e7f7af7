-- ===== src/Preopt/PostV1.antt =====
-- What ReadArgumentsPostV1 of installd/otapreopt_parameters.cpp makes of a command line.
use Prim.Native.Nat.{min}
use cmds.Common.{
  ℕ, zero, suc, ◌+◌, ◌≤◌, ◌<◌, ◌≡◌, ◌≢◌, refl, ◌∙◌, true, false, List, ◌∷◌, Bytes, codes, bytes_eq,
  bytes_eq_iff, none, some, length, arith, ◌⊎◌, inl, inr, ap, length-take, Bool-cases, ==_refl,
}
use cmds.CLib.{
  strtol, skip_spaces, is_space, strtol_signed, strtol_prefix, strtol_digits, starts_digit,
  digit_value, read_digits, u32_mod,
}
use cmds.CLib.Decimal.{decimal, strtol-decimal}
use native.Mathlib.Decide.{dec_lt}
use cmds.Preopt.{Parameters, parse_uint, set_defaults, validate_target_slot_suffix}
use cmds.Preopt.Arguments.{
  num_args_expected, set_parameter, read_loop, check_libraries, read_expected, read_after_dexopt,
  read_arguments_post_v1, read_version, read_slot, read_arguments,
}
use cmds.Preopt.Request.{Request, words, sent, meaning, answer}
use cmds.Preopt.Number.{parse_uint_small, parse_uint_large}

dexopt_no_number : strtol 0 (codes "dexopt") ≡ none
unfolding strtol skip_spaces is_space strtol_signed strtol_prefix strtol_digits starts_digit
    digit_value read_digits
dexopt_no_number = refl

read_loop-sent :
    (version : ℕ) (p : Parameters) (r : Request)
    → 2 ≤ version
    → version ≤ 10
    → read_loop version (set_defaults p) 0 (sent version r)
      ≡ (meaning version r p.target_slot, true)
unfolding read_loop set_parameter set_defaults
read_loop-sent zero p r lo hi = absurd (omega arith)
read_loop-sent (suc zero) p r lo hi = absurd (omega arith)
read_loop-sent (suc (suc zero)) p r lo hi = refl
read_loop-sent (suc (suc (suc zero))) p r lo hi = refl
read_loop-sent (suc (suc (suc (suc zero)))) p r lo hi = refl
read_loop-sent (suc (suc (suc (suc (suc zero))))) p r lo hi = refl
read_loop-sent (suc (suc (suc (suc (suc (suc zero)))))) p r lo hi = refl
read_loop-sent (suc (suc (suc (suc (suc (suc (suc zero))))))) p r lo hi = refl
read_loop-sent (suc (suc (suc (suc (suc (suc (suc (suc zero)))))))) p r lo hi = refl
read_loop-sent (suc (suc (suc (suc (suc (suc (suc (suc (suc zero))))))))) p r lo hi = refl
read_loop-sent (suc (suc (suc (suc (suc (suc (suc (suc (suc (suc zero)))))))))) p r lo hi = refl
read_loop-sent (suc (suc (suc (suc (suc (suc (suc (suc (suc (suc (suc v))))))))))) p r lo hi =
    absurd (omega arith)

num_args_lem :
    (version : ℕ)
    → 2 ≤ version
    → version ≤ 10
    → num_args_expected version ≡ some (min (version + 9) 16)
unfolding num_args_expected
num_args_lem version lo hi = ground arith

length-sent : (version : ℕ) (r : Request) → length (sent version r) ≡ min (version + 9) 16
length-sent version r = omega (arith, length-take (min (version + 9) 16) (words r))

read_expected-sent :
    (version : ℕ) (p : Parameters) (r : Request)
    → 2 ≤ version
    → version ≤ 10
    → read_expected version (min (version + 9) 16) p (sent version r)
      ≡ answer version r p.target_slot
unfolding read_expected check_libraries
read_expected-sent version p r lo hi =
    rw (length-sent version r, ==_refl (min (version + 9) 16), read_loop-sent version p r lo hi)

parse_version : (version : ℕ) → version ≤ 10 → parse_uint (decimal version) ≡ some version
parse_version version hi = parse_uint_small version (omega arith)

-- No number is the word "dexopt".
decimal-ne-dexopt : (n : ℕ) → bytes_eq (decimal n) (codes "dexopt") ≡ false
decimal-ne-dexopt n = elim (Bool-cases (bytes_eq (decimal n) (codes "dexopt"))) [
  | inr e ↦ e
  | inl e ↦ cc (
    (strtol-decimal n).0,
    dexopt_no_number,
    ap (strtol 0) ((bytes_eq_iff (decimal n) (codes "dexopt")).0 e),
  )
]

read_version-decimal :
    (p : Parameters) (argv : List Bytes) (version : ℕ)
    → version ≤ 10
    → read_version p argv (decimal version) ≡ read_arguments_post_v1 p version argv true
unfolding read_version
read_version-decimal p argv version hi =
    rw (decimal-ne-dexopt version, parse_version version hi, read_version)

post_v1-versioned :
    (p : Parameters) (a b c : Bytes) (params : List Bytes) (version : ℕ)
    → 2 ≤ version
    → version ≤ 10
    → read_arguments_post_v1 p version (a ∷ b ∷ c ∷ codes "dexopt" ∷ params) true
      ≡ read_expected version (min (version + 9) 16) p params
unfolding read_arguments_post_v1 read_after_dexopt bytes_eq
post_v1-versioned p a b c params version lo hi =
    rw (num_args_lem version lo hi, read_arguments_post_v1)

pub read_slot-valid :
    (p : Parameters) (a b c : Bytes) (rest : List Bytes)
    → validate_target_slot_suffix p.target_slot ≡ true
    → read_slot p (a ∷ b ∷ c ∷ rest) ≡ read_version p (a ∷ b ∷ c ∷ rest) c
unfolding read_slot
read_slot-valid p a b c rest ok = rw (ok, read_slot)

-- With a valid slot, a request in any version from 2 to 10, whose version is named, gives the parameters that it
-- means, and is accepted unless its shared libraries are "&" and its version is below 10.
pub read_arguments-sent :
    (p : Parameters) (program slot : Bytes) (version : ℕ) (r : Request)
    → validate_target_slot_suffix slot ≡ true
    → 2 ≤ version
    → version ≤ 10
    → read_arguments p (program ∷ slot ∷ decimal version ∷ codes "dexopt" ∷ sent version r)
      ≡ answer version r slot
unfolding read_arguments
read_arguments-sent p program slot version r ok lo hi =
    read_slot-valid (record p { target_slot = slot }) program slot _ _ ok
    ∙ read_version-decimal _ _ version hi
    ∙ post_v1-versioned _ program slot (decimal version) (sent version r) version lo hi
    ∙ read_expected-sent version (record p { target_slot = slot }) r lo hi

-- With a version from 2 to 10 and a valid slot, and with another count of words after "dexopt" than
-- that of the version, the call is refused, and of the object only the slot is written.
read_arguments-miscounted :
    (p : Parameters) (program slot : Bytes) (version : ℕ) (params : List Bytes)
    → validate_target_slot_suffix slot ≡ true
    → 2 ≤ version
    → version ≤ 10
    → length params ≢ min (version + 9) 16
    → read_arguments p (program ∷ slot ∷ decimal version ∷ codes "dexopt" ∷ params)
      ≡ (record p { target_slot = slot }, false)
unfolding read_arguments read_expected
read_arguments-miscounted p program slot version params ok lo hi ne =
    read_slot-valid (record p { target_slot = slot }) program slot _ _ ok
    ∙ read_version-decimal _ _ version hi
    ∙ post_v1-versioned _ program slot (decimal version) params version lo hi
    ∙ ground arith

-- With a valid slot, the eleven words of version 2 are read the same way when the version is not
-- named.
read_arguments-unnamed_v2 :
    (p : Parameters) (program slot : Bytes) (r : Request)
    → validate_target_slot_suffix slot ≡ true
    → read_arguments p (program ∷ slot ∷ codes "dexopt" ∷ sent 2 r) ≡ answer 2 r slot
unfolding read_arguments read_version read_arguments_post_v1 read_after_dexopt num_args_expected
    bytes_eq
read_arguments-unnamed_v2 p program slot r ok =
    read_slot-valid (record p { target_slot = slot }) program slot (codes "dexopt") (sent 2 r) ok
    ∙ read_expected-sent 2 (record p { target_slot = slot }) r (omega arith) (omega arith)

refused_number : (version : ℕ) → (version < 2) ⊎ (10 < version) → num_args_expected version ≡ none
unfolding num_args_expected
refused_number version bad = ground arith

refused :
    (p : Parameters) (argv : List Bytes) (version : ℕ)
    → (version < 2) ⊎ (10 < version)
    → read_version p argv (decimal version) ≡ (p, false)
unfolding read_arguments_post_v1 read_version
refused p argv version bad = elim (dec_lt version u32_mod) [
  | yes fits ↦
      rw (read_version, decimal-ne-dexopt version, parse_uint_small version fits)
        (rw (read_arguments_post_v1, refused_number version bad))
  | no big ↦ rw (decimal-ne-dexopt version, parse_uint_large version (omega arith), read_version)
]

-- With a valid slot, a number that is no version from 2 to 10 is refused, and of the object only the slot is written.
read_arguments-unknown_version :
    (p : Parameters) (program slot : Bytes) (version : ℕ) (rest : List Bytes)
    → validate_target_slot_suffix slot ≡ true
    → (version < 2) ⊎ (10 < version)
    → read_arguments p (program ∷ slot ∷ decimal version ∷ rest)
      ≡ (record p { target_slot = slot }, false)
unfolding read_arguments
read_arguments-unknown_version p program slot version rest ok bad =
    read_slot-valid (record p { target_slot = slot }) program slot (decimal version) rest ok
    ∙ refused (record p { target_slot = slot }) (program ∷ slot ∷ decimal version ∷ rest) version
        bad
