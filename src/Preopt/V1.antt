-- ===== src/Preopt/V1.antt =====
-- ReadArgumentsV1 of installd/otapreopt_parameters.cpp, and the call that does not name its version.
use cmds.Common.{
  ℕ, ◌+◌, ◌*◌, ◌≤◌, ◌<◌, ◌^◌, ◌≡◌, ◌≢◌, refl, ◌∙◌, Bool, true, List, [], ◌∷◌, Bytes, codes,
  bytes_eq, none, some, if◌then◌else◌, bit_or, arith, ◌==◌, inl, inr, ap, length, Option-cases,
}
use cmds.Common.Bits.{bit_and-pow}
use cmds.CLib.{atoi}
use cmds.Preopt.{Parameters, replace_mask, set_defaults, validate_target_slot_suffix}
use cmds.Preopt.Arguments.{
  v1_flags, set_v1_parameter, read_v1_loop, read_arguments_v1, read_version, read_arguments,
}
use cmds.Preopt.PostV1.{read_slot-valid}
use cmds.Preopt.Request.{bit, moved_flags, V1Request, v1_words, v1_meaning}

-- Whether an old flag is set.
replace_mask-pow :
    (n k mask : ℕ) → 0 < 2 ^ k → replace_mask n (2 ^ k) mask ≡ (if bit n k == 0 then 0 else mask)
unfolding replace_mask
replace_mask-pow n k mask h = grind (arith, bit_and-pow k n)

-- Disjoint bits add up.
bit_or-flags :
    (a b c d : Bool)
    → bit_or (2 ^ 11) (
        bit_or (if a then 0 else 2) (
          bit_or
            (if b then 0 else 4)
            (bit_or (if c then 0 else 8) (bit_or (if d then 0 else 16) 0))))
      ≡ 2 ^ 11
        + (if a then 0 else 2)
        + (if b then 0 else 4)
        + (if c then 0 else 8)
        + (if d then 0 else 16)
bit_or-flags true true true true = refl
bit_or-flags a b c d = ground arith

scaled : (n k m : ℕ) → (if bit n k == 0 then 0 else m) ≡ m * bit n k
scaled n k m = grind arith

dropped : (n mask : ℕ) → replace_mask n mask 0 ≡ 0
unfolding replace_mask
dropped n mask = ground arith

pub v1_flags-moved : (n : ℕ) → bit_or (2 ^ 11) (v1_flags n) ≡ moved_flags n
unfolding v1_flags
v1_flags-moved n =
    rw
      (
        replace_mask-pow n 1 2 (omega arith),
        replace_mask-pow n 3 4 (omega arith),
        replace_mask-pow n 4 8 (omega arith),
        replace_mask-pow n 5 16 (omega arith),
        dropped n (2 ^ 6),
      )
      (bit_or-flags (bit n 1 == 0) (bit n 3 == 0) (bit n 4 == 0) (bit n 5 == 0)
        ∙ omega (arith, scaled n 1 2, scaled n 3 4, scaled n 4 8, scaled n 5 16))

read_v1_loop-words :
    (p : Parameters) (r : V1Request)
    → read_v1_loop (set_defaults p) 0 (v1_words r) ≡ (v1_meaning r p.target_slot, true)
unfolding read_v1_loop set_v1_parameter set_defaults
read_v1_loop-words p r =
    ap
      (λ (n : ℕ).
        let q : Parameters × Bool =
          (record (v1_meaning r p.target_slot) { dexopt_flags = n }, true) in
        q)
      (v1_flags-moved (atoi r.dexopt_flags))

unnamed_version :
    (p : Parameters) (program slot : Bytes) (params : List Bytes)
    → validate_target_slot_suffix slot ≡ true
    → length params ≢ 11
    → read_arguments p (program ∷ slot ∷ codes "dexopt" ∷ params)
      ≡ read_v1_loop (set_defaults (record p { target_slot = slot })) 0 params
unfolding read_arguments read_version read_arguments_v1 bytes_eq
unnamed_version p program slot params ok ne =
    read_slot-valid (record p { target_slot = slot }) program slot (codes "dexopt") params ok
    ∙ ground arith

-- With a valid slot, a request of version 1 gives the parameters that it means, its flags moved bit by bit, and is
-- accepted.
pub read_arguments-v1 :
    (p : Parameters) (program slot : Bytes) (r : V1Request)
    → validate_target_slot_suffix slot ≡ true
    → read_arguments p (program ∷ slot ∷ codes "dexopt" ∷ v1_words r) ≡ (v1_meaning r slot, true)
read_arguments-v1 p program slot r ok =
    unnamed_version p program slot (v1_words r) ok (omega arith)
    ∙ read_v1_loop-words (record p { target_slot = slot }) r

set_v1-full : (p : Parameters) (i : ℕ) (a : Bytes) → set_v1_parameter p i a ≡ none → 10 ≤ i
unfolding set_v1_parameter
set_v1-full p i a h = ground arith

set_v1-room :
    (p : Parameters) (i : ℕ) (a : Bytes) {q : Parameters} → set_v1_parameter p i a ≡ some q → i < 10
unfolding set_v1_parameter
set_v1-room p i a h = ground arith

read_v1_loop-counts :
    (p : Parameters) (i : ℕ) (params : List Bytes)
    → (read_v1_loop p i params).1 ≡ (i + length params == 10)
unfolding read_v1_loop
read_v1_loop-counts p i [] = ground arith
read_v1_loop-counts p i (a ∷ params) = elim (Option-cases (set_v1_parameter p i a)) [
  | inl e ↦ rw (e, read_v1_loop) (ground (arith, set_v1-full p i a e))
  | inr (q, e) ↦
      rw (e, read_v1_loop)
        (ground (arith, set_v1-room p i a e, read_v1_loop-counts q (i + 1) params))
]

-- With a valid slot, without a version number, and not with the eleven words of version 2, ten words are accepted and
-- no other count is.
read_arguments-v1_counts :
    (p : Parameters) (program slot : Bytes) (params : List Bytes)
    → validate_target_slot_suffix slot ≡ true
    → length params ≢ 11
    → (read_arguments p (program ∷ slot ∷ codes "dexopt" ∷ params)).1 ≡ (length params == 10)
read_arguments-v1_counts p program slot params ok ne =
    ap (λ (r : Parameters × Bool). r.1) (unnamed_version p program slot params ok ne)
    ∙ read_v1_loop-counts (set_defaults (record p { target_slot = slot })) 0 params
    ∙ ground arith
