-- ===== src/Preopt/Accepted.antt =====
-- What an accepted command line of otapreopt is known to hold (installd/otapreopt_parameters.cpp).
use cmds.Common.{
  ℕ, ◌≤◌, ◌≡◌, ◌≢◌, refl, ◌∙◌, Bool, true, false, List, [], ◌∷◌, Bytes, some, arith, ◌⊎◌, inl, inr,
  Option-cases, All,
}
use cmds.Preopt.{
  Parameters, is_slot_char, all_slot_chars, validate_target_slot_suffix, set_defaults,
}
use cmds.Preopt.Arguments.{
  set_v1_parameter, read_v1_loop, read_arguments_v1, set_parameter, read_loop, check_libraries,
  read_expected, read_after_dexopt, read_arguments_post_v1, read_version, read_slot, read_arguments,
}

-- No reader writes the slot again.
set_v1-slot :
    (p : Parameters) (i : ℕ) (a : Bytes) {q : Parameters}
    → set_v1_parameter p i a ≡ some q
    → q.target_slot ≡ p.target_slot
unfolding set_v1_parameter
set_v1-slot p i a h = ground arith

set-slot :
    (v : ℕ) (p : Parameters) (i : ℕ) (a : Bytes) {q : Parameters}
    → set_parameter v p i a ≡ some q
    → q.target_slot ≡ p.target_slot
unfolding set_parameter
set-slot v p i a h = ground arith

read_v1_loop-slot :
    (p : Parameters) (i : ℕ) (ps : List Bytes) → (read_v1_loop p i ps).0.target_slot ≡ p.target_slot
unfolding read_v1_loop
read_v1_loop-slot p i [] = refl
read_v1_loop-slot p i (a ∷ ps) = elim (Option-cases (set_v1_parameter p i a)) [
  | inl e ↦ rw (e, read_v1_loop)
  | inr (q, e) ↦ rw (e, read_v1_loop) (read_v1_loop-slot q _ ps ∙ set_v1-slot p i a e)
]

read_loop-slot :
    (v : ℕ) (p : Parameters) (i : ℕ) (ps : List Bytes)
    → (read_loop v p i ps).0.target_slot ≡ p.target_slot
unfolding read_loop
read_loop-slot v p i [] = refl
read_loop-slot v p i (a ∷ ps) = elim (Option-cases (set_parameter v p i a)) [
  | inl e ↦ rw (e, read_loop)
  | inr (q, e) ↦ rw (e, read_loop) (read_loop-slot v q _ ps ∙ set-slot v p i a e)
]

check_libraries-slot :
    (v : ℕ) (r : Parameters × Bool) → (check_libraries v r).0.target_slot ≡ r.0.target_slot
unfolding check_libraries
check_libraries-slot v (p, true) = refl
check_libraries-slot v (p, false) = refl

read_expected-slot :
    (v n : ℕ) (p : Parameters) (ps : List Bytes)
    → (read_expected v n p ps).0.target_slot ≡ p.target_slot
unfolding read_expected set_defaults
read_expected-slot v n p ps = ground (
  arith,
  check_libraries-slot v (read_loop v (set_defaults p) 0 ps),
  read_loop-slot v (set_defaults p) 0 ps,
)

post_v1-slot :
    (p : Parameters) (v : ℕ) (argv : List Bytes) (b : Bool)
    → (read_arguments_post_v1 p v argv b).0.target_slot ≡ p.target_slot
unfolding read_arguments_post_v1 read_after_dexopt
post_v1-slot p v argv b = grind (arith, read_expected-slot)

v1-slot :
    (p : Parameters) (argv : List Bytes) → (read_arguments_v1 p argv).0.target_slot ≡ p.target_slot
unfolding read_arguments_v1 set_defaults
v1-slot p argv = grind (arith, read_v1_loop-slot)

read_version-slot :
    (p : Parameters) (argv : List Bytes) (a : Bytes)
    → (read_version p argv a).0.target_slot ≡ p.target_slot
unfolding read_version
read_version-slot p argv a = grind (arith, post_v1-slot, v1-slot)

-- A letter, a digit or an underscore.
abbrev pub IsSlotChar : ℕ → Type 0
IsSlotChar c =
    ((b'a' ≤ c) × (c ≤ b'z')) ⊎ ((b'A' ≤ c) × (c ≤ b'Z')) ⊎ ((b'0' ≤ c) × (c ≤ b'9')) ⊎ (c ≡ b'_')

abbrev pub IsSlot : Bytes → Type 0
IsSlot s = (s ≢ []) × All IsSlotChar s

IsSlotChar-test : (c : ℕ) → is_slot_char c ≡ true → IsSlotChar c
unfolding is_slot_char
IsSlotChar-test c h = ground arith

IsSlotChar-All : (s : Bytes) → all_slot_chars s ≡ true → All IsSlotChar s
unfolding all_slot_chars
IsSlotChar-All [] h = tt
IsSlotChar-All (c ∷ s) h = (IsSlotChar-test c (ground arith), IsSlotChar-All s (ground arith))

IsSlot-valid : (s : Bytes) → validate_target_slot_suffix s ≡ true → IsSlot s
unfolding validate_target_slot_suffix
IsSlot-valid [] h = cc
IsSlot-valid (c ∷ s) h = (λ e. cc, IsSlotChar-All (c ∷ s) h)

read_slot-slot :
    (p : Parameters) (argv : List Bytes) → (read_slot p argv).0.target_slot ≡ p.target_slot
unfolding read_slot
read_slot-slot p argv = grind (arith, read_version-slot)

read_slot-checks :
    (p : Parameters) (argv : List Bytes)
    → (read_slot p argv).1 ≡ true
    → validate_target_slot_suffix p.target_slot ≡ true
unfolding read_slot
read_slot-checks p argv h = ground arith

accepted :
    (p : Parameters) (slot : Bytes) (argv : List Bytes)
    → (read_slot (record p { target_slot = slot }) argv).1 ≡ true
    → IsSlot (read_slot (record p { target_slot = slot }) argv).0.target_slot
accepted p slot argv h =
    rw (read_slot-slot (record p { target_slot = slot }) argv)
      (IsSlot-valid slot (read_slot-checks (record p { target_slot = slot }) argv h))

-- An accepted call has a slot suffix of letters, digits and underscores, at least one, so that it
-- cannot lead out of the directory whose name it ends.
read_arguments-IsSlot :
    (p : Parameters) (argv : List Bytes)
    → (read_arguments p argv).1 ≡ true
    → IsSlot (read_arguments p argv).0.target_slot
unfolding read_arguments
read_arguments-IsSlot p [] h = cc
read_arguments-IsSlot p (a ∷ []) h = cc
read_arguments-IsSlot p (a ∷ slot ∷ argv) h = accepted p slot (a ∷ slot ∷ argv) h
