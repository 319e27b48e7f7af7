-- ===== src/Dexopt/Inside.antt =====
-- Where the compiled file of an app is, by the paths of installd/dexopt.cpp.
use cmds.Common.{
  Lacks, ℕ, ◌<◌, ◌≡◌, refl, sym, ap, subst, ◌∙◌, Bool, true, false, [], ◌∷◌, ◌++◌, Bytes, codes,
  bytes_eq, starts_with, Option, none, some, ◌==◌, leb, if◌then◌else◌, length, ◌⊎◌, inl, inr,
  Bool-cases, Option-cases, arith,
}
use cmds.Paths.Validate.{contains, pkg_path_max}
use cmds.Paths.Components.{target, walk_one}
use cmds.Dexopt.Resolved.{target-odex}
use cmds.Dexopt.{
  rfind, is_absolute_path, is_valid_instruction_set, fitting, split_apk_path, odex_in,
  calculate_oat_file_path,
}

-- The last occurrence of a character, if there is one.
abbrev Cut : ℕ → Bytes → Type 0
Cut c s =
    ((rfind (c ∷ []) s ≡ none) × Lacks c s)
    ⊎ ((before : Bytes) × (rest : Bytes) × (rfind (c ∷ []) s ≡ some (before, rest))
        × (s ≡ before ++ c ∷ rest)
        × Lacks c rest)

rfind-Cut : (c : ℕ) (s : Bytes) → Cut c s
unfolding rfind starts_with bytes_eq
rfind-Cut c [] = inl (refl, tt)
rfind-Cut c (x ∷ s) = elim (rfind-Cut c s) [
  | inr (before, rest, e, parts, lacks) ↦ inr (x ∷ before, rest, rw e refl, ap (◌∷◌ x) parts, lacks)
  | inl (e, lacks) ↦ elim (Bool-cases (x == c)) [
    | inl hit ↦ inr ([], s, rw (e, hit) refl, ap (λ (d : ℕ). d ∷ s) (ground (arith, hit)), lacks)
    | inr miss ↦ inl (rw (e, miss) refl, (miss, lacks))
  ]
]

rfind-Lacks :
    (c : ℕ) (s before rest : Bytes) → rfind (c ∷ []) s ≡ some (before, rest) → Lacks c rest
rfind-Lacks c s before rest e = elim (rfind-Cut c s) [
  | inl (f, lacks) ↦ cc
  | inr (before2, rest2, f, parts, lacks) ↦
      let same : rest2 ≡ rest = cc in subst (Lacks c) same lacks
]

contains-Lacks : (s : Bytes) → contains (codes "/") s ≡ false → Lacks b'/' s
unfolding contains starts_with
contains-Lacks [] h = tt
contains-Lacks (c ∷ s) h = (ground (arith, h), contains-Lacks s (ground (arith, h)))

valid-Lacks : (isa : Bytes) → is_valid_instruction_set isa ≡ true → Lacks b'/' isa
unfolding is_valid_instruction_set
valid-Lacks isa h = contains-Lacks isa (ground (arith, h))

-- The compiled file is named for the app, and is right where the instruction set leads from the directory.
abbrev pub IsIn : Bytes → Bytes → Bytes → Type 0
IsIn oat_dir isa p =
    (name : Bytes) × (p ≡ oat_dir ++ (codes "/" ++ (isa ++ (codes "/" ++ (name ++ codes ".odex")))))
    × Lacks b'/' name
    × Lacks b'/' isa
    × (length p < pkg_path_max)
    × (target p ≡ (name ++ codes ".odex") ∷ walk_one isa (target oat_dir))

odex_in-IsIn :
    (oat_dir isa : Bytes) (dir name p : Bytes)
    → Lacks b'/' name
    → Lacks b'/' isa
    → odex_in oat_dir isa (some (dir, name)) ≡ some p
    → IsIn oat_dir isa p
unfolding odex_in
odex_in-IsIn oat_dir isa dir name p h k e =
    let res : Bytes = oat_dir ++ (codes "/" ++ (isa ++ (codes "/" ++ (name ++ codes ".odex")))) in
    fitted res refl e (Bool-cases (leb pkg_path_max (length res)))
  where
    fitted :
        (res : Bytes)
        → res ≡ oat_dir ++ (codes "/" ++ (isa ++ (codes "/" ++ (name ++ codes ".odex"))))
        → fitting res ≡ some p
        → (leb pkg_path_max (length res) ≡ true) ⊎ (leb pkg_path_max (length res) ≡ false)
        → IsIn oat_dir isa p
    fitted res q f (inl long) = cc (f, ap (λ (b : Bool). if b then none else some res) long)
    fitted res q f (inr fits) =
        let same : res ≡ p = cc (f, ap (λ (b : Bool). if b then none else some res) fits) in
        (
          name,
          sym same ∙ q,
          h,
          k,
          subst (λ (t : Bytes). length t < pkg_path_max) same (ground (arith, fits)),
          ap (λ (t : Bytes). target t) (sym same ∙ q) ∙ target-odex oat_dir isa name k h,
        )

split_apk_path-Lacks :
    (apk dir name : Bytes) → split_apk_path apk ≡ some (dir, name) → Lacks b'/' name
unfolding split_apk_path
split_apk_path-Lacks apk dir name e = elim (Option-cases (rfind (codes ".") apk)) [
  | inl f ↦ cc
  | inr ((stem, extension), f) ↦
      let step : split_apk_path apk ≡ rfind (codes "/") stem = rw (f, split_apk_path) refl in
      rfind-Lacks b'/' stem dir name (sym step ∙ e)
]

odex_path :
    (oat_dir apk isa p : Bytes) (parts : Option (Bytes × Bytes))
    → split_apk_path apk ≡ parts
    → Lacks b'/' isa
    → odex_in oat_dir isa parts ≡ some p
    → IsIn oat_dir isa p
unfolding odex_in
odex_path oat_dir apk isa p none q k e = cc
odex_path oat_dir apk isa p (some (dir, name)) q k e =
    odex_in-IsIn oat_dir isa dir name p (split_apk_path-Lacks apk dir name q) k e

-- A path that calculate_oat_file_path makes fits its buffer, and is oat_dir, the instruction set and a name
-- that ends in .odex, with no slash in either of the two. Resolved component by component, symbolic
-- links aside, it leads to the file of that name in the directory to which the instruction set leads
-- from oat_dir by one step. The instruction set is not checked for `..`, with which that directory is
-- the parent of oat_dir; empty or `.` it is oat_dir itself, and else the one of its name in oat_dir.
pub calculate_oat_file_path-IsIn :
    (oat_dir apk isa p : Bytes)
    → calculate_oat_file_path oat_dir apk isa ≡ some p
    → IsIn oat_dir isa p
unfolding calculate_oat_file_path
calculate_oat_file_path-IsIn oat_dir apk isa p e = elim (Bool-cases (is_absolute_path oat_dir)) [
  | inr f ↦ let step : calculate_oat_file_path oat_dir apk isa ≡ none = rw f refl in cc
  | inl f ↦ elim (Bool-cases (is_absolute_path apk)) [
    | inr g ↦ let step : calculate_oat_file_path oat_dir apk isa ≡ none = rw (f, g) refl in cc
    | inl g ↦ elim (Bool-cases (is_valid_instruction_set isa)) [
      | inr v ↦ let step : calculate_oat_file_path oat_dir apk isa ≡ none = rw (f, g, v) refl in cc
      | inl v ↦
          let step : calculate_oat_file_path oat_dir apk isa
              ≡ odex_in oat_dir isa (split_apk_path apk) =
            rw (f, g, v) refl in
          odex_path oat_dir apk isa p (split_apk_path apk) refl (valid-Lacks isa v) (sym step ∙ e)
    ]
  ]
]
