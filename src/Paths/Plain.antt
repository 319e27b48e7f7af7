-- ===== src/Paths/Plain.antt =====
-- Paths that checkArgumentPath of installd/InstalldNativeService.cpp accepts.
use cmds.Common.{
  ◌≡◌, refl, sym, ap, subst, ◌∙◌, true, false, List, [], ◌∷◌, ◌++◌, Bytes, codes, bytes_eq,
  bytes_eq_iff, starts_with, ◌==◌, ==_refl, Bool-cases, arith, inl, inr, All,
}
use cmds.Paths.{slash, has_char}
use cmds.Paths.Validate.{contains}
use cmds.Paths.Components.{
  components, extend_first, components-nil, components-slash, components-other, contains-cons,
}
use cmds.Paths.Arguments.{ok, check_argument_path}

-- The first component of a text, with a slash behind it, begins the text with a slash behind it.
first_component :
    (s : Bytes)
    → (first : Bytes) × (ss : List Bytes) × (components s ≡ first ∷ ss)
      × (starts_with (s ++ slash ∷ []) (first ++ slash ∷ []) ≡ true)
unfolding starts_with extend_first
first_component [] = ([], [], components-nil, refl)
first_component (c ∷ s) =
    let (first, ss, e, p) = first_component s in
    elim (Bool-cases (c == slash)) [
      | inl is_slash ↦ ([], components s, components-slash c s is_slash, ground (arith, is_slash))
      | inr other ↦ (
        c ∷ first,
        ss,
        components-other c s other ∙ ap (extend_first c) e,
        ground (arith, p, ==_refl c),
      )
    ]

first_not_parent :
    (s first : Bytes)
    → starts_with (s ++ slash ∷ []) (first ++ slash ∷ []) ≡ true
    → starts_with (s ++ slash ∷ []) (codes "../") ≡ false
    → bytes_eq first (codes "..") ≡ false
first_not_parent s first p h = elim (Bool-cases (bytes_eq first (codes ".."))) [
  | inr other ↦ other
  | inl yes_it ↦
      let e : first ≡ codes ".." = (bytes_eq_iff first (codes "..")).0 yes_it in
      cc (h, ap (λ f. starts_with (s ++ slash ∷ []) (f ++ slash ∷ [])) (sym e) ∙ p)
]

abbrev pub NotParent : Bytes → Type 0
NotParent t = bytes_eq t (codes "..") ≡ false

abbrev Later : List Bytes → Type 0
Later [] = Unit
Later (t ∷ ts) = All NotParent ts

-- Without "/../" no component but the first is "..".
components-Later :
    (s : Bytes) → contains (codes "/../") (s ++ slash ∷ []) ≡ false → Later (components s)
unfolding starts_with extend_first
components-Later [] h = rw components-nil tt
components-Later (c ∷ s) h =
    let (here, after) = contains-cons (codes "/../") (s ++ slash ∷ []) c h in
    let (first, ss, e, p) = first_component s in
    let tail : Later (first ∷ ss) = subst Later e (components-Later s after) in
    elim (Bool-cases (c == slash)) [
      | inl is_slash ↦
          let fresh : starts_with (s ++ slash ∷ []) (codes "../") ≡ false =
            ground (arith, here, is_slash) in
          subst Later (sym (components-slash c s is_slash ∙ ap (◌∷◌ []) e))
            (first_not_parent s first p fresh, tail)
      | inr other ↦ subst Later (sym (components-other c s other ∙ ap (extend_first c) e)) tail
    ]

-- A path that checkArgumentPath accepts begins with a slash, has no component "..", and holds no 0
-- and no newline.
check_argument_path-plain :
    (path : Bytes)
    → check_argument_path path ≡ ok
    → (starts_with path (slash ∷ []) ≡ true)
      × All NotParent (components path)
      × (has_char 0 path ≡ false)
      × (has_char b'\n' path ≡ false)
unfolding check_argument_path starts_with bytes_eq
check_argument_path-plain [] h = cc
check_argument_path-plain (c ∷ s) h =
    let is_slash : (c == slash) ≡ true = ground (arith, h) in
    let plain : contains (codes "/../") ((c ∷ s) ++ slash ∷ []) ≡ false = ground (arith, h) in
    let later = components-Later (c ∷ s) plain in
    let shape = components-slash c s is_slash in
    (
      ground (arith, is_slash),
      subst (All NotParent) (sym shape) (refl, subst Later shape later),
      ground (arith, h),
      ground (arith, h),
    )
