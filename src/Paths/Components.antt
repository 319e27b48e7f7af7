-- ===== src/Paths/Components.antt =====
-- What a path name means to the file system, apart from symbolic links: its components, and the
-- directories from the root that they lead to. Independent of the checks of installd/utils.cpp.
use cmds.Common.{
  ℕ, ◌≡◌, refl, sym, ap, ◌∙◌, Bool, true, false, ◌||◌, List, [], ◌∷◌, ◌++◌, Bytes, codes, bytes_eq,
  starts_with, ◌==◌, if◌then◌else◌, arith, All, append_assoc, Bool-cases, inl, inr,
}
use cmds.Paths.{slash}
use cmds.Paths.Globals.{ends_with_slash}
use cmds.Paths.Validate.{contains}

unfoldable pub extend_first : ℕ → List Bytes → List Bytes
extend_first c [] = (c ∷ []) ∷ []
extend_first c (s ∷ ss) = (c ∷ s) ∷ ss

-- The texts between the slashes.
pub components : Bytes → List Bytes
unfolding extend_first
components [] = [] ∷ []
components (c ∷ s) =
    let rest = components s in if c == slash then [] ∷ rest else extend_first c rest

pub pop : List Bytes → List Bytes
pop [] = []
pop (d ∷ ds) = ds

abbrev pub is_here : Bytes → Bool
is_here s = bytes_eq s [] || bytes_eq s (codes ".")

-- One component: the directories, innermost first, that it leads to from `at`.
unfoldable pub walk_one : Bytes → List Bytes → List Bytes
walk_one s at = if is_here s then at else if bytes_eq s (codes "..") then pop at else s ∷ at

unfoldable pub walk : List Bytes → List Bytes → List Bytes
walk at [] = at
walk at (s ∷ ss) = walk (walk_one s at) ss

-- Where an absolute path leads from the root.
abbrev pub target : Bytes → List Bytes
target path = walk [] (components path)

pub components-nil : components [] ≡ [] ∷ []
unfolding components
components-nil = refl

pub walk-append : (at xs ys : List Bytes) → walk at (xs ++ ys) ≡ walk (walk at xs) ys
unfolding walk
walk-append at [] ys = refl
walk-append at (x ∷ xs) ys = walk-append (walk_one x at) xs ys

-- Without "..", a walk goes only down.
pub walk_down :
    (at ss : List Bytes)
    → All (λ s. bytes_eq s (codes "..") ≡ false) ss
    → (names : List Bytes) × (walk at ss ≡ names ++ at)
unfolding walk walk_one
walk_down at [] h = ([], refl)
walk_down at (s ∷ ss) h = elim (Bool-cases (is_here s)) [
  | inl here ↦ let (names, e) = walk_down at ss h.1 in (names, rw here e)
  | inr there ↦
      let (names, e) = walk_down (s ∷ at) ss h.1 in
      (names ++ s ∷ [], rw (there, h.0) (e ∙ sym (append_assoc names (s ∷ []) at)))
]

pub walk-empty : (at : List Bytes) → walk at ([] ∷ []) ≡ at
unfolding walk walk_one bytes_eq
walk-empty at = refl

pub components-slash :
    (c : ℕ) (s : Bytes) → (c == slash) ≡ true → components (c ∷ s) ≡ [] ∷ components s
unfolding components
components-slash c s e = ground arith

pub components-other :
    (c : ℕ) (s : Bytes) → (c == slash) ≡ false → components (c ∷ s) ≡ extend_first c (components s)
unfolding components
components-other c s e = ground arith

-- A directory that ends with a slash has its components, and those of what follows.
pub components-append :
    (c : ℕ) (dir rest : Bytes)
    → ends_with_slash (c ∷ dir) ≡ true
    → (first : Bytes) × (up : List Bytes) × (components (c ∷ dir) ≡ first ∷ (up ++ [] ∷ []))
      × (components ((c ∷ dir) ++ rest) ≡ first ∷ (up ++ components rest))
unfolding ends_with_slash extend_first
components-append c [] rest h =
    ([], [], components-slash c [] h ∙ ap (◌∷◌ []) components-nil, components-slash c rest h)
components-append c (d ∷ dir) rest h =
    let (first, up, e, f) = components-append d dir rest h in
    elim (Bool-cases (c == slash)) [
      | inl is_slash ↦ (
        [],
        first ∷ up,
        components-slash c (d ∷ dir) is_slash ∙ ap (◌∷◌ []) e,
        components-slash c ((d ∷ dir) ++ rest) is_slash ∙ ap (◌∷◌ []) f,
      )
      | inr other ↦ (
        c ∷ first,
        up,
        components-other c (d ∷ dir) other ∙ ap (extend_first c) e,
        components-other c ((d ∷ dir) ++ rest) other ∙ ap (extend_first c) f,
      )
    ]

-- The first component begins the text.
components_first :
    (s : Bytes)
    → (first : Bytes) × (ss : List Bytes) × (components s ≡ first ∷ ss)
      × (starts_with s first ≡ true)
unfolding starts_with extend_first
components_first [] = ([], [], components-nil, refl)
components_first (c ∷ s) =
    let (first, ss, e, p) = components_first s in
    elim (Bool-cases (c == slash)) [
      | inl is_slash ↦ ([], components s, components-slash c s is_slash, refl)
      | inr other ↦
          (c ∷ first, ss, components-other c s other ∙ ap (extend_first c) e, ground (arith, p))
    ]

no_parent_first :
    (c : ℕ) (s first : Bytes)
    → starts_with s first ≡ true
    → starts_with (c ∷ s) (codes "..") ≡ false
    → bytes_eq (c ∷ first) (codes "..") ≡ false
unfolding starts_with bytes_eq
no_parent_first c s [] p h = ground arith
no_parent_first c [] (f ∷ first) p h = cc
no_parent_first c (d ∷ s) (f ∷ []) p h = ground arith
no_parent_first c (d ∷ s) (f ∷ g ∷ first) p h = ground arith

pub contains-cons :
    (sub s : Bytes) (c : ℕ)
    → contains sub (c ∷ s) ≡ false
    → (starts_with (c ∷ s) sub ≡ false) × (contains sub s ≡ false)
unfolding contains
contains-cons sub s c h = ground arith

-- A text with no ".." in it has no component "..".
pub components_no_parent :
    (s : Bytes)
    → contains (codes "..") s ≡ false
    → All (λ t. bytes_eq t (codes "..") ≡ false) (components s)
unfolding bytes_eq extend_first
components_no_parent [] h = rw components-nil (refl, tt)
components_no_parent (c ∷ s) h =
    let (here, later) = contains-cons (codes "..") s c h in
    let tail = components_no_parent s later in
    elim (Bool-cases (c == slash)) [
      | inl is_slash ↦ rw (components-slash c s is_slash) (refl, tail)
      | inr other ↦
          let (first, ss, e, p) = components_first s in
          rw (components-other c s other, e) (no_parent_first c s first p here, (rw e at tail).1)
    ]
