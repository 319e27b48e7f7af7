-- ===== src/Dexopt/Resolved.antt =====
-- Where the path of a compiled file leads that installd/dexopt.cpp makes of a directory, an instruction
-- set and a name, as a file system takes it.
use cmds.Common.{
  Lacks, All-append, ℕ, ◌≡◌, refl, sym, ap, ◌∙◌, false, List, [], ◌∷◌, ◌++◌, Bytes, codes, bytes_eq,
  ◌==◌, arith, Bool-cases, inl, inr,
}
use cmds.Paths.{slash}
use cmds.Paths.Components.{
  extend_first, components, components-nil, components-slash, components-other, walk, walk_one,
  is_here, target, walk-append,
}

extend_first-again :
    (c d : ℕ) (l r : List Bytes)
    → extend_first c (extend_first d l ++ r) ≡ extend_first c (extend_first d l) ++ r
unfolding extend_first
extend_first-again c d [] r = refl
extend_first-again c d (s ∷ l) r = refl

extend_first-append :
    (c : ℕ) (s : Bytes) (r : List Bytes)
    → extend_first c (components s ++ r) ≡ extend_first c (components s) ++ r
unfolding extend_first
extend_first-append c [] r = rw components-nil refl
extend_first-append c (d ∷ s) r = elim (Bool-cases (d == slash)) [
  | inl e ↦ rw (components-slash d s e) refl
  | inr e ↦ rw (components-other d s e) (extend_first-again c d (components s) r)
]

components-join : (s rest : Bytes) → components (s ++ b'/' ∷ rest) ≡ components s ++ components rest
unfolding extend_first
components-join [] rest =
    components-slash b'/' rest refl
    ∙ sym (ap (λ (l : List Bytes). l ++ components rest) components-nil)
components-join (c ∷ s) rest = elim (Bool-cases (c == slash)) [
  | inl e ↦
      components-slash c (s ++ b'/' ∷ rest) e
      ∙ ap (◌∷◌ []) (components-join s rest)
      ∙ sym (ap (λ (l : List Bytes). l ++ components rest) (components-slash c s e))
  | inr e ↦
      components-other c (s ++ b'/' ∷ rest) e
      ∙ ap (extend_first c) (components-join s rest)
      ∙ extend_first-append c s (components rest)
      ∙ sym (ap (λ (l : List Bytes). l ++ components rest) (components-other c s e))
]

-- A text with no slash is one component.
components-one : (s : Bytes) → Lacks b'/' s → components s ≡ s ∷ []
unfolding extend_first
components-one [] h = components-nil
components-one (c ∷ s) h = components-other c s (h.0) ∙ ap (extend_first c) (components-one s h.1)

odex_some : (name : Bytes) → bytes_eq (name ++ codes ".odex") [] ≡ false
unfolding bytes_eq
odex_some [] = refl
odex_some (c ∷ name) = refl

odex_no_step :
    (name : Bytes)
    → (is_here (name ++ codes ".odex") ≡ false)
      × (bytes_eq (name ++ codes ".odex") (codes "..") ≡ false)
unfolding bytes_eq
odex_no_step [] = (refl, refl)
odex_no_step (c ∷ []) = (ground arith, ground arith)
odex_no_step (c ∷ d ∷ name) = (ground arith, ground (arith, odex_some name))

walk_one-odex :
    (name : Bytes) (at : List Bytes)
    → walk_one (name ++ codes ".odex") at ≡ (name ++ codes ".odex") ∷ at
unfolding walk_one
walk_one-odex name at = let (no_here, no_parent) = odex_no_step name in rw (no_here, no_parent) refl

-- The file is reached by the step that the instruction set names from the directory, and then its own name.
pub target-odex :
    (oat_dir isa name : Bytes)
    → Lacks b'/' isa
    → Lacks b'/' name
    → target (oat_dir ++ (codes "/" ++ (isa ++ (codes "/" ++ (name ++ codes ".odex")))))
      ≡ (name ++ codes ".odex") ∷ walk_one isa (target oat_dir)
unfolding walk
target-odex oat_dir isa name h k =
    let file : Bytes = name ++ codes ".odex" in
    rw
      (
        components-join oat_dir (isa ++ b'/' ∷ file),
        components-join isa file,
        components-one isa h,
        components-one file
            (All-append _ name (codes ".odex") k (refl, (refl, (refl, (refl, (refl, tt)))))),
        walk-append [] (components oat_dir) (isa ∷ file ∷ []),
      )
      (walk_one-odex name (walk_one isa (target oat_dir)))
