-- ===== src/Bugreportz/Lines.antt =====
-- The lines of a text, as a reader of the output sees them, independently of the copying loop.
use cmds.Common.{
  ℕ, ◌≡◌, refl, false, true, List, [], ◌∷◌, ◌++◌, Bytes, ◌==◌, if◌then◌else◌, arith, All,
}
use cmds.Bugreportz.{newline}

abbrev pub concat : List Bytes → Bytes
concat [] = []
concat (l ∷ ls) = l ++ concat ls

unfoldable pub cons_head : ℕ → List Bytes → List Bytes
cons_head c [] = (c ∷ []) ∷ []
cons_head c (l ∷ ls) = (c ∷ l) ∷ ls

-- Each line with its newline; the last one may have none.
pub lines : Bytes → List Bytes
unfolding cons_head
lines [] = []
lines (c ∷ s) = let rest = lines s in if c == newline then (c ∷ []) ∷ rest else cons_head c rest

pub lines-nil : lines [] ≡ []
unfolding lines
lines-nil = refl

concat-cons_head : (c : ℕ) (ls : List Bytes) → concat (cons_head c ls) ≡ c ∷ concat ls
unfolding cons_head
concat-cons_head c [] = refl
concat-cons_head c (l ∷ ls) = refl

pub concat-lines : (s : Bytes) → concat (lines s) ≡ s
unfolding lines
concat-lines [] = refl
concat-lines (c ∷ s) = ground (arith, concat-lines s, concat-cons_head c (lines s))

abbrev pub NoNewline : Bytes → Type 0
NoNewline = All (λ c. (c == newline) ≡ false)

-- A complete line in front is the first line.
pub lines_complete :
    (l s : Bytes) → NoNewline l → lines (l ++ newline ∷ s) ≡ (l ++ newline ∷ []) ∷ lines s
unfolding lines
lines_complete [] s h = refl
lines_complete (c ∷ l) s h = ground (arith, h.0, lines_complete l s h.1)

-- An incomplete line is all of it.
pub lines_incomplete : (c : ℕ) (l : Bytes) → NoNewline (c ∷ l) → lines (c ∷ l) ≡ (c ∷ l) ∷ []
unfolding lines
lines_incomplete c [] h = ground (arith, h.0)
lines_incomplete c (d ∷ l) h = ground (arith, h.0, lines_incomplete d l h.1)

pub lines-newline : (c : ℕ) (s : Bytes) → (c == newline) ≡ true → lines (c ∷ s) ≡ (c ∷ []) ∷ lines s
unfolding lines
lines-newline c s e = ground arith

pub lines_other :
    (c : ℕ) (s : Bytes) → (c == newline) ≡ false → lines (c ∷ s) ≡ cons_head c (lines s)
unfolding lines
lines_other c s e = ground arith
