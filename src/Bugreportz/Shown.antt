-- ===== src/Bugreportz/Shown.antt =====
-- The lines of the output of bugreportz/bugreportz.cpp are those of its input that are shown.
use cmds.Common.{
  ℕ, ◌≡◌, refl, ap, ◌⊎◌, Bool, true, false, List, [], ◌∷◌, ◌++◌, Bytes, ◌==◌, arith, append_assoc,
  append-nil, Bool-cases, inl, inr, ==_iff,
}
use cmds.Bugreportz.{newline, write_line}
use cmds.Bugreportz.Lines.{
  concat, lines, lines-nil, NoNewline, lines_complete, lines_incomplete, lines-newline, lines_other,
  cons_head,
}
use cmds.Bugreportz.Copy.{is_shown, shown_lines, written_lines}

abbrev Complete : Bytes → Type 0
Complete l = (k : Bytes) × NoNewline k × (l ≡ k ++ newline ∷ [])

abbrev Open : Bytes → Type 0
Open l = (c : ℕ) × (k : Bytes) × NoNewline (c ∷ k) × (l ≡ c ∷ k)

-- Every line is complete but the last, which may be open.
abbrev AreLines : List Bytes → Type 0
AreLines [] = Unit
AreLines (l ∷ ls) = (Complete l × AreLines ls) ⊎ (Open l × (ls ≡ []))

AreLines-cons_head :
    (c : ℕ) (ls : List Bytes) → (c == newline) ≡ false → AreLines ls → AreLines (cons_head c ls)
unfolding cons_head
AreLines-cons_head c [] e h = inr ((c, [], (e, tt), refl), refl)
AreLines-cons_head c (l ∷ ls) e (inl ((k, n, q), r)) = inl ((c ∷ k, (e, n), ap (◌∷◌ c) q), r)
AreLines-cons_head c (l ∷ ls) e (inr ((d, k, n, q), r)) = inr ((c, d ∷ k, (e, n), ap (◌∷◌ c) q), r)

AreLines-lines : (s : Bytes) → AreLines (lines s)
AreLines-lines [] = rw lines-nil tt
AreLines-lines (c ∷ s) = elim (Bool-cases (c == newline)) [
  | inl e ↦
      rw (lines-newline c s e)
        (inl (([], tt, ap (λ d. d ∷ []) ((==_iff c newline).0 e)), AreLines-lines s))
  | inr e ↦ rw (lines_other c s e) (AreLines-cons_head c (lines s) e (AreLines-lines s))
]

lines-concat : (ls : List Bytes) → AreLines ls → lines (concat ls) ≡ ls
lines-concat [] h = lines-nil
lines-concat (l ∷ ls) (inl ((k, n, q), r)) = rw (
  q,
  append_assoc k (newline ∷ []) (concat ls),
  lines_complete k (concat ls) n,
  lines-concat ls r,
)
lines-concat (l ∷ ls) (inr ((c, k, n, q), r)) =
    rw (q, r, append-nil (c ∷ k), lines_incomplete c k n)

AreLines-shown : (p : Bool) (ls : List Bytes) → AreLines ls → AreLines (shown_lines p ls)
unfolding shown_lines
AreLines-shown p [] h = tt
AreLines-shown p (l ∷ ls) (inl (c, r)) = ground (arith, AreLines-shown p ls r)
AreLines-shown p (l ∷ []) (inr (o, r)) = ground arith
AreLines-shown p (l ∷ m ∷ ls) (inr (o, r)) = cc

pub written_lines-eq-concat :
    (p : Bool) (ls : List Bytes) → written_lines p ls ≡ concat (shown_lines p ls)
unfolding shown_lines is_shown write_line
written_lines-eq-concat p [] = refl
written_lines-eq-concat p ([] ∷ ls) = ground (arith, written_lines-eq-concat p ls)
written_lines-eq-concat p ((c ∷ l) ∷ ls) = ground (arith, written_lines-eq-concat p ls)

pub lines-written_lines :
    (p : Bool) (s : Bytes) → lines (written_lines p (lines s)) ≡ shown_lines p (lines s)
lines-written_lines p s =
    rw written_lines-eq-concat
      (lines-concat (shown_lines p (lines s)) (AreLines-shown p (lines s) (AreLines-lines s)))

pub shown_lines-all : (ls : List Bytes) → shown_lines true ls ≡ ls
unfolding shown_lines is_shown
shown_lines-all [] = refl
shown_lines-all (l ∷ ls) = ap (◌∷◌ l) (shown_lines-all ls)
