-- ===== src/Bugreportz/Copy.antt =====
-- What the copying loop of bugreportz/bugreportz.cpp writes, whatever the sizes of the reads.
use cmds.Common.{
  ℕ, ◌≡◌, refl, ap, sym, ◌∙◌, Bool, true, false, not, ◌||◌, codes, starts_with, List, [], ◌∷◌, ◌++◌,
  Bytes, ◌==◌, if◌then◌else◌, arith, All-append, append_assoc, append-nil, Bool-cases, inl, inr,
  ==_iff,
}
use cmds.Bugreportz.{newline, write_line, Copier, append_char, append_buffer}
use cmds.Bugreportz.Lines.{lines, lines-nil, NoNewline, lines_complete, lines_incomplete}

-- Whether a line is to be written: without -p, lines that tell the progress are not.
unfoldable pub is_shown : Bool → Bytes → Bool
is_shown p l = p || not (starts_with l (codes "PROGRESS:") || starts_with l (codes "BEGIN:"))

unfoldable pub shown_lines : Bool → List Bytes → List Bytes
shown_lines p [] = []
shown_lines p (l ∷ ls) = if is_shown p l then l ∷ shown_lines p ls else shown_lines p ls

-- The lines that are written, each as `write_line` leaves it.
abbrev pub written_lines : Bool → List Bytes → Bytes
written_lines p [] = []
written_lines p (l ∷ ls) = write_line l p ++ written_lines p ls

-- What the loop will have written once the input is at its end.
abbrev pub final : Bool → Copier → Bytes
final p s = s.written ++ write_line s.line p

written_last :
    (p : Bool) (line : Bytes) → NoNewline line → written_lines p (lines line) ≡ write_line line p
unfolding write_line
written_last p [] h = rw lines-nil
written_last p (c ∷ l) h = rw (lines_incomplete c l h) (append-nil _)

snoc_append : (l : Bytes) (c : ℕ) (s : Bytes) → (l ++ c ∷ []) ++ s ≡ l ++ c ∷ s
snoc_append l c s = append_assoc l (c ∷ []) s

char_newline :
    (p : Bool) (s : Copier) (c : ℕ)
    → (c == newline) ≡ true
    → append_char p s c
      ≡ record { line = []; written = s.written ++ write_line (s.line ++ c ∷ []) p }
unfolding append_char
char_newline p s c e = ground arith

char_other :
    (p : Bool) (s : Copier) (c : ℕ)
    → (c == newline) ≡ false
    → append_char p s c ≡ record s { line = s.line ++ c ∷ [] }
unfolding append_char
char_other p s c e = ground arith

append_buffer-nil : (p : Bool) (s : Copier) → append_buffer p s [] ≡ s
unfolding append_buffer
append_buffer-nil p s = refl

append_buffer-cons :
    (p : Bool) (s : Copier) (c : ℕ) (b : Bytes)
    → append_buffer p s (c ∷ b) ≡ append_buffer p (append_char p s c) b
unfolding append_buffer
append_buffer-cons p s c b = refl

-- A step of the specification at a newline.
written_lines-newline :
    (p : Bool) (line s : Bytes) (c : ℕ)
    → NoNewline line
    → (c == newline) ≡ true
    → written_lines p (lines (line ++ c ∷ s))
      ≡ write_line (line ++ c ∷ []) p ++ written_lines p (lines s)
written_lines-newline p line s c h e =
    let eq : c ≡ newline = (==_iff c newline).0 e in rw (eq, lines_complete line s h)

-- From any point of the loop, the rest of the input comes out as its lines, the open line in front.
pub append_buffer-lines :
    (p : Bool) (line written buffer : Bytes)
    → NoNewline line
    → final p (append_buffer p (record { line = line; written = written }) buffer)
      ≡ written ++ written_lines p (lines (line ++ buffer))
append_buffer-lines p line written [] h =
    rw (append_buffer-nil, append-nil line) (ap (◌++◌ written) (sym (written_last p line h)))
append_buffer-lines p line written (c ∷ buffer) h = elim (Bool-cases (c == newline)) [
  | inl e ↦
      rw (append_buffer-cons, char_newline p _ c e, written_lines-newline p line buffer c h e)
        (append_buffer-lines p [] (written ++ write_line (line ++ c ∷ []) p) buffer tt
          ∙ append_assoc written _ _)
  | inr e ↦
      rw (append_buffer-cons, char_other p _ c e, ← snoc_append line c buffer)
        (append_buffer-lines p (line ++ c ∷ []) written buffer
          (All-append (λ c. (c == newline) ≡ false) line (c ∷ []) h (e, tt)))
]

pub append_buffer-append :
    (p : Bool) (s : Copier) (a b : Bytes)
    → append_buffer p s (a ++ b) ≡ append_buffer p (append_buffer p s a) b
unfolding append_buffer
append_buffer-append p s [] b = refl
append_buffer-append p s (c ∷ a) b = append_buffer-append p (append_char p s c) a b

-- Characters other than newlines stay in the open line.
pub append_buffer-open :
    (p : Bool) (s : Copier) (a : Bytes)
    → NoNewline a
    → append_buffer p s a ≡ record s { line = s.line ++ a }
append_buffer-open p s [] h = rw (append_buffer-nil, append-nil)
append_buffer-open p s (c ∷ a) h =
    rw (append_buffer-cons, char_other p s c h.0, ← snoc_append s.line c a)
      (append_buffer-open p (record s { line = s.line ++ c ∷ [] }) a h.1)

-- After a newline no line is open.
pub append_buffer-closed :
    (p : Bool) (s : Copier) (a : Bytes) → (append_buffer p s (a ++ newline ∷ [])).line ≡ []
append_buffer-closed p s a = rw (
  append_buffer-append p s a (newline ∷ []),
  append_buffer-cons,
  append_buffer-nil,
  char_newline p (append_buffer p s a) newline refl,
)
