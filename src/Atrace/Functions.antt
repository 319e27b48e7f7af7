-- ===== src/Atrace/Functions.antt =====
-- Which functions verifyKernelTraceFuncs of atrace/atrace.cpp finds.
use cmds.Common.{
  ℕ, ◌≡◌, refl, sym, Bool, true, false, ◌&&◌, ◌||◌, List, [], ◌∷◌, ◌++◌, Bytes, bytes_eq,
  starts_with, Option, none, some, All, Bool-cases, Option-cases, inl, inr, arith, ◌==◌, Lacks,
}
use cmds.Paths.Validate.{contains}
use cmds.Atrace.{System}
use cmds.Atrace.Kernel.{
  split_at, not_empty, tokens, has, functions_valid, verify_kernel_trace_funcs,
}

-- The lines that a newline ends.
abbrev pub ended : Bytes → List Bytes → List Bytes
ended first [] = []
ended first (next ∷ rest) = first ∷ ended next rest

abbrev pub whole_lines : Bytes → List Bytes
whole_lines s = ended (split_at 10 s).0 (split_at 10 s).1

abbrev pub is_line_of : Bytes → List Bytes → Bool
is_line_of func [] = false
is_line_of func (line ∷ lines) = bytes_eq func line || is_line_of func lines

-- Each name is a line of the text, or has a wildcard.
abbrev pub all_known : List Bytes → List Bytes → Bool
all_known lines [] = true
all_known lines (func ∷ funcs) = (has b'*' func || is_line_of func lines) && all_known lines funcs

-- Nothing is known where the text cannot be read.
abbrev pub are_known : Option Bytes → List Bytes → Bool
are_known none funcs = false
are_known (some buf) funcs = all_known (whole_lines buf) funcs

abbrev is_line_behind : Bytes → List Bytes → Bool
is_line_behind func [] = false
is_line_behind func (next ∷ rest) = is_line_of func (ended next rest)

abbrev any : List Bytes → Bool
any [] = false
any (line ∷ lines) = true

starts_with-first :
    (func s : Bytes)
    → Lacks 10 func
    → starts_with s (func ++ 10 ∷ []) ≡ (any (split_at 10 s).1 && bytes_eq func (split_at 10 s).0)
unfolding starts_with split_at bytes_eq
starts_with-first [] [] h = refl
starts_with-first [] (c ∷ s) h = ground arith
starts_with-first (f ∷ func) [] h = refl
starts_with-first (f ∷ func) (c ∷ s) (d, h) = ground (arith, starts_with-first func s h)

is_line_of-ended :
    (func first : Bytes) (rest : List Bytes)
    → is_line_of func (ended first rest)
      ≡ (any rest && bytes_eq func first || is_line_behind func rest)
is_line_of-ended func first [] = refl
is_line_of-ended func first (next ∷ rest) = refl

contains-behind :
    (func s : Bytes)
    → Lacks 10 func
    → contains (10 ∷ (func ++ 10 ∷ [])) s ≡ is_line_behind func (split_at 10 s).1
unfolding contains split_at starts_with
contains-behind func [] h = refl
contains-behind func (c ∷ s) h = elim (Bool-cases (c == 10)) [
  | inl e ↦
      rw (e, starts_with-first func s h, contains-behind func s h)
        (sym (is_line_of-ended func (split_at 10 s).0 (split_at 10 s).1))
  | inr e ↦ rw (e, contains-behind func s h) refl
]

contains-line :
    (func buf : Bytes)
    → Lacks 10 func
    → contains (10 ∷ (func ++ 10 ∷ [])) (10 ∷ buf) ≡ is_line_of func (whole_lines buf)
unfolding contains starts_with
contains-line func buf h =
    rw (starts_with-first func buf h, contains-behind func buf h)
      (sym (is_line_of-ended func (split_at 10 buf).0 (split_at 10 buf).1))

functions_valid-known :
    (buf : Bytes) (funcs : List Bytes)
    → All (Lacks 10) funcs
    → functions_valid (10 ∷ buf) funcs ≡ all_known (whole_lines buf) funcs
unfolding functions_valid
functions_valid-known buf [] h = refl
functions_valid-known buf (func ∷ funcs) (h, k) =
    rw (contains-line func buf h, functions_valid-known buf funcs k) refl

split_at-Lacks :
    (c d : ℕ) (s : Bytes) → Lacks d s → Lacks d (split_at c s).0 × All (Lacks d) (split_at c s).1
unfolding split_at
split_at-Lacks c d [] h = (tt, tt)
split_at-Lacks c d (x ∷ s) (h, k) =
    let (first, rest) = split_at-Lacks c d s k in
    elim (Bool-cases (x == c)) [
      | inl e ↦ rw e (tt, (first, rest))
      | inr e ↦ rw e ((h, first), rest)
    ]

not_empty-Lacks :
    (d : ℕ) (words : List Bytes) → All (Lacks d) words → All (Lacks d) (not_empty words)
unfolding not_empty
not_empty-Lacks d [] h = tt
not_empty-Lacks d ([] ∷ words) (h, k) = not_empty-Lacks d words k
not_empty-Lacks d ((c ∷ word) ∷ words) (h, k) = (h, not_empty-Lacks d words k)

-- For a list of functions without newlines, the check by searching the text, with a newline before it, for
-- each name between newlines comes to the same as looking for each name among the whole lines of
-- the text: every name without a wildcard must be one of them, and the text must be readable.
pub verify_kernel_trace_funcs-known :
    (system : System) (funcs : Bytes)
    → Lacks 10 funcs
    → verify_kernel_trace_funcs system funcs ≡ are_known system.filter (tokens b',' funcs)
unfolding verify_kernel_trace_funcs tokens
verify_kernel_trace_funcs-known system funcs h =
    let (first, rest) = split_at-Lacks b',' 10 funcs h in
    elim (Option-cases system.filter) [
      | inl e ↦ rw (e, verify_kernel_trace_funcs) refl
      | inr (buf, e) ↦
          rw (e, verify_kernel_trace_funcs)
            (functions_valid-known buf (tokens b',' funcs) (
              not_empty-Lacks 10 ((split_at b',' funcs).0 ∷ (split_at b',' funcs).1) (first, rest)))
    ]
