-- ===== src/Lshal/Aligned.antt =====
-- The columns of a table of lshal/TextTable.cpp stand below each other.
use cmds.Common.{
  ℕ, zero, suc, ◌+◌, ◌-◌, ◌≤◌, ◌≡◌, refl, sym, ap, subst, ◌∙◌, List, [], ◌∷◌, ◌++◌, Bytes, some,
  length, replicate, get_elem?, take, drop, length-append, append_assoc, append-nil, take-append,
  All, All-append, All-weaken, arith,
}
use cmds.Lshal.{
  TextTableRow, TextTable, no_table, compute_width, add_fields, add_line, add_row, add_rows, pad,
  dump_fields, dump_row,
}

-- Every field has a column that is as wide.
abbrev pub Fits : List ℕ → List Bytes → Type 0
Fits widths [] = Unit
Fits [] (f ∷ fields) = ⊥
Fits (w ∷ widths) (f ∷ fields) = (length f ≤ w) × Fits widths fields

-- A table with columns for all its rows.
pub IsFitted : TextTable → Type 0
IsFitted t = All (λ row. Fits t.widths row.fields) t.table

-- The columns only get wider.
abbrev Wider : List ℕ → List ℕ → Type 0
Wider [] vs = Unit
Wider (w ∷ ws) [] = ⊥
Wider (w ∷ ws) (v ∷ vs) = (w ≤ v) × Wider ws vs

Wider-self : (ws : List ℕ) → Wider ws ws
Wider-self [] = tt
Wider-self (w ∷ ws) = (omega arith, Wider-self ws)

compute_width-Wider : (ws : List ℕ) (fs : List Bytes) → Wider ws (compute_width ws fs)
unfolding compute_width
compute_width-Wider ws [] = Wider-self ws
compute_width-Wider [] (f ∷ fs) = tt
compute_width-Wider (w ∷ ws) (f ∷ fs) = (omega arith, compute_width-Wider ws fs)

compute_width-Fits : (ws : List ℕ) (fs : List Bytes) → Fits (compute_width ws fs) fs
unfolding compute_width
compute_width-Fits ws [] = tt
compute_width-Fits [] (f ∷ fs) = (omega arith, compute_width-Fits [] fs)
compute_width-Fits (w ∷ ws) (f ∷ fs) = (omega arith, compute_width-Fits ws fs)

Wider-Fits : (ws vs : List ℕ) (fs : List Bytes) → Wider ws vs → Fits ws fs → Fits vs fs
Wider-Fits ws vs [] k h = tt
Wider-Fits [] vs (f ∷ fs) k h = absurd h
Wider-Fits (w ∷ ws) [] (f ∷ fs) k h = absurd k
Wider-Fits (w ∷ ws) (v ∷ vs) (f ∷ fs) k h = (omega (arith, h.0, k.0), Wider-Fits ws vs fs k.1 h.1)

-- A row that fits the new columns, at the end of a fitted table.
grown-IsFitted :
    (t : TextTable) (widths : List ℕ) (row : TextTableRow)
    → IsFitted t
    → Wider t.widths widths
    → Fits widths row.fields
    → IsFitted (record { widths = widths; table = t.table ++ row ∷ [] })
unfolding IsFitted
grown-IsFitted t widths row v k h =
    All-append (λ (r : TextTableRow). Fits widths r.fields) t.table (row ∷ [])
      (All-weaken (λ (r : TextTableRow). Fits t.widths r.fields)
        (λ (r : TextTableRow). Fits widths r.fields) (λ r. Wider-Fits t.widths widths r.fields k)
        t.table v)
      (h, tt)

pub add_fields-IsFitted :
    (t : TextTable) (fs : List Bytes) → IsFitted t → IsFitted (add_fields t fs)
unfolding add_fields
add_fields-IsFitted t fs v =
    grown-IsFitted t (compute_width t.widths fs) (record { fields = fs; line = [] }) v
      (compute_width-Wider t.widths fs) (compute_width-Fits t.widths fs)

pub add_line-IsFitted : (t : TextTable) (s : Bytes) → IsFitted t → IsFitted (add_line t s)
unfolding add_line
add_line-IsFitted t s v =
    grown-IsFitted t t.widths (record { fields = []; line = s }) v (Wider-self t.widths) tt

pub no_table-IsFitted : IsFitted no_table
unfolding IsFitted
no_table-IsFitted = tt

add_row-IsFitted : (t : TextTable) (row : TextTableRow) → IsFitted t → IsFitted (add_row t row)
unfolding add_row
add_row-IsFitted t row v = by_fields row.fields refl
  where
    by_fields : (fs : List Bytes) → row.fields ≡ fs → IsFitted (add_row t row)
    by_fields [] e = rw e (
        grown-IsFitted t t.widths (record { fields = []; line = row.line }) v (Wider-self t.widths)
          tt)
    by_fields (f ∷ fs) e = rw e (
        grown-IsFitted t (compute_width t.widths (f ∷ fs))
          (record { fields = f ∷ fs; line = row.line }) v (compute_width-Wider t.widths (f ∷ fs))
          (compute_width-Fits t.widths (f ∷ fs)))

pub add_rows-IsFitted :
    (rows : List TextTableRow) (t : TextTable) → IsFitted t → IsFitted (add_rows t rows)
unfolding add_rows
add_rows-IsFitted [] t v = v
add_rows-IsFitted (row ∷ rows) t v =
    add_rows-IsFitted rows (add_row t row) (add_row-IsFitted t row v)

-- Where a column begins in a line.
pub column : List ℕ → ℕ → ℕ
column widths zero = 0
column [] (suc k) = 0
column (w ∷ widths) (suc k) = suc w + column widths k

length-spaces : (n : ℕ) (s : Bytes) → length (replicate n b' ' ++ s) ≡ n + length s
length-spaces zero s = omega arith
length-spaces (suc n) s = omega (arith, length-spaces n s)

drop_past : (a b : Bytes) (n k : ℕ) → k ≡ length a + n → drop k (a ++ b) ≡ drop n b
drop_past [] b n k e = ap (λ (i : ℕ). drop i b) (omega (arith, e))
drop_past (c ∷ a) b n zero e = absurd (omega arith)
drop_past (c ∷ a) b n (suc k) e = drop_past a b n k (omega (arith, e))

-- A padded field takes its column, and the space one byte more.
length-pad : (w : ℕ) (f : Bytes) → length f ≤ w → length (pad w f ++ b' ' ∷ []) ≡ suc w
length-pad w f h =
    let spaces : Bytes = replicate (w - length f) b' ' in
    let count : length spaces ≡ w - length f =
      ap (λ (s : Bytes). length s) (sym (append-nil spaces))
      ∙ omega (arith, length-spaces (w - length f) []) in
    omega (arith, h, length-append (pad w f) (b' ' ∷ []), length-append f spaces, count)

take-pad : (w : ℕ) (f rest : Bytes) → take (length f) (pad w f ++ rest) ≡ f
take-pad w f rest =
    ap (λ (s : Bytes). take (length f) s) (append_assoc f (replicate (w - length f) b' ') rest)
    ∙ take-append f (replicate (w - length f) b' ' ++ rest)

-- A field can be read off the line, from where its column begins.
pub StandsAt : List ℕ → Bytes → ℕ → Bytes → Type 0
StandsAt widths line k f = take (length f) (drop (column widths k) line) ≡ f

dump_fields-StandsAt :
    (widths : List ℕ) (fields : List Bytes) (k : ℕ) (f : Bytes)
    → Fits widths fields
    → get_elem? fields k ≡ some f
    → StandsAt widths (dump_fields widths fields) k f
unfolding StandsAt dump_fields column
dump_fields-StandsAt widths [] k f h e = cc
dump_fields-StandsAt [] (g ∷ fields) k f h e = absurd h
dump_fields-StandsAt (w ∷ widths) (g ∷ []) zero f h e =
    let same : g ≡ f = cc in
    rw (← same) (ap (λ (s : Bytes). take (length g) s) (sym (append-nil g)) ∙ take-append g [])
dump_fields-StandsAt (w ∷ widths) (g ∷ []) (suc k) f h e = cc
dump_fields-StandsAt (w ∷ widths) (g ∷ g2 ∷ fields) zero f h e =
    let same : g ≡ f = cc in rw (← same) (take-pad w g (b' ' ∷ dump_fields widths (g2 ∷ fields)))
dump_fields-StandsAt (w ∷ widths) (g ∷ g2 ∷ fields) (suc k) f h e =
    let rest = dump_fields widths (g2 ∷ fields) in
    ap (λ (s : Bytes). take (length f) (drop (suc w + column widths k) s))
      (sym (append_assoc (pad w g) (b' ' ∷ []) rest))
    ∙ ap (λ (s : Bytes). take (length f) s)
        (drop_past (pad w g ++ b' ' ∷ []) rest (column widths k) (suc w + column widths k)
          (omega (arith, length-pad w g h.0)))
    ∙ dump_fields-StandsAt widths (g2 ∷ fields) k f h.1 e

-- Every field of a row stands in its line where its column begins.
abbrev pub IsAligned : List ℕ → TextTableRow → Type 0
IsAligned widths row =
    (k : ℕ) (f : Bytes)
    → get_elem? row.fields k ≡ some f
    → StandsAt widths (dump_row widths row) k f

dump_row-IsAligned :
    (widths : List ℕ) (row : TextTableRow) → Fits widths row.fields → IsAligned widths row
unfolding dump_row
dump_row-IsAligned widths row h k f e = by_fields row.fields refl
  where
    by_fields : (fs : List Bytes) → row.fields ≡ fs → StandsAt widths (dump_row widths row) k f
    by_fields [] same = cc (e, ap (λ (gs : List Bytes). get_elem? gs k) same)
    by_fields (g ∷ gs) same = rw same (
        dump_fields-StandsAt widths (g ∷ gs) k f (subst (Fits widths) same h)
          (sym (ap (λ (hs : List Bytes). get_elem? hs k) same) ∙ e))

pub IsFitted-IsAligned : (t : TextTable) → IsFitted t → All (IsAligned t.widths) t.table
unfolding IsFitted
IsFitted-IsAligned t v =
    All-weaken (λ (row : TextTableRow). Fits t.widths row.fields) (IsAligned t.widths)
      (λ row h. dump_row-IsAligned t.widths row h) t.table v
