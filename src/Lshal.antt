-- ===== src/Lshal.antt =====
-- lshal/utils.cpp and lshal/TextTable.cpp: the texts and the aligned tables that lshal prints. A text is the
-- list of its bytes, and a position in it the text from there on.
pub mod Entry
pub mod Texts
pub mod Aligned
pub mod Columns
pub mod Tests
use Prim.Native.Nat.{max}
use cmds.Common.{
  ℕ, zero, suc, ◌+◌, ◌-◌, ◌*◌, ◌/◌, ◌%◌, ◌^◌, Bool, true, false, not, List, [], ◌∷◌, ◌++◌, map,
  Bytes, Option, none, some, ◌==◌, ltb, if◌then◌else◌, length, replicate,
}

abbrev pub hex_digit : ℕ → ℕ
hex_digit d = if ltb d 10 then b'0' + d else b'a' + (d - 10)

-- The digits of a number, before `acc`; a 64-bit number has 16 at most.
unfoldable pub push_hex : ℕ → ℕ → Bytes → Bytes
push_hex zero n acc = acc
push_hex (suc fuel) n acc =
    let more = push_hex fuel (n / 16) (hex_digit (n % 16) ∷ acc) in
    if n / 16 == 0 then hex_digit (n % 16) ∷ acc else more

unfoldable pub to_hex_string : ℕ → Bytes
to_hex_string t = let digits = push_hex 16 t [] in replicate (16 - length digits) b'0' ++ digits

-- s.find(c, startPos): what is before the first `c`, and what is behind it.
unfoldable pub find : ℕ → Bytes → Option (Bytes × Bytes)
find c [] = none
find c (x ∷ s) =
    let found = find c s in
    if x == c
    then some ([], s)
    else elim found [ none ↦ none | some (before, rest) ↦ some (x ∷ before, rest) ]

-- Each round goes behind one more `c`, so that the length and one more is fuel enough.
unfoldable pub split_loop : ℕ → ℕ → Bytes → List Bytes
split_loop zero c s = []
split_loop (suc fuel) c s = elim (find c s) [
  | none ↦ s ∷ []
  | some (component, rest) ↦ component ∷ split_loop fuel c rest
]

unfoldable pub split : Bytes → ℕ → List Bytes
split s c = split_loop (suc (length s)) c s

unfoldable pub replace_all : Bytes → ℕ → ℕ → Bytes
replace_all [] from to = []
replace_all (c ∷ s) from to = (if c == from then to else c) ∷ replace_all s from to

-- The components behind the first, each with its separator.
unfoldable pub join_rest : List Bytes → Bytes → Bytes
join_rest [] separator = []
join_rest (c ∷ components) separator = separator ++ (c ++ join_rest components separator)

unfoldable pub join : List Bytes → Bytes → Bytes
join [] separator = []
join (c ∷ components) separator = c ++ join_rest components separator

pub record TextTableRow : Type 0 where
  pub fields : List Bytes
  pub line : Bytes

abbrev pub is_row : TextTableRow → Bool
is_row row = elim row.fields [ [] ↦ false | f ∷ fields ↦ true ]

pub record TextTable : Type 0 where
  pub widths : List ℕ
  pub table : List TextTableRow

abbrev pub no_table : TextTable
no_table = record { widths = []; table = [] }

-- The new columns of a resize start at 0.
unfoldable pub compute_width : List ℕ → List Bytes → List ℕ
compute_width widths [] = widths
compute_width [] (f ∷ fields) = max 0 (length f) ∷ compute_width [] fields
compute_width (w ∷ widths) (f ∷ fields) = max w (length f) ∷ compute_width widths fields

unfoldable pub add_fields : TextTable → List Bytes → TextTable
add_fields t v = record {
  widths = compute_width t.widths v;
  table = t.table ++ record { fields = v; line = [] } ∷ [];
}

unfoldable pub add_line : TextTable → Bytes → TextTable
add_line t s = record t { table = t.table ++ record { fields = []; line = s } ∷ [] }

unfoldable pub add_row : TextTable → TextTableRow → TextTable
add_row t row = record {
  widths = if is_row row then compute_width t.widths row.fields else t.widths;
  table = t.table ++ row ∷ [];
}

unfoldable pub add_rows : TextTable → List TextTableRow → TextTable
add_rows t [] = t
add_rows t (row ∷ rows) = add_rows (add_row t row) rows

unfoldable pub add_all : TextTable → TextTable → TextTable
add_all t other = add_rows t other.table

-- std::left and std::setw: spaces behind a text that is shorter.
abbrev pub pad : ℕ → Bytes → Bytes
pad width s = s ++ replicate (width - length s) b' '

-- The fields from one column on. There is a width for every column but the last; a missing one
-- counts as 0 here.
unfoldable pub dump_fields : List ℕ → List Bytes → Bytes
dump_fields widths [] = []
dump_fields widths (f ∷ []) = f
dump_fields [] (f ∷ g ∷ fields) = pad 0 f ++ b' ' ∷ dump_fields [] (g ∷ fields)
dump_fields (w ∷ widths) (f ∷ g ∷ fields) = pad w f ++ b' ' ∷ dump_fields widths (g ∷ fields)

unfoldable pub dump_row : List ℕ → TextTableRow → Bytes
dump_row widths row = if is_row row then dump_fields widths row.fields else row.line

unfoldable pub dump_rows : List ℕ → List TextTableRow → Bytes
dump_rows widths [] = []
dump_rows widths (row ∷ rows) = dump_row widths row ++ b'\n' ∷ dump_rows widths rows

unfoldable pub dump : TextTable → Bytes
dump t = dump_rows t.widths t.table
