-- ===== src/Lshal/Columns.antt =====
-- The tables that lshal/TableEntry.cpp makes are aligned, and have what was selected of each entry.
use cmds.Common.{
  ◌≡◌, sym, ap, ◌∙◌, Bool, true, List, [], ◌∷◌, ◌++◌, map, Bytes, bytes_eq, Option, none, some,
  if_elim, All, append_assoc, append-nil,
}
use cmds.Lshal.{TextTableRow, TextTable, no_table, add_fields, add_line, add_row, add_rows, add_all}
use cmds.Lshal.Aligned.{
  IsFitted, IsAligned, add_fields-IsFitted, add_line-IsFitted, add_rows-IsFitted, no_table-IsFitted,
  IsFitted-IsAligned,
}
use cmds.Lshal.Entry.{
  TableEntry, TableColumnType, Libraries, get_field, Table, add_debug_info, add_entries, add_titles,
  create_text_table, merge_tables, create_merged_table,
}

add_debug_info-IsFitted :
    (emit : Option (Bytes → Bytes)) (entry : TableEntry) (t : TextTable)
    → IsFitted t
    → IsFitted (add_debug_info emit entry t)
unfolding add_debug_info
add_debug_info-IsFitted none entry t v = v
add_debug_info-IsFitted (some emit) entry t v =
    if_elim IsFitted (bytes_eq (emit entry.interface_name) []) v
      (add_line-IsFitted t (emit entry.interface_name) v)

module _ (lib : Libraries) where
  add_entries-IsFitted :
      (columns : List TableColumnType) (emit : Option (Bytes → Bytes)) (entries : List TableEntry)
      (t : TextTable)
      → IsFitted t
      → IsFitted (add_entries lib columns emit entries t)
  unfolding add_entries
  add_entries-IsFitted columns emit [] t v = v
  add_entries-IsFitted columns emit (entry ∷ entries) t v =
      add_entries-IsFitted columns emit entries _ (
        add_debug_info-IsFitted emit entry _
          (add_fields-IsFitted t (map (get_field lib entry) columns) v))

  create_text_table-IsFitted :
      (table : Table) (neat : Bool) (emit : Option (Bytes → Bytes))
      → IsFitted (create_text_table lib table neat emit)
  unfolding create_text_table add_titles
  create_text_table-IsFitted table neat emit =
      add_entries-IsFitted table.selected_columns emit table.entries _ (
        if_elim IsFitted neat no_table-IsFitted (
          add_fields-IsFitted (add_line no_table table.description) _
            (add_line-IsFitted no_table table.description no_table-IsFitted)))

  merge_tables-IsFitted :
      (tables : List Table) (t : TextTable) → IsFitted t → IsFitted (merge_tables lib tables t)
  unfolding merge_tables add_all
  merge_tables-IsFitted [] t v = v
  merge_tables-IsFitted (table ∷ tables) t v =
      merge_tables-IsFitted tables _
        (add_rows-IsFitted (create_text_table lib table true none).table t v)

  -- In a table, with or without titles and debug information, and in a table merged from any number of
  -- tables, every field of every row stands, in the line that is printed for its row, at the place where
  -- its column begins, the same in all rows: there is room for what stands before it.
  pub create_text_table-IsAligned :
      (table : Table) (neat : Bool) (emit : Option (Bytes → Bytes)) (tables : List Table)
      → All
          (IsAligned (create_text_table lib table neat emit).widths)
          (create_text_table lib table neat emit).table
        × All
            (IsAligned (create_merged_table lib tables).widths)
            (create_merged_table lib tables).table
  unfolding create_merged_table
  create_text_table-IsAligned table neat emit tables = (
    IsFitted-IsAligned (create_text_table lib table neat emit)
        (create_text_table-IsFitted table neat emit),
    IsFitted-IsAligned (merge_tables lib tables no_table)
        (merge_tables-IsFitted tables no_table no_table-IsFitted),
  )

  -- The row of an entry.
  abbrev pub row_of : List TableColumnType → TableEntry → TextTableRow
  row_of columns entry = record { fields = map (get_field lib entry) columns; line = [] }

  abbrev pub rows_of : List Table → List TextTableRow
  rows_of [] = []
  rows_of (table ∷ tables) = map (row_of table.selected_columns) table.entries ++ rows_of tables

  add_entries-table :
      (columns : List TableColumnType) (entries : List TableEntry) (t : TextTable)
      → (add_entries lib columns none entries t).table ≡ t.table ++ map (row_of columns) entries
  unfolding add_entries add_debug_info add_fields
  add_entries-table columns [] t = sym (append-nil t.table)
  add_entries-table columns (entry ∷ entries) t =
      add_entries-table columns entries (add_fields t (map (get_field lib entry) columns))
      ∙ append_assoc t.table (row_of columns entry ∷ []) (map (row_of columns) entries)

  add_rows-table :
      (rows : List TextTableRow) (t : TextTable) → (add_rows t rows).table ≡ t.table ++ rows
  unfolding add_rows add_row
  add_rows-table [] t = sym (append-nil t.table)
  add_rows-table (row ∷ rows) t =
      add_rows-table rows (add_row t row) ∙ append_assoc t.table (row ∷ []) rows

  merge_tables-table :
      (tables : List Table) (t : TextTable)
      → (merge_tables lib tables t).table ≡ t.table ++ rows_of tables
  unfolding merge_tables add_all create_text_table
  merge_tables-table [] t = sym (append-nil t.table)
  merge_tables-table (table ∷ tables) t =
      let rows = (create_text_table lib table true none).table in
      merge_tables-table tables (add_rows t rows)
      ∙ ap (λ (r : List TextTableRow). r ++ rows_of tables)
          (add_rows-table rows t
            ∙ ap (◌++◌ t.table) (add_entries-table table.selected_columns table.entries no_table))
      ∙ append_assoc t.table (map (row_of table.selected_columns) table.entries) (rows_of tables)

  -- A merged table has one row for each entry of each of its tables, in order, with the columns that its
  -- own table selects, and nothing else.
  create_merged_table-rows :
      (tables : List Table) → (create_merged_table lib tables).table ≡ rows_of tables
  unfolding create_merged_table
  create_merged_table-rows tables = merge_tables-table tables no_table
