-- ===== src/Lshal/Tests.antt =====
-- The theorems on the tables of lshal at small tables.
use cmds.Common.{ℕ, ◌≡◌, refl, false, [], ◌∷◌, ◌++◌, Bytes, codes, none, All, of_word}
use cmds.CLib.Decimal.{decimal, signed_decimal, push_digits}
use cmds.Lshal.{
  dump, dump_rows, dump_row, dump_fields, add_fields, add_line, compute_width, to_hex_string,
  push_hex, join,
}
use cmds.Lshal.Entry.{
  TableEntry, Table, Libraries, interface_name, server_pid, server_addr, arch_64, alive, get_field,
  get_title, create_text_table, create_merged_table, add_titles, add_entries, add_debug_info,
}
use cmds.Lshal.Aligned.{IsAligned}
use cmds.Lshal.Columns.{create_text_table-IsAligned}

abbrev lib : Libraries
lib = record {
  transport_text = λ t. codes "hwbinder";
  join_commas = λ texts. join texts (codes ",");
  unreleased = codes "00";
}

abbrev entry : Bytes → ℕ → ℕ → TableEntry
entry name pid address = record {
  interface_name = name;
  transport = 1;
  server_pid = pid;
  thread_usage = 1;
  thread_count = 4;
  server_cmdline = codes "/vendor/bin/hw";
  server_object_address = address;
  client_pids = 17 ∷ 18 ∷ [];
  client_cmdlines = codes "a" ∷ codes "b" ∷ [];
  arch = arch_64;
  hash = codes "00";
  vintf_info = 5;
  service_status = alive;
}

abbrev table : Table
table = record {
  description = codes "All services:";
  entries = entry (codes "IFoo") 12 48879 ∷ entry (codes "ILongName") 4294967295 0 ∷ [];
  selected_columns = interface_name ∷ server_addr ∷ server_pid ∷ [];
}

dump-table :
    dump (create_text_table lib table false none)
    ≡ codes "All services:\n"
      ++ (codes "Interface PTR              Server\n"
          ++ (codes "IFoo      000000000000beef 12\n" ++ codes "ILongName N/A              N/A\n"))
unfolding dump dump_rows dump_row dump_fields create_text_table add_titles add_entries
    add_debug_info add_fields add_line compute_width get_field get_title to_hex_string push_hex
    signed_decimal decimal push_digits of_word
dump-table = refl

create_text_table-IsAligned_example :
    All
      (IsAligned (create_text_table lib table false none).widths)
      (create_text_table lib table false none).table
    × All
        (IsAligned (create_merged_table lib (table ∷ [])).widths)
        (create_merged_table lib (table ∷ [])).table
create_text_table-IsAligned_example = create_text_table-IsAligned lib table false none (table ∷ [])
