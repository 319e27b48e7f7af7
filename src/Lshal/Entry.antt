-- ===== src/Lshal/Entry.antt =====
-- lshal/TableEntry.cpp: what a table shows of each service, and the tables of a listing. The texts that
-- libvintf, libhidl and libbase make are arguments. A pid is the 32-bit number with its bits.
use cmds.Common.{
  ℕ, Bool, true, List, [], ◌∷◌, ◌++◌, map, Bytes, codes, bytes_eq, Option, none, some, ◌==◌,
  if◌then◌else◌, bit_and,
}
use cmds.Common.{of_word}
use cmds.CLib.Decimal.{decimal, signed_decimal}
use cmds.Lshal.{TextTable, no_table, to_hex_string, join, add_fields, add_line, add_all}

-- vintf::Arch
pub data Arch : Type 0 where
  arch_64 arch_32 arch_32_64 arch_empty : Arch

pub data ServiceStatus : Type 0 where
  unknown alive non_responsive declared : ServiceStatus

pub data TableColumnType : Type 0 where
  interface_name transport server_pid server_cmd server_addr client_pids client_cmds :
      TableColumnType
  arch threads released hash vintf service_status : TableColumnType

pub record TableEntry : Type 0 where
  pub interface_name : Bytes
  pub transport : ℕ
  pub server_pid : ℕ
  pub thread_usage : ℕ
  pub thread_count : ℕ
  pub server_cmdline : Bytes
  pub server_object_address : ℕ
  pub client_pids : List ℕ
  pub client_cmdlines : List Bytes
  pub arch : Arch
  pub hash : Bytes
  pub vintf_info : ℕ
  pub service_status : ServiceStatus

-- vintf::to_string of a transport, base::Join by a comma, and Hash::hexString(Hash::kEmptyHash).
pub record Libraries : Type 0 where
  pub transport_text : ℕ → Bytes
  pub join_commas : List Bytes → Bytes
  pub unreleased : Bytes

abbrev pub no_pid : ℕ
no_pid = 4294967295

abbrev pub no_ptr : ℕ
no_ptr = 0

abbrev pub not_available : Bytes
not_available = codes "N/A"

unfoldable pub get_arch_string : Arch → Bytes
get_arch_string arch_64 = codes "64"
get_arch_string arch_32 = codes "32"
get_arch_string arch_32_64 = codes "32+64"
get_arch_string arch_empty = codes "?"

unfoldable pub get_title : TableColumnType → Bytes
get_title interface_name = codes "Interface"
get_title transport = codes "Transport"
get_title server_pid = codes "Server"
get_title server_cmd = codes "Server CMD"
get_title server_addr = codes "PTR"
get_title client_pids = codes "Clients"
get_title client_cmds = codes "Clients CMD"
get_title arch = codes "Arch"
get_title threads = codes "Thread Use"
get_title released = codes "R"
get_title hash = codes "Hash"
get_title vintf = codes "VINTF"
get_title service_status = codes "Status"

-- The text of an int.
abbrev pub int_text : ℕ → Bytes
int_text n = signed_decimal (of_word n)

unfoldable pub get_thread_usage : TableEntry → Bytes
get_thread_usage entry =
    if entry.thread_count == 0
    then not_available
    else decimal entry.thread_usage ++ (codes "/" ++ decimal entry.thread_count)

unfoldable pub is_released : Libraries → TableEntry → Bytes
is_released lib entry =
    if bytes_eq entry.hash []
    then codes "?"
    else if bytes_eq entry.hash lib.unreleased
    then codes "N"
    else codes "Y"

-- Whether a bit of vintfInfo is set: its text, or nothing.
unfoldable pub vintf_value : ℕ → ℕ → Bytes → List Bytes
vintf_value info bit text = if bit_and info bit == 0 then [] else text ∷ []

unfoldable pub get_vintf_info : Libraries → TableEntry → Bytes
get_vintf_info lib entry =
    let info = entry.vintf_info in
    let joined = lib.join_commas (
      vintf_value info 1 (codes "DM")
      ++ (vintf_value info 2 (codes "DC")
          ++ (vintf_value info 4 (codes "FM") ++ vintf_value info 8 (codes "FC")))) in
    if bytes_eq joined [] then codes "X" else joined

unfoldable pub status_text : ServiceStatus → Bytes
status_text alive = codes "alive"
status_text non_responsive = codes "non-responsive"
status_text declared = codes "declared"
status_text unknown = not_available

unfoldable pub get_field : Libraries → TableEntry → TableColumnType → Bytes
get_field lib entry interface_name = entry.interface_name
get_field lib entry transport = lib.transport_text entry.transport
get_field lib entry server_pid =
    if entry.server_pid == no_pid then not_available else int_text entry.server_pid
get_field lib entry server_cmd = entry.server_cmdline
get_field lib entry server_addr =
    if entry.server_object_address == no_ptr
    then not_available
    else to_hex_string entry.server_object_address
get_field lib entry client_pids = join (map int_text entry.client_pids) (codes " ")
get_field lib entry client_cmds = join entry.client_cmdlines (codes ";")
get_field lib entry arch = get_arch_string entry.arch
get_field lib entry threads = get_thread_usage entry
get_field lib entry released = is_released lib entry
get_field lib entry hash = entry.hash
get_field lib entry vintf = get_vintf_info lib entry
get_field lib entry service_status = status_text entry.service_status

pub record Table : Type 0 where
  pub description : Bytes
  pub entries : List TableEntry
  pub selected_columns : List TableColumnType

-- emitDebugInfo, which may be nothing, for one entry.
unfoldable pub add_debug_info : Option (Bytes → Bytes) → TableEntry → TextTable → TextTable
add_debug_info none entry t = t
add_debug_info (some emit) entry t =
    let info = emit entry.interface_name in if bytes_eq info [] then t else add_line t info

module _ (lib : Libraries) where
  unfoldable pub add_entries :
      List TableColumnType → Option (Bytes → Bytes) → List TableEntry → TextTable → TextTable
  add_entries columns emit [] t = t
  add_entries columns emit (entry ∷ entries) t =
      add_entries columns emit entries
        (add_debug_info emit entry (add_fields t (map (get_field lib entry) columns)))

  unfoldable pub add_titles : Table → TextTable → TextTable
  add_titles table t =
      add_fields (add_line t table.description) (map get_title table.selected_columns)

  unfoldable pub create_text_table : Table → Bool → Option (Bytes → Bytes) → TextTable
  create_text_table table neat emit =
      add_entries table.selected_columns emit table.entries
        (if neat then no_table else add_titles table no_table)

  -- The tables of a MergedTable, from a table on; each is neat and without debug information.
  unfoldable pub merge_tables : List Table → TextTable → TextTable
  merge_tables [] t = t
  merge_tables (table ∷ tables) t =
      merge_tables tables (add_all t (create_text_table table true none))

  unfoldable pub create_merged_table : List Table → TextTable
  create_merged_table tables = merge_tables tables no_table
