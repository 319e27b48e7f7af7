-- ===== src/Atrace/Kernel.antt =====
-- The settings of the kernel in atrace/atrace.cpp.
use cmds.Common.{
  ℕ, ◌+◌, ◌-◌, Bool, true, false, ◌&&◌, ◌||◌, List, [], ◌∷◌, ◌++◌, Bytes, codes, bytes_eq, Option,
  none, some, ◌==◌, if◌then◌else◌, ℤ, pos, less, leb, drop, take,
}
use cmds.CLib.Decimal.{signed_decimal}
use cmds.Paths.Validate.{contains}
use cmds.Atrace.{
  SysFile, Action, write, append, truncate, set_property, System, Done, ◌&=◌, nothing, fail,
  Categories, act, set_kernel_option_enable,
}

abbrev pub trace_clock_path : Bytes
trace_clock_path = codes "trace_clock"

abbrev pub trace_buffer_size_path : Bytes
trace_buffer_size_path = codes "buffer_size_kb"

abbrev pub tracing_overwrite_enable_path : Bytes
tracing_overwrite_enable_path = codes "options/overwrite"

abbrev pub current_tracer_path : Bytes
current_tracer_path = codes "current_tracer"

abbrev pub print_tgid_path : Bytes
print_tgid_path = codes "options/print-tgid"

abbrev pub record_tgid_path : Bytes
record_tgid_path = codes "options/record-tgid"

abbrev pub ftrace_filter_path : Bytes
ftrace_filter_path = codes "set_ftrace_filter"

abbrev pub tracing_on_path : Bytes
tracing_on_path = codes "tracing_on"

abbrev pub trace_path : Bytes
trace_path = codes "trace"

abbrev pub user_initiated_trace_property : Bytes
user_initiated_trace_property = codes "debug.atrace.user_initiated"

-- The text before the first separator, and the others.
unfoldable pub split_at : ℕ → Bytes → Bytes × List Bytes
split_at separator [] = ([], [])
split_at separator (c ∷ s) =
    let (first, rest) = split_at separator s in
    if c == separator then ([], first ∷ rest) else (c ∷ first, rest)

unfoldable pub not_empty : List Bytes → List Bytes
not_empty [] = []
not_empty ([] ∷ words) = not_empty words
not_empty ((c ∷ word) ∷ words) = (c ∷ word) ∷ not_empty words

-- What strtok gives with a separator of one byte.
unfoldable pub tokens : ℕ → Bytes → List Bytes
tokens separator s = let (first, rest) = split_at separator s in not_empty (first ∷ rest)

-- Whether one of the bytes is this one.
unfoldable pub has : ℕ → Bytes → Bool
has c [] = false
has c (x ∷ s) = x == c || has c s

unfoldable pub functions_valid : Bytes → List Bytes → Bool
functions_valid func_list [] = true
functions_valid func_list (func ∷ funcs) =
    (has b'*' func || contains (10 ∷ (func ++ 10 ∷ [])) func_list)
    && functions_valid func_list funcs

unfoldable pub new_clock : Bytes → Bytes
new_clock clock_str =
    if contains (codes "boot") clock_str
    then codes "boot"
    else if contains (codes "mono") clock_str
    then codes "mono"
    else codes "global"

-- std::string::find of a character.
unfoldable pub find_char : ℕ → Bytes → Option ℕ
find_char c [] = none
find_char c (x ∷ s) =
    let rest = find_char c s in
    if x == c then some 0 else elim rest [ none ↦ none | some i ↦ some (i + 1) ]

-- A length that wraps around goes to the end of the text.
abbrev pub from_to : Option ℕ → ℕ → Bytes → Bytes
from_to none begin s = drop begin s
from_to (some end) begin s =
    if leb begin end then take (end - begin) (drop begin s) else drop begin s

unfoldable pub current_clock : Bytes → Bytes
current_clock clock_str =
    let begin : ℕ = elim (find_char b'[' clock_str) [ none ↦ 0 | some i ↦ i + 1 ] in
    from_to (find_char b']' clock_str) begin clock_str

module _ (system : System) where
  unfoldable pub set_trace_overwrite_enable : Bool → Done
  set_trace_overwrite_enable enable =
      set_kernel_option_enable system tracing_overwrite_enable_path enable

  unfoldable pub set_user_initiated_trace_property : Bool → Done
  set_user_initiated_trace_property enable =
      act system (set_property user_initiated_trace_property (if enable then codes "1" else []))

  unfoldable pub set_tracing_enabled : Bool → Done
  set_tracing_enabled enable = set_kernel_option_enable system tracing_on_path enable

  unfoldable pub clear_trace : Done
  clear_trace = act system (truncate trace_path)

  unfoldable pub set_trace_buffer_size_kb : ℤ → Done
  set_trace_buffer_size_kb size =
      act system
        (write trace_buffer_size_path (signed_decimal (if less size (pos 1) then pos 1 else size)))

  unfoldable pub set_clock : Done
  set_clock =
      if bytes_eq (new_clock system.clock) (current_clock system.clock)
      then nothing
      else act system (write trace_clock_path (new_clock system.clock))

  unfoldable pub set_print_tgid_enable_if_present : Bool → Done
  set_print_tgid_enable_if_present enable =
      if system.exists print_tgid_path
      then set_kernel_option_enable system print_tgid_path enable
      else if system.exists record_tgid_path
      then set_kernel_option_enable system record_tgid_path enable
      else nothing

  abbrev pub disable_file : SysFile → Done
  disable_file f =
      if system.is_writable f.path then set_kernel_option_enable system f.path false else nothing

  unfoldable pub disable_files : List SysFile → Done
  disable_files [] = nothing
  disable_files (f ∷ files) = disable_file f &= disable_files files

  unfoldable pub disable_kernel_trace_events : Categories → Done
  disable_kernel_trace_events [] = nothing
  disable_kernel_trace_events ((c, enabled) ∷ cs) =
      disable_files c.sysfiles &= disable_kernel_trace_events cs

  abbrev pub enable_file : SysFile → Done
  enable_file f =
      if system.is_writable f.path
      then set_kernel_option_enable system f.path true
      else if f.required
      then fail
      else nothing

  unfoldable pub enable_files : List SysFile → Done
  enable_files [] = nothing
  enable_files (f ∷ files) = enable_file f &= enable_files files

  unfoldable pub enable_kernel_trace_events : Categories → Done
  enable_kernel_trace_events [] = nothing
  enable_kernel_trace_events ((c, enabled) ∷ cs) =
      (if enabled then enable_files c.sysfiles else nothing) &= enable_kernel_trace_events cs

  unfoldable pub verify_kernel_trace_funcs : Bytes → Bool
  verify_kernel_trace_funcs funcs = elim system.filter [
    | none ↦ false
    | some buf ↦ functions_valid (10 ∷ buf) (tokens b',' funcs)
  ]

  unfoldable pub append_filters : List Bytes → Done
  append_filters [] = nothing
  append_filters (func ∷ funcs) =
      act system (append ftrace_filter_path func) &= append_filters funcs

  abbrev pub if_writable : Bytes → Action → Done
  if_writable path action = if system.is_writable path then act system action else nothing

  unfoldable pub stop_tracing_functions : Done
  stop_tracing_functions =
      if_writable current_tracer_path (write current_tracer_path (codes "nop"))
      &= if_writable ftrace_filter_path (truncate ftrace_filter_path)

  unfoldable pub trace_functions : Bytes → Done
  trace_functions funcs =
      act system (write current_tracer_path (codes "function_graph"))
      &= set_kernel_option_enable system (codes "options/funcgraph-abstime") true
      &= set_kernel_option_enable system (codes "options/funcgraph-cpu") true
      &= set_kernel_option_enable system (codes "options/funcgraph-proc") true
      &= set_kernel_option_enable system (codes "options/funcgraph-flat") true
      &= act system (truncate ftrace_filter_path)
      &= append_filters (tokens b',' funcs)

  abbrev pub verified : Bytes → Done → Done
  verified funcs (actions, ok) = (actions, ok && verify_kernel_trace_funcs funcs)

  -- A null pointer is the empty text.
  unfoldable pub set_kernel_trace_funcs : Bytes → Done
  set_kernel_trace_funcs [] = stop_tracing_functions
  set_kernel_trace_funcs (c ∷ funcs) = verified (c ∷ funcs) (trace_functions (c ∷ funcs))
