-- ===== src/Atrace/Run.antt =====
-- main of atrace/atrace.cpp, from what getopt_long makes of the words of the command line, and the setting up and
-- cleaning up of the kernel's tracing.
use cmds.Common.{
  Bool, true, false, not, ◌&&◌, ◌||◌, List, [], ◌∷◌, ◌++◌, Bytes, Option, none, some, if◌then◌else◌,
  ℤ, pos, negsuc, less, of_word,
}
use cmds.CLib.{atoi}
use cmds.Atrace.{
  Action, clock_sync_marker, stream, dump, sleep, System, Done, ◌&=◌, nothing, Tracing,
  set_category_enable, set_categories_enable_from_file,
}
use cmds.Atrace.Kernel.{
  set_trace_overwrite_enable, set_user_initiated_trace_property, set_tracing_enabled, clear_trace,
  set_trace_buffer_size_kb, set_clock, set_print_tgid_enable_if_present,
  disable_kernel_trace_events, enable_kernel_trace_events, set_kernel_trace_funcs,
}
use cmds.Atrace.Userspace.{
  set_up_userspace_tracing, clean_up_userspace_tracing, set_up_vendor_tracing,
  clean_up_vendor_tracing,
}

-- What getopt_long returns, with optarg; `unknown` is any other.
pub data Opt : Type 0 where
  debug_app buffer_size file kernel_funcs initial_sleep duration output : Bytes → Opt
  overwrite nohup compress : Opt
  async_start async_stop async_dump only_userspace stream_option list_categories unknown : Opt

-- -n, -z and -o change nothing of what is done to the system.
pub record Options : Type 0 where
  pub debug_app_cmd_line : Bytes
  pub categories_file : Option Bytes
  pub trace_overwrite : Bool
  pub trace_buffer_size_kb : ℤ
  pub kernel_trace_funcs : Bytes
  pub initial_sleep_secs : ℤ
  pub trace_duration_seconds : ℤ
  pub async : Bool
  pub trace_start : Bool
  pub trace_stop : Bool
  pub trace_dump : Bool
  pub trace_stream : Bool
  pub only_userspace : Bool

abbrev pub default_options : Options
default_options = record {
  debug_app_cmd_line = [];
  categories_file = none;
  trace_overwrite = false;
  trace_buffer_size_kb = pos 2048;
  kernel_trace_funcs = [];
  initial_sleep_secs = pos 0;
  trace_duration_seconds = pos 5;
  async = false;
  trace_start = true;
  trace_stop = true;
  trace_dump = true;
  trace_stream = false;
  only_userspace = false;
}

-- The options after one of them, or the code of exit.
pub data Read : Type 0 where
  go : Options → Read
  exit : ℤ → Read

unfoldable pub read_option : Opt → Options → Read
read_option (debug_app s) o = go (record o { debug_app_cmd_line = s })
read_option (buffer_size s) o = go (record o { trace_buffer_size_kb = of_word (atoi s) })
read_option overwrite o = go (record o { trace_overwrite = true })
read_option (file s) o = go (record o { categories_file = some s })
read_option (kernel_funcs s) o = go (record o { kernel_trace_funcs = s })
read_option nohup o = go o
read_option (initial_sleep s) o = go (record o { initial_sleep_secs = of_word (atoi s) })
read_option (duration s) o = go (record o { trace_duration_seconds = of_word (atoi s) })
read_option compress o = go o
read_option (output s) o = go o
read_option async_start o =
    go (record o { async = true; trace_stop = false; trace_dump = false; trace_overwrite = true })
read_option async_stop o = go (record o { async = true; trace_start = false })
read_option async_dump o = go (record o { async = true; trace_start = false; trace_stop = false })
read_option only_userspace o = go (record o { only_userspace = true })
read_option stream_option o = go (record o { trace_stream = true; trace_dump = false })
read_option list_categories o = exit (pos 0)
read_option unknown o = exit (negsuc 0)

abbrev pub and_read : (Options → Read) → Read → Read
and_read f (go o) = f o
and_read f (exit code) = exit code

unfoldable pub read_options : List Opt → Options → Read
read_options [] o = go o
read_options (opt ∷ opts) o = and_read (read_options opts) (read_option opt o)

unfoldable pub is_allowed : Options → Bool
is_allowed o = not o.only_userspace || o.async && (o.trace_start || o.trace_stop)

-- Where main ends: its code, and what it has done; `ok` is its variable.
pub data Exit : Type 0 where
  exited : ℤ → Exit
  ran : Bool → List Action → Exit

-- The words behind the options; false where one is refused.
unfoldable pub enable_all : System → List Bytes → Tracing → Tracing × Bool
enable_all system [] t = (t, true)
enable_all system (name ∷ names) t =
    let (next, ok) = set_category_enable system name t in
    let rest = enable_all system names next in if ok then rest else (next, false)

module _ (system : System) where
  unfoldable pub set_up_kernel_tracing : Options → Tracing → Tracing × Done
  set_up_kernel_tracing o t =
      let (next, found) = set_categories_enable_from_file system o.categories_file t in
      (
        next,
        set_user_initiated_trace_property system true
            &= ([], found)
            &= set_trace_overwrite_enable system o.trace_overwrite
            &= set_trace_buffer_size_kb system o.trace_buffer_size_kb
            &= set_clock system
            &= set_print_tgid_enable_if_present system true
            &= set_kernel_trace_funcs system o.kernel_trace_funcs
            &= disable_kernel_trace_events system next.categories
            &= enable_kernel_trace_events system next.categories,
      )

  unfoldable pub clean_up_kernel_tracing : Tracing → Done
  clean_up_kernel_tracing t =
      disable_kernel_trace_events system t.categories
      &= set_trace_overwrite_enable system true
      &= set_trace_buffer_size_kb system (pos 1)
      &= set_print_tgid_enable_if_present system false
      &= set_kernel_trace_funcs system []
      &= set_user_initiated_trace_property system false

  -- What is set up in the kernel and by the vendor, where the processes are set up.
  unfoldable pub set_up_rest : Options → Tracing × Done → Tracing × Done
  set_up_rest o (t, (actions, false)) = (t, (actions, false))
  set_up_rest o (t, (actions, true)) =
      let (next, kernel) = set_up_kernel_tracing o t in
      if o.only_userspace then (t, (actions, true)) else (
        next,
        (actions, true)
            &= kernel
            &= set_up_vendor_tracing system next
            &= set_tracing_enabled system true,
      )

  unfoldable pub wait : Options → Bool → List Action
  wait o ok =
      (if ok && not o.async && not o.trace_stream then sleep o.trace_duration_seconds ∷ [] else [])
      ++ (if o.trace_stream then stream ∷ [] else [])

  -- `ok` is then whether the trace was cleared.
  unfoldable pub capture : Options → Tracing × Done → Tracing × Done
  capture o (t, (actions, false)) = (t, (actions, false))
  capture o (t, (actions, true)) =
      let (cleared, ok) = if o.only_userspace then nothing else clear_trace system in
      (t, (actions ++ (cleared ++ clock_sync_marker ∷ wait o ok), ok))

  unfoldable pub start : Options → Tracing → Tracing × Done
  start o t =
      if o.trace_start
      then capture o (set_up_rest o (set_up_userspace_tracing system o.debug_app_cmd_line t))
      else (t, nothing)

  unfoldable pub first_sleep : Options → List Action
  first_sleep o = if less (pos 0) o.initial_sleep_secs then sleep o.initial_sleep_secs ∷ [] else []

  unfoldable pub stop : Options → List Action
  stop o = if o.trace_stop && not o.only_userspace then (set_tracing_enabled system false).0 else []

  -- A dump that is aborted by a signal only clears the trace.
  unfoldable pub dump_trace : Bool → Options → Bool → List Action
  dump_trace aborted o ok =
      if ok && o.trace_dump && not o.only_userspace
      then (if aborted then [] else dump ∷ []) ++ (clear_trace system).0
      else []

  unfoldable pub clean_up : Options → Tracing → List Action
  clean_up o t =
      if o.trace_stop
      then (clean_up_vendor_tracing system t).0
        ++ ((clean_up_userspace_tracing system t).0
            ++ (if o.only_userspace then [] else (clean_up_kernel_tracing t).0))
      else []

  unfoldable pub run : Bool → Options → Tracing → Bool × List Action
  run aborted o t =
      let (last, (actions, ok)) = start o t in
      (ok, first_sleep o ++ (actions ++ (stop o ++ (dump_trace aborted o ok ++ clean_up o last))))

  abbrev pub run_allowed : Bool → Options → Tracing → Exit
  run_allowed aborted o t =
      let (ok, actions) = run aborted o t in if is_allowed o then ran ok actions else exited (pos 1)

  abbrev pub run_enabled : Bool → Options → Tracing × Bool → Exit
  run_enabled aborted o (t, true) = run_allowed aborted o t
  run_enabled aborted o (t, false) = exited (pos 1)

  abbrev pub run_read : Bool → List Bytes → Tracing → Read → Exit
  run_read aborted names t (go o) = run_enabled aborted o (enable_all system names t)
  run_read aborted names t (exit code) = exited code

  -- From the options, the words behind them, and the vendor's categories.
  unfoldable pub main : Bool → List Opt → List Bytes → Tracing → Exit
  main aborted opts names t = run_read aborted names t (read_options opts default_options)
