-- ===== src/Dumpsys.antt =====
-- dumpsys/dumpsys.cpp: the options of dumpsys, and which services it dumps with which arguments. A
-- run is given what getopt_long makes of the arguments: the options in order, and the words behind.
-- What the platform's libraries name is the argument Platform.
pub mod Timeout
pub mod Choice
pub mod Tests
use cmds.Common.{
  ℕ, ◌*◌, ◌%◌, Bool, true, false, not, ◌&&◌, ◌||◌, List, [], ◌∷◌, ◌++◌, Bytes, bytes_eq, Option,
  none, some, ◌==◌, if◌then◌else◌, ℤ, pos, negsuc, of_word, zero, suc, ◌+◌, length, ltb,
}
use cmds.CLib.{strtol, Long, low_word, u32_mod}

-- IServiceManager's flags and PriorityDumper's arguments.
pub record Platform : Type 0 where
  pub flag_critical : ℕ
  pub flag_high : ℕ
  pub flag_normal : ℕ
  pub flag_default : ℕ
  pub flag_all : ℕ
  pub flag_proto : ℕ
  pub arg_priority : Bytes
  pub arg_critical : Bytes
  pub arg_high : Bytes
  pub arg_normal : Bytes
  pub arg_proto : Bytes

-- What getopt_long returns, with optarg; `unknown` is any other.
pub data Opt : Type 0 where
  skip proto help list_only unknown : Opt
  priority timeout timeout_ms : Bytes → Opt

pub record Options : Type 0 where
  pub show_list_only : Bool
  pub skip_services : Bool
  pub as_proto : Bool
  pub timeout_arg_ms : ℕ
  pub priority_flags : ℕ

unfoldable pub is_skipped : List Bytes → Bytes → Bool
is_skipped [] service = false
is_skipped (candidate ∷ skipped) service = bytes_eq candidate service || is_skipped skipped service

-- strtol as its callers see it without a number: 0, and endptr at the start.
unfoldable pub word_of : Bytes → Option Long → ℕ × Bytes
word_of s none = (0, s)
word_of s (some v) = (low_word v.is_negative v.size, v.rest)

unfoldable pub positive : ℤ → Bytes → Option ℕ
positive (pos n) [] = if n == 0 then none else some n
positive _ _ = none

-- The int of -T, and of -t in milliseconds, where the product wraps around.
unfoldable pub read_timeout_ms : Bytes → Option ℕ
read_timeout_ms s = let (w, rest) = word_of s (strtol 10 s) in positive (of_word w) rest

unfoldable pub read_timeout : Bytes → Option ℕ
read_timeout s =
    let (w, rest) = word_of s (strtol 10 s) in positive (of_word (w * 1000 % u32_mod)) rest

-- How main ends, with the dumps that it asks for: each a service and its arguments.
pub data Exit : Type 0 where
  success failure : Exit

pub data Read : Type 0 where
  options : Options → Read
  exit : Exit → Read

module _ (platform : Platform) where
  unfoldable pub convert_priority_type_to_bitmask : Bytes → Option ℕ
  convert_priority_type_to_bitmask type =
      if bytes_eq type platform.arg_critical
      then some platform.flag_critical
      else if bytes_eq type platform.arg_high
      then some platform.flag_high
      else if bytes_eq type platform.arg_normal
      then some platform.flag_normal
      else none

  unfoldable pub convert_bitmask_to_priority_type : ℕ → Bytes
  convert_bitmask_to_priority_type bitmask =
      if bitmask == platform.flag_critical
      then platform.arg_critical
      else if bitmask == platform.flag_high
      then platform.arg_high
      else if bitmask == platform.flag_normal
      then platform.arg_normal
      else []

  unfoldable pub with_flags : Options → Option ℕ → Read
  with_flags o none = exit failure
  with_flags o (some flags) = options (record o { priority_flags = flags })

  unfoldable pub with_timeout : Options → Option ℕ → Read
  with_timeout o none = exit failure
  with_timeout o (some ms) = options (record o { timeout_arg_ms = ms })

  unfoldable pub read_option : Options → Opt → Read
  read_option o skip = options (record o { skip_services = true })
  read_option o proto = options (record o { as_proto = true })
  read_option o help = exit success
  read_option o list_only = options (record o { show_list_only = true })
  read_option o unknown = exit failure
  read_option o (priority s) = with_flags o (convert_priority_type_to_bitmask s)
  read_option o (timeout s) = with_timeout o (read_timeout s)
  read_option o (timeout_ms s) = with_timeout o (read_timeout_ms s)

  unfoldable pub read_options : Options → List Opt → Read
  read_options o [] = options o
  read_options o (opt ∷ opts) = elim (read_option o opt) [
    | exit e ↦ exit e
    | options p ↦ read_options p opts
  ]

  -- setServiceArgs
  unfoldable pub set_service_args : List Bytes → Bool → ℕ → List Bytes
  set_service_args args as_proto flags =
      let with_proto = if as_proto then platform.arg_proto ∷ args else args in
      let with_all =
        if flags == platform.flag_all
          || flags == platform.flag_normal
          || flags == platform.flag_default
        then (b'-' ∷ b'a' ∷ []) ∷ with_proto
        else with_proto in
      if flags == platform.flag_critical
        || flags == platform.flag_high
        || flags == platform.flag_normal
      then platform.arg_priority ∷ convert_bitmask_to_priority_type flags ∷ with_all
      else with_all

-- lhs->compare(*rhs) < 0
unfoldable pub text_less : Bytes → Bytes → Bool
text_less [] [] = false
text_less [] (d ∷ t) = true
text_less (c ∷ s) [] = false
text_less (c ∷ s) (d ∷ t) = ltb c d || (c == d && text_less s t)

unfoldable pub insert_sorted : Bytes → List Bytes → List Bytes
insert_sorted s [] = s ∷ []
insert_sorted s (t ∷ ts) =
    let rest = insert_sorted s ts in if text_less t s then t ∷ rest else s ∷ t ∷ ts

-- services.sort(sort_func)
unfoldable pub sort : List Bytes → List Bytes
sort [] = []
sort (s ∷ ss) = insert_sorted s (sort ss)

-- std::set_intersection; the fuel is the length of both ranges, one of which shrinks in each step.
unfoldable pub set_intersection : ℕ → List Bytes → List Bytes → List Bytes
set_intersection zero ss ts = []
set_intersection (suc fuel) [] ts = []
set_intersection (suc fuel) (s ∷ ss) [] = []
set_intersection (suc fuel) (s ∷ ss) (t ∷ ts) =
    if text_less s t
    then set_intersection fuel ss (t ∷ ts)
    else if text_less t s
    then set_intersection fuel (s ∷ ss) ts
    else s ∷ set_intersection fuel ss ts

-- The words behind the options.
pub record Words : Type 0 where
  pub services : List Bytes
  pub args : List Bytes
  pub skipped : List Bytes

unfoldable pub sort_words : Bool → List Bytes → Words
sort_words true words = record { services = []; args = []; skipped = words }
sort_words false [] = record { services = []; args = []; skipped = [] }
sort_words false (w ∷ words) = record { services = w ∷ []; args = words; skipped = [] }

unfoldable pub is_empty : List Bytes → Bool
is_empty [] = true
is_empty (s ∷ ss) = false

pub record Dump : Type 0 where
  pub service : Bytes
  pub args : List Bytes

-- The calls of startDumpThread.
unfoldable pub dumps : Words → List Bytes → List Bytes → List Dump
dumps w args [] = []
dumps w args (s ∷ ss) =
    let rest = dumps w args ss in
    if is_skipped w.skipped s then rest else record { service = s; args = args } ∷ rest

-- `registered` is sm_->listServices.
module _ (platform : Platform) (registered : ℕ → List Bytes) where
  unfoldable pub list_services : ℕ → Bool → List Bytes
  list_services flags filter_by_proto =
      let services = sort (registered flags) in
      let proto_services = sort (registered platform.flag_proto) in
      if filter_by_proto
      then set_intersection (length services + length proto_services) services proto_services
      else services

  unfoldable pub is_refused : Options → Words → Bool
  is_refused o w =
      (o.skip_services && is_empty w.skipped)
      || (o.show_list_only && (not (is_empty w.services) || not (is_empty w.skipped)))

  unfoldable pub run_words : Options → Words → Exit × List Dump
  run_words o w =
      if is_refused o w
      then (failure, [])
      else if o.show_list_only
      then (success, [])
      else if is_empty w.services
      then (
        success,
        dumps w (set_service_args platform w.args o.as_proto o.priority_flags)
            (list_services o.priority_flags o.as_proto),
      )
      else (success, dumps w w.args w.services)

  unfoldable pub run_options : List Bytes → Read → Exit × List Dump
  run_options words (exit e) = (e, [])
  run_options words (options o) = run_words o (sort_words o.skip_services words)

  unfoldable pub default_options : Options
  default_options = record {
    show_list_only = false;
    skip_services = false;
    as_proto = false;
    timeout_arg_ms = 10000;
    priority_flags = platform.flag_all;
  }

  unfoldable pub main : List Opt → List Bytes → Exit × List Dump
  main opts words = run_options words (read_options platform default_options opts)
