-- ===== src/Dumpstate.antt =====
-- dumpstate/dumpstate.cpp: the options of a bugreport, from the command line, from the system properties
-- or from a mode. What getopt returns is a list of characters, with '?' for an option that it does not
-- know. A file descriptor is `none` for -1.
pub mod Run
pub mod Progress
pub mod Fair
pub mod Stats
pub mod Valid
pub mod Consent
pub mod Denied
pub mod StatsTests
pub mod Tests
use cmds.Common.{
  ℕ, Bool, true, false, not, ◌&&◌, ◌||◌, List, [], ◌∷◌, ◌++◌, Bytes, codes, bytes_eq, Option, none,
  some, ◌==◌, if◌then◌else◌,
}

pub data RunStatus : Type 0 where
  ok help invalid_input error user_consent_denied user_consent_timed_out : RunStatus

pub data BugreportMode : Type 0 where
  bugreport_full bugreport_interactive bugreport_remote bugreport_wear : BugreportMode
  bugreport_telephony bugreport_wifi bugreport_default : BugreportMode

pub record DumpOptions : Type 0 where
  pub do_add_date : Bool
  pub do_zip_file : Bool
  pub do_vibrate : Bool
  pub use_socket : Bool
  pub use_control_socket : Bool
  pub do_fb : Bool
  pub do_broadcast : Bool
  pub is_remote_mode : Bool
  pub show_header_only : Bool
  pub do_start_service : Bool
  pub telephony_only : Bool
  pub wifi_only : Bool
  pub do_progress_updates : Bool
  pub bugreport_fd : Option ℕ
  pub screenshot_fd : Option ℕ
  pub extra_options : Bytes
  pub args : Bytes
  pub notification_title : Bytes
  pub notification_description : Bytes

abbrev pub initial_options : DumpOptions
initial_options = record {
  do_add_date = false;
  do_zip_file = false;
  do_vibrate = true;
  use_socket = false;
  use_control_socket = false;
  do_fb = false;
  do_broadcast = false;
  is_remote_mode = false;
  show_header_only = false;
  do_start_service = false;
  telephony_only = false;
  wifi_only = false;
  do_progress_updates = false;
  bugreport_fd = none;
  screenshot_fd = none;
  extra_options = [];
  args = [];
  notification_title = [];
  notification_description = [];
}

unfoldable pub mode_to_string : BugreportMode → Bytes
mode_to_string bugreport_full = codes "BUGREPORT_FULL"
mode_to_string bugreport_interactive = codes "BUGREPORT_INTERACTIVE"
mode_to_string bugreport_remote = codes "BUGREPORT_REMOTE"
mode_to_string bugreport_wear = codes "BUGREPORT_WEAR"
mode_to_string bugreport_telephony = codes "BUGREPORT_TELEPHONY"
mode_to_string bugreport_wifi = codes "BUGREPORT_WIFI"
mode_to_string bugreport_default = codes "BUGREPORT_DEFAULT"

-- The switch on the mode.
unfoldable pub with_mode : BugreportMode → DumpOptions → DumpOptions
with_mode bugreport_full options = record options { do_broadcast = true; do_fb = true }
with_mode bugreport_interactive options = record options {
  do_start_service = true;
  do_progress_updates = true;
  do_fb = false;
  do_broadcast = true;
}
with_mode bugreport_remote options = record options {
  do_vibrate = false;
  is_remote_mode = true;
  do_fb = false;
  do_broadcast = true;
}
with_mode bugreport_wear options = record options {
  do_start_service = true;
  do_progress_updates = true;
  do_zip_file = true;
  do_fb = true;
  do_broadcast = true;
}
with_mode bugreport_telephony options = record options {
  telephony_only = true;
  do_fb = false;
  do_broadcast = true;
}
with_mode bugreport_wifi options = record options {
  wifi_only = true;
  do_zip_file = true;
  do_fb = false;
  do_broadcast = true;
}
with_mode bugreport_default options = options

unfoldable pub set_options_from_mode : BugreportMode → DumpOptions → DumpOptions
set_options_from_mode mode options =
    with_mode mode (record options { extra_options = mode_to_string mode })

-- The system properties that are read; each is empty where it is not set.
pub record Properties : Type 0 where
  pub extra_options : Bytes
  pub extra_title : Bytes
  pub extra_description : Bytes

unfoldable pub mode_of : Bytes → BugreportMode
mode_of extra =
    if bytes_eq extra (codes "bugreportplus")
    then bugreport_interactive
    else if bytes_eq extra (codes "bugreportfull")
    then bugreport_full
    else if bytes_eq extra (codes "bugreportremote")
    then bugreport_remote
    else if bytes_eq extra (codes "bugreportwear")
    then bugreport_wear
    else if bytes_eq extra (codes "bugreporttelephony")
    then bugreport_telephony
    else if bytes_eq extra (codes "bugreportwifi")
    then bugreport_wifi
    else bugreport_default

unfoldable pub get_bugreport_mode_from_property : Properties → BugreportMode × Properties
get_bugreport_mode_from_property props =
    if bytes_eq props.extra_options []
    then (bugreport_default, props)
    else (mode_of props.extra_options, record props { extra_options = [] })

unfoldable pub set_description : DumpOptions → Properties → DumpOptions × Properties
set_description options props = (
  record options { notification_description = props.extra_description },
  record props { extra_description = [] },
)

unfoldable pub set_title : DumpOptions → Properties → DumpOptions × Properties
set_title options props =
    let titled : DumpOptions = record options { notification_title = props.extra_title } in
    if bytes_eq props.extra_title []
    then (titled, props)
    else set_description titled (record props { extra_title = [] })

unfoldable pub set_options_from_properties : DumpOptions → Properties → DumpOptions × Properties
set_options_from_properties options props =
    let (mode, rest) = get_bugreport_mode_from_property props in
    set_title (set_options_from_mode mode options) rest

-- One round of the getopt loop.
unfoldable pub set_option : ℕ → DumpOptions → DumpOptions
set_option c options =
    if c == b'd'
    then record options { do_add_date = true }
    else if c == b'z'
    then record options { do_zip_file = true }
    else if c == b's'
    then record options { use_socket = true }
    else if c == b'S'
    then record options { use_control_socket = true }
    else if c == b'v'
    then record options { show_header_only = true }
    else if c == b'q'
    then record options { do_vibrate = false }
    else if c == b'p'
    then record options { do_fb = true }
    else if c == b'P'
    then record options { do_progress_updates = true }
    else if c == b'R'
    then record options { is_remote_mode = true }
    else if c == b'B'
    then record options { do_broadcast = true }
    else options

abbrev pub is_one_of : ℕ → Bytes → Bool
is_one_of c [] = false
is_one_of c (x ∷ xs) = c == x || is_one_of c xs

unfoldable pub set_status : ℕ → RunStatus → RunStatus
set_status c status =
    if is_one_of c (codes "dzosSvqpPRBVw")
    then status
    else if c == b'h'
    then help
    else invalid_input

unfoldable pub read_options : Bytes → RunStatus → DumpOptions → RunStatus × DumpOptions
read_options [] status options = (status, options)
read_options (c ∷ cs) status options = read_options cs (set_status c status) (set_option c options)

unfoldable pub join_args : List Bytes → Bytes
join_args [] = []
join_args (a ∷ []) = a
join_args (a ∷ b ∷ argv) = a ++ b' ' ∷ join_args (b ∷ argv)

-- DumpOptions::Initialize(argc, argv). What getopt returns for the words is given.
unfoldable pub initialize : List Bytes → Bytes → Properties → RunStatus × DumpOptions × Properties
initialize argv opts props =
    let (status, options) = read_options opts ok initial_options in
    let (all, rest) =
      set_options_from_properties (record options { args = options.args ++ join_args argv })
        props in
    (status, all, rest)

-- DumpOptions::Initialize(mode, ...), with what dup gives.
unfoldable pub initialize_mode : BugreportMode → Option ℕ → Option ℕ → DumpOptions
initialize_mode mode bugreport_fd screenshot_fd =
    set_options_from_mode mode (record initial_options {
      do_add_date = true;
      do_zip_file = true;
      bugreport_fd = bugreport_fd;
      screenshot_fd = screenshot_fd;
      extra_options = mode_to_string mode;
    })

abbrev pub is_open : Option ℕ → Bool
is_open none = false
is_open (some fd) = true

abbrev pub output_to_file : DumpOptions → Bool
output_to_file options = not options.use_socket

unfoldable pub validate_options : DumpOptions → Bool
validate_options o =
    if is_open o.bugreport_fd && not o.do_zip_file
    then false
    else if (o.do_zip_file || o.do_add_date || o.do_progress_updates || o.do_broadcast)
        && not (output_to_file o)
    then false
    else if o.use_control_socket && not o.do_zip_file
    then false
    else if o.do_progress_updates && not o.do_broadcast
    then false
    else if o.is_remote_mode
        && (o.do_progress_updates || not o.do_broadcast || not o.do_zip_file || not o.do_add_date)
    then false
    else true
