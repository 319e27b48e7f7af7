-- ===== src/Dumpstate/Valid.antt =====
-- The options that a mode gives in dumpstate/dumpstate.cpp, and what reading the properties leaves.
use cmds.Common.{ℕ, ◌≡◌, refl, true, Option, none, some}
use cmds.Dumpstate.{
  BugreportMode, bugreport_full, bugreport_interactive, bugreport_remote, bugreport_wear,
  bugreport_telephony, bugreport_wifi, bugreport_default, with_mode, set_options_from_mode,
  initialize_mode, validate_options,
}

-- Whatever the mode, and whether or not there are files of the caller, the options that a caller of the
-- binder service gets are accepted.
validate_options-initialize_mode :
    (mode : BugreportMode) (bugreport_fd screenshot_fd : Option ℕ)
    → validate_options (initialize_mode mode bugreport_fd screenshot_fd) ≡ true
unfolding validate_options initialize_mode set_options_from_mode with_mode
validate_options-initialize_mode bugreport_full none s = refl
validate_options-initialize_mode bugreport_full (some b) s = refl
validate_options-initialize_mode bugreport_interactive none s = refl
validate_options-initialize_mode bugreport_interactive (some b) s = refl
validate_options-initialize_mode bugreport_remote none s = refl
validate_options-initialize_mode bugreport_remote (some b) s = refl
validate_options-initialize_mode bugreport_wear none s = refl
validate_options-initialize_mode bugreport_wear (some b) s = refl
validate_options-initialize_mode bugreport_telephony none s = refl
validate_options-initialize_mode bugreport_telephony (some b) s = refl
validate_options-initialize_mode bugreport_wifi none s = refl
validate_options-initialize_mode bugreport_wifi (some b) s = refl
validate_options-initialize_mode bugreport_default none s = refl
validate_options-initialize_mode bugreport_default (some b) s = refl
