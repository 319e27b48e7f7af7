-- ===== src/Dumpstate/Tests.antt =====
-- The theorems on the course of a bugreport in dumpstate at small worlds.
use cmds.Common.{◌≡◌, refl, true, false, List, [], ◌∷◌, ◌++◌, codes, bytes_eq, some, All}
use cmds.Dumpstate.{
  RunStatus, ok, user_consent_denied, user_consent_timed_out, bugreport_full, DumpOptions, is_open,
  initialize_mode, set_options_from_mode, with_mode, validate_options,
}
use cmds.Dumpstate.Run.{
  unavailable, dump_default, screenshot, Action, check_user_consent, vibrate, print_header, dump,
  finalize_file, wait_seconds, copy_to_caller, unlink, cancel_authorization, broadcast_finished,
  save_progress, World, run_internal, share, check_options, is_supported, begin, tell_started,
  prepare, after_default, dump_state, share_screenshot, after_copy, final_status, finish,
  copy_bugreport_if_user_consented, copy_by_consent, consent_result, wait_for_consent,
}
use cmds.Dumpstate.Consent.{decided, Judged, MayCopy, Anything, run_internal-MayCopy}
use cmds.Dumpstate.Denied.{Nothing, run_internal-denied, share-unanswered}

abbrev options : DumpOptions
options = initialize_mode bugreport_full (some 5) (some 6)

abbrev world : RunStatus → World
world default_status = record {
  version = codes "2.0";
  socket_opens = true;
  control_socket_opens = true;
  log_opens = true;
  tmp_opens = true;
  default_status = default_status;
  consent = unavailable;
  elapsed_ms = 12500;
  consent_later = unavailable;
  consent_at_end = unavailable;
  bugreport_copied = true;
  screenshot_copied = true;
  companion = true;
  bugreport_made = true;
}

-- A full report of which the user has not approved: the screenshot goes to the caller.
run_internal-options : run_internal options (world ok) ≡ (
  check_user_consent
      ∷ vibrate 150
      ∷ print_header
      ∷ dump dump_default
      ∷ finalize_file
      ∷ wait_seconds 17
      ∷ copy_to_caller screenshot
      ∷ unlink screenshot
      ∷ cancel_authorization
      ∷ vibrate 75
      ∷ vibrate 75
      ∷ vibrate 75
      ∷ broadcast_finished
      ∷ save_progress
      ∷ [],
  some user_consent_timed_out,
)
unfolding initialize_mode set_options_from_mode with_mode validate_options run_internal
    check_options is_supported bytes_eq begin tell_started prepare after_default dump_state share
    share_screenshot after_copy final_status finish copy_bugreport_if_user_consented copy_by_consent
    consent_result wait_for_consent
run_internal-options = refl

options_telephony : options.telephony_only ≡ false
unfolding initialize_mode set_options_from_mode with_mode
options_telephony = refl

options_wifi : options.wifi_only ≡ false
unfolding initialize_mode set_options_from_mode with_mode
options_wifi = refl

options_report : is_open options.bugreport_fd ≡ true
unfolding initialize_mode set_options_from_mode with_mode
options_report = refl

options_screenshot : is_open options.screenshot_fd ≡ true
unfolding initialize_mode set_options_from_mode with_mode
options_screenshot = refl

options_fb : options.do_fb ≡ true
unfolding initialize_mode set_options_from_mode with_mode
options_fb = refl

unanswered : decided (world ok) ≡ unavailable
unfolding consent_result
unanswered = refl

run_internal-MayCopy_example :
    All (Judged (MayCopy (world ok)) Anything) (run_internal options (world ok)).0
run_internal-MayCopy_example = run_internal-MayCopy options (world ok)

run_internal-denied_example :
    All (Judged Nothing Nothing) (run_internal options (world user_consent_denied)).0
run_internal-denied_example =
    run_internal-denied options (world user_consent_denied) options_telephony options_wifi refl

share-unanswered_example :
    (earlier : List Action) × (later : List Action) × ((share options (world ok)).0
      ≡ earlier ++ copy_to_caller screenshot ∷ later)
share-unanswered_example =
    share-unanswered options (world ok) options_report options_screenshot options_fb unanswered
