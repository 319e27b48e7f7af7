-- ===== src/Dumpstate/Run.antt =====
-- Dumpstate::RunInternal of dumpstate/dumpstate.cpp: the course of a bugreport. What the calls answer
-- is given, and what is done is a list of actions, the dumps of a section as one. Priorities, file owners and the
-- duplicates of stdout and stderr are left out.
use cmds.Common.{
  ℕ, ◌-◌, ◌/◌, Bool, not, ◌&&◌, ◌||◌, List, [], ◌∷◌, ◌++◌, Bytes, codes, bytes_eq, Option, none,
  some, ltb, if◌then◌else◌,
}
use cmds.Dumpstate.{
  RunStatus, ok, help, invalid_input, error, user_consent_denied, user_consent_timed_out,
  DumpOptions, is_open, output_to_file, validate_options,
}

-- UserConsentResult
pub data UserConsent : Type 0 where
  approved denied unavailable : UserConsent

pub data Section : Type 0 where
  dump_telephony dump_board dump_wifi dump_default : Section

pub data Artifact : Type 0 where
  temporary screenshot bugreport : Artifact

pub data Action : Type 0 where
  check_user_consent start_service broadcast_started write_begin take_screenshot : Action
  print_header finalize_file cancel_authorization broadcast_finished save_progress : Action
  vibrate : ℕ → Action
  dump : Section → Action
  wait_seconds : ℕ → Action
  copy_to_caller : Artifact → Action
  unlink : Artifact → Action

-- What the calls answer. The consent is asked for before the copy, after the wait and at the end.
pub record World : Type 0 where
  pub version : Bytes
  pub socket_opens : Bool
  pub control_socket_opens : Bool
  pub log_opens : Bool
  pub tmp_opens : Bool
  pub default_status : RunStatus
  pub consent : UserConsent
  pub elapsed_ms : ℕ
  pub consent_later : UserConsent
  pub consent_at_end : UserConsent
  pub bugreport_copied : Bool
  pub screenshot_copied : Bool
  pub companion : Bool
  pub bugreport_made : Bool

-- The actions, and the status where RunInternal returns.
abbrev pub Stage : Type 0
Stage = List Action × Option RunStatus

infixl 5 ◌and_then◌
abbrev pub ◌and_then◌ : Stage → Stage → Stage
(actions, some status) and_then r = (actions, some status)
(actions, none) and_then r = (actions ++ r.0, r.1)

abbrev pub stop : RunStatus → Stage
stop status = ([], some status)

abbrev pub continue : Stage
continue = ([], none)

abbrev pub act : Action → Stage
act a = (a ∷ [], none)

abbrev pub act_if : Bool → Action → Stage
act_if test a = if test then act a else continue

abbrev pub stop_if : Bool → RunStatus → Stage
stop_if test status = if test then stop status else continue

-- version_ is one that is supported, after the default is replaced.
unfoldable pub is_supported : Bytes → Bool
is_supported version =
    bytes_eq version (codes "default")
    || bytes_eq version (codes "2.0")
    || bytes_eq version (codes "3.0-dev-split-anr")

unfoldable pub cleanup_files : Stage
cleanup_files =
    act (unlink temporary) and_then act (unlink screenshot) and_then act (unlink bugreport)

unfoldable pub handle_user_consent_denied : Stage
handle_user_consent_denied = cleanup_files and_then stop user_consent_denied

abbrev pub user_consent_timeout_ms : ℕ
user_consent_timeout_ms = 30000

module _ (w : World) where
  abbrev pub copy_status : RunStatus
  copy_status = if w.bugreport_copied then ok else error

  -- What is done, and the status.
  unfoldable pub copy_by_consent : UserConsent → List Action × RunStatus
  copy_by_consent denied = (handle_user_consent_denied.0, user_consent_denied)
  copy_by_consent approved =
      (copy_to_caller bugreport ∷ (act_if w.bugreport_copied (unlink bugreport)).0, copy_status)
  copy_by_consent unavailable = ([], user_consent_timed_out)

  unfoldable pub wait_for_consent : Stage
  wait_for_consent =
      act_if (ltb w.elapsed_ms user_consent_timeout_ms)
        (wait_seconds ((user_consent_timeout_ms - w.elapsed_ms) / 1000))

  -- The answer that counts, and the wait for it.
  unfoldable pub consent_result : UserConsent → List Action × UserConsent
  consent_result unavailable = (wait_for_consent.0, w.consent_later)
  consent_result approved = ([], approved)
  consent_result denied = ([], denied)

  unfoldable pub copy_bugreport_if_user_consented : List Action × RunStatus
  copy_bugreport_if_user_consented =
      let (waits, consent) = consent_result w.consent in
      let (actions, status) = copy_by_consent consent in (waits ++ actions, status)

module _ (o : DumpOptions) (w : World) where
  unfoldable pub check_options : Stage
  check_options =
      stop_if (not (validate_options o)) invalid_input
      and_then stop_if (not (is_supported w.version)) invalid_input
      and_then (if o.show_header_only then act print_header and_then stop ok else continue)

  unfoldable pub begin : Stage
  begin =
      act_if (is_open o.bugreport_fd) check_user_consent
      and_then act_if o.do_start_service start_service
      and_then stop_if (o.use_socket && not w.socket_opens) error
      and_then stop_if (o.use_control_socket && not w.control_socket_opens) error

  -- With a control socket there are progress updates.
  unfoldable pub tell_started : Stage
  tell_started =
      if output_to_file o && (o.do_progress_updates || o.use_control_socket)
      then act_if o.do_broadcast broadcast_started and_then act_if o.use_control_socket write_begin
      else continue

  -- do_early_screenshot_ was set before the control socket was opened; the path of the screenshot is
  -- empty where the output is not a file.
  unfoldable pub prepare : Stage
  prepare =
      act_if o.do_vibrate (vibrate 150)
      and_then act_if (o.do_fb && o.do_progress_updates && output_to_file o) take_screenshot
      and_then stop_if (output_to_file o && not w.log_opens) error
      and_then stop_if (output_to_file o && not w.tmp_opens) error
      and_then act print_header

  unfoldable pub after_default : RunStatus → Stage
  after_default ok = continue
  after_default user_consent_timed_out = (handle_user_consent_denied.0, some user_consent_timed_out)
  after_default user_consent_denied = stop user_consent_denied
  after_default help = stop help
  after_default invalid_input = stop invalid_input
  after_default error = stop error

  unfoldable pub dump_state : Stage
  dump_state =
      if o.telephony_only
      then act (dump dump_telephony) and_then act (dump dump_board)
      else if o.wifi_only
      then act (dump dump_wifi)
      else act (dump dump_default) and_then after_default w.default_status

  unfoldable pub share_screenshot : Stage
  share_screenshot =
      if o.do_fb && is_open o.screenshot_fd
      then act (copy_to_caller screenshot) and_then act_if w.screenshot_copied (unlink screenshot)
      else continue

  unfoldable pub after_copy : RunStatus → Stage
  after_copy ok = share_screenshot
  after_copy user_consent_timed_out =
      share_screenshot and_then act_if w.companion cancel_authorization
  after_copy user_consent_denied = stop user_consent_denied
  after_copy help = stop help
  after_copy invalid_input = stop invalid_input
  after_copy error = stop error

  unfoldable pub share : Stage
  share =
      if is_open o.bugreport_fd
      then (let (actions, status) = copy_bugreport_if_user_consented w in
          (actions, none) and_then after_copy status)
      else continue

  unfoldable pub final_status : RunStatus
  final_status =
      if is_open o.bugreport_fd
      then elim w.consent_at_end [
        | approved ↦ ok
        | denied ↦ ok
        | unavailable ↦ user_consent_timed_out
      ]
      else ok

  unfoldable pub finish : Stage
  finish =
      (if o.do_vibrate
        then act (vibrate 75) and_then act (vibrate 75) and_then act (vibrate 75)
        else continue)
      and_then act_if (o.do_broadcast && w.bugreport_made) broadcast_finished
      and_then act save_progress
      and_then stop final_status

  unfoldable pub run_internal : Stage
  run_internal =
      check_options
      and_then begin
      and_then tell_started
      and_then prepare
      and_then dump_state
      and_then act_if (output_to_file o) finalize_file
      and_then share
      and_then finish

-- What Run tells the listener.
pub data Told : Type 0 where
  finished failed_input failed_runtime failed_denied failed_timed_out : Told

unfoldable pub tell_listener : RunStatus → Option Told
tell_listener ok = some finished
tell_listener help = none
tell_listener invalid_input = some failed_input
tell_listener error = some failed_runtime
tell_listener user_consent_denied = some failed_denied
tell_listener user_consent_timed_out = some failed_timed_out
