-- ===== src/Dumpstate/Consent.antt =====
-- What the course of a bugreport in dumpstate/dumpstate.cpp does with the files, by the consent of the user.
use cmds.Common.{
  ◌≡◌, ◌≢◌, refl, Bool, true, false, List, none, some, ltb, if◌then◌else◌, if_elim, All, All-append,
}
use cmds.Dumpstate.{
  RunStatus, ok, help, invalid_input, error, user_consent_denied, user_consent_timed_out,
  DumpOptions, is_open,
}
use cmds.Dumpstate.Run.{
  UserConsent, approved, denied, unavailable, Artifact, temporary, screenshot, bugreport, Action,
  check_user_consent, start_service, broadcast_started, write_begin, take_screenshot, print_header,
  finalize_file, cancel_authorization, broadcast_finished, save_progress, vibrate, dump,
  wait_seconds, copy_to_caller, unlink, World, Stage, ◌and_then◌, stop, continue, act, act_if,
  stop_if, cleanup_files, handle_user_consent_denied, copy_by_consent, user_consent_timeout_ms,
  wait_for_consent, consent_result, copy_bugreport_if_user_consented, check_options, begin,
  tell_started, prepare, after_default, dump_state, share_screenshot, after_copy, share, finish,
  run_internal,
}

module _ (P : Action → Type 0) where
  -- Every action of the stage is such.
  unfoldable pub Only : Stage → Type 0
  Only stage = All P stage.0

  pub and_then-Only : (a b : Stage) → Only a → Only b → Only (a and_then b)
  unfolding Only
  and_then-Only (actions, some status) b h k = h
  and_then-Only (actions, none) b h k = All-append P actions b.0 h k

  pub act-Only : (a : Action) → P a → Only (act a)
  unfolding Only
  act-Only a h = (h, tt)

  pub act_if-Only : (test : Bool) (a : Action) → P a → Only (act_if test a)
  unfolding Only
  act_if-Only true a h = (h, tt)
  act_if-Only false a h = tt

  stop-Only : (status : RunStatus) → Only (stop status)
  unfolding Only
  stop-Only status = tt

  continue-Only : Only continue
  unfolding Only
  continue-Only = tt

  stop_if-Only : (test : Bool) (status : RunStatus) → Only (stop_if test status)
  unfolding Only
  stop_if-Only true status = tt
  stop_if-Only false status = tt

  act_if-All : (test : Bool) (a : Action) → P a → All P (act_if test a).0
  act_if-All true a h = (h, tt)
  act_if-All false a h = tt

  actions-Only : (actions : List Action) → All P actions → Only (actions, none)
  unfolding Only
  actions-Only actions h = h

-- What is copied and what is deleted is judged; all else is free.
unfoldable pub Judged : (Artifact → Type 0) → (Artifact → Type 0) → Action → Type 0
Judged Copied Deleted check_user_consent = Unit
Judged Copied Deleted start_service = Unit
Judged Copied Deleted broadcast_started = Unit
Judged Copied Deleted write_begin = Unit
Judged Copied Deleted take_screenshot = Unit
Judged Copied Deleted print_header = Unit
Judged Copied Deleted finalize_file = Unit
Judged Copied Deleted cancel_authorization = Unit
Judged Copied Deleted broadcast_finished = Unit
Judged Copied Deleted save_progress = Unit
Judged Copied Deleted (vibrate ms) = Unit
Judged Copied Deleted (dump section) = Unit
Judged Copied Deleted (wait_seconds n) = Unit
Judged Copied Deleted (copy_to_caller x) = Copied x
Judged Copied Deleted (unlink x) = Deleted x

module _ (Copied Deleted : Artifact → Type 0) (o : DumpOptions) (w : World) where
  abbrev P : Action → Type 0
  P = Judged Copied Deleted

  pub check_options-Only : Only P (check_options o w)
  unfolding check_options Judged
  check_options-Only =
      and_then-Only P _ _
        (and_then-Only P _ _ (stop_if-Only P _ invalid_input) (stop_if-Only P _ invalid_input))
        (if_elim (Only P) o.show_header_only
          (and_then-Only P _ _ (act-Only P print_header tt) (stop-Only P ok)) (continue-Only P))

  pub begin-Only : Only P (begin o w)
  unfolding begin Judged
  begin-Only =
      and_then-Only P _ _
        (and_then-Only P _ _
          (and_then-Only P _ _ (act_if-Only P _ check_user_consent tt)
            (act_if-Only P _ start_service tt))
          (stop_if-Only P _ error))
        (stop_if-Only P _ error)

  pub tell_started-Only : Only P (tell_started o w)
  unfolding tell_started Judged
  tell_started-Only =
      if_elim (Only P) _
        (and_then-Only P _ _ (act_if-Only P _ broadcast_started tt)
          (act_if-Only P _ write_begin tt))
        (continue-Only P)

  pub prepare-Only : Only P (prepare o w)
  unfolding prepare Judged
  prepare-Only =
      and_then-Only P _ _
        (and_then-Only P _ _
          (and_then-Only P _ _
            (and_then-Only P _ _ (act_if-Only P _ (vibrate 150) tt)
              (act_if-Only P _ take_screenshot tt))
            (stop_if-Only P _ error))
          (stop_if-Only P _ error))
        (act-Only P print_header tt)

  finish-Only : Only P (finish o w)
  unfolding finish Judged
  finish-Only =
      and_then-Only P _ _
        (and_then-Only P _ _
          (and_then-Only P _ _
            (if_elim (Only P) o.do_vibrate
              (and_then-Only P _ _
                (and_then-Only P _ _ (act-Only P (vibrate 75) tt) (act-Only P (vibrate 75) tt))
                (act-Only P (vibrate 75) tt))
              (continue-Only P))
            (act_if-Only P _ broadcast_finished tt))
          (act-Only P save_progress tt))
        (stop-Only P _)

  after_default-Only : ((x : Artifact) → Deleted x) → (s : RunStatus) → Only P (after_default o w s)
  unfolding after_default Only Judged handle_user_consent_denied cleanup_files
  after_default-Only h ok = tt
  after_default-Only h user_consent_timed_out = (h temporary, (h screenshot, (h bugreport, tt)))
  after_default-Only h user_consent_denied = tt
  after_default-Only h help = tt
  after_default-Only h invalid_input = tt
  after_default-Only h error = tt

  dump_state-Only : ((x : Artifact) → Deleted x) → Only P (dump_state o w)
  unfolding dump_state Judged
  dump_state-Only h =
      if_elim (Only P) o.telephony_only (and_then-Only P _ _ (act-Only P _ tt) (act-Only P _ tt)) (
        if_elim (Only P) o.wifi_only (act-Only P _ tt)
          (and_then-Only P _ _ (act-Only P _ tt) (after_default-Only h w.default_status)))

  share_screenshot-Only : Copied screenshot → Deleted screenshot → Only P (share_screenshot o w)
  unfolding share_screenshot Judged
  share_screenshot-Only h k =
      if_elim (Only P) _
        (and_then-Only P _ _ (act-Only P (copy_to_caller screenshot) h)
          (act_if-Only P _ (unlink screenshot) k))
        (continue-Only P)

  run_internal-Only : Only P (dump_state o w) → Only P (share o w) → Only P (run_internal o w)
  unfolding run_internal Judged
  run_internal-Only d s =
      and_then-Only P _ _
        (and_then-Only P _ _
          (and_then-Only P _ _
            (and_then-Only P _ _
              (and_then-Only P _ _
                (and_then-Only P _ _ (and_then-Only P _ _ check_options-Only begin-Only)
                  tell_started-Only)
                prepare-Only)
              d)
            (act_if-Only P _ finalize_file tt))
          s)
        finish-Only

-- The answer that counts for the copy.
abbrev pub decided : World → UserConsent
decided w = (consent_result w w.consent).1

-- What may be copied to the caller.
unfoldable pub MayCopy : World → Artifact → Type 0
MayCopy w temporary = ⊥
MayCopy w screenshot = decided w ≢ denied
MayCopy w bugreport = decided w ≡ approved

abbrev pub Anything : Artifact → Type 0
Anything x = Unit

module _ (o : DumpOptions) (w : World) where
  abbrev Q : Action → Type 0
  Q = Judged (MayCopy w) Anything

  waits-All : (c : UserConsent) → All Q (consent_result w c).0
  unfolding consent_result wait_for_consent Judged
  waits-All approved = tt
  waits-All denied = tt
  waits-All unavailable =
      act_if-All Q (ltb w.elapsed_ms user_consent_timeout_ms) (wait_seconds _) tt

  copied-All : (c : UserConsent) → decided w ≡ c → All Q (copy_by_consent w c).0
  unfolding copy_by_consent handle_user_consent_denied cleanup_files Judged MayCopy
  copied-All approved e = (e, if_elim (λ (s : Stage). All Q s.0) w.bugreport_copied (tt, tt) tt)
  copied-All denied e = (tt, (tt, (tt, tt)))
  copied-All unavailable e = tt

  after_copy-Only :
      (c : UserConsent) → decided w ≡ c → Only Q (after_copy o w (copy_by_consent w c).1)
  unfolding copy_by_consent Judged MayCopy after_copy
  after_copy-Only approved e =
      after_approved w.bugreport_copied
        (share_screenshot-Only (MayCopy w) Anything o w (λ d. cc) tt)
    where
      after_approved :
          (copied : Bool)
          → Only Q (share_screenshot o w)
          → Only Q (after_copy o w (if copied then ok else error))
      after_approved true h = h
      after_approved false h = stop-Only Q error
  after_copy-Only denied e = stop-Only Q user_consent_denied
  after_copy-Only unavailable e =
      and_then-Only Q (share_screenshot o w) (act_if w.companion cancel_authorization)
        (share_screenshot-Only (MayCopy w) Anything o w (λ d. cc) tt)
        (act_if-Only Q w.companion cancel_authorization tt)

  share-Only : Only Q (share o w)
  unfolding share copy_bugreport_if_user_consented
  share-Only =
      if_elim (Only Q) (is_open o.bugreport_fd)
        (and_then-Only Q _ _
          (actions-Only Q _ (All-append Q _ _ (waits-All w.consent) (copied-All (decided w) refl)))
          (after_copy-Only (decided w) refl))
        (continue-Only Q)

  -- Whatever happens, the caller of a bugreport is given the report only where the user has approved
  -- by the time that it is to be copied, after the wait for an answer; it is given the screenshot only where the user has
  -- not denied by then, and never the temporary file.
  pub run_internal-MayCopy : All (Judged (MayCopy w) Anything) (run_internal o w).0
  unfolding Only
  run_internal-MayCopy =
      run_internal-Only (MayCopy w) Anything o w
        (dump_state-Only (MayCopy w) Anything o w (λ x. tt)) share-Only
