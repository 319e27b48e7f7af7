-- ===== src/Dumpstate/Denied.antt =====
-- When the user denies consent in the course of a bugreport, in dumpstate/dumpstate.cpp.
use cmds.Common.{◌≡◌, refl, ap, ◌∙◌, Bool, true, false, List, [], ◌∷◌, ◌++◌, none, some, All}
use cmds.Dumpstate.{RunStatus, user_consent_denied, DumpOptions, is_open, output_to_file}
use cmds.Dumpstate.Run.{
  Artifact, temporary, screenshot, bugreport, denied, unavailable, cancel_authorization,
  copy_to_caller, after_copy, share_screenshot, Action, dump, dump_default, unlink, finalize_file,
  World, Stage, ◌and_then◌, act, act_if, check_options, begin, tell_started, prepare, after_default,
  dump_state, share, finish, run_internal, consent_result, copy_by_consent,
  handle_user_consent_denied, cleanup_files, copy_bugreport_if_user_consented,
}
use cmds.Dumpstate.Consent.{
  Only, and_then-Only, Judged, check_options-Only, begin-Only, tell_started-Only, prepare-Only,
  decided,
}

-- A stage at which the course ends.
abbrev Stops : Stage → Type 0
Stops stage = (status : RunStatus) × (stage.1 ≡ some status)

Stops-and_then : (a b : Stage) → Stops b → Stops (a and_then b)
Stops-and_then (actions, some status) b h = (status, refl)
Stops-and_then (actions, none) b h = h

stopped-and_then : (a b : Stage) → Stops a → (a and_then b) ≡ a
stopped-and_then (actions, some status) b h = refl
stopped-and_then (actions, none) b (status, e) = cc

abbrev pub Nothing : Artifact → Type 0
Nothing x = ⊥

screenshot_first :
    (copied companion : Bool)
    → (later : List Action) × ((act (copy_to_caller screenshot)
          and_then act_if copied (unlink screenshot)
          and_then act_if companion cancel_authorization).0
        ≡ copy_to_caller screenshot ∷ later)
screenshot_first true true = (unlink screenshot ∷ cancel_authorization ∷ [], refl)
screenshot_first true false = (unlink screenshot ∷ [], refl)
screenshot_first false true = (cancel_authorization ∷ [], refl)
screenshot_first false false = ([], refl)

module _ (o : DumpOptions) (w : World) where
  abbrev before : Stage
  before = check_options o w and_then begin o w and_then tell_started o w and_then prepare o w

  abbrev P : Action → Type 0
  P = Judged Nothing Nothing

  before-Only : Only P before
  before-Only =
      and_then-Only P _ _
        (and_then-Only P _ _
          (and_then-Only P _ _ (check_options-Only Nothing Nothing o w)
            (begin-Only Nothing Nothing o w))
          (tell_started-Only Nothing Nothing o w))
        (prepare-Only Nothing Nothing o w)

  stopped_dump :
      o.telephony_only ≡ false
      → o.wifi_only ≡ false
      → w.default_status ≡ user_consent_denied
      → dump_state o w ≡ (dump dump_default ∷ [], some user_consent_denied)
  unfolding dump_state after_default
  stopped_dump t f d = rw (t, f, d) refl

  stopped_run : Stops (dump_state o w) → run_internal o w ≡ (before and_then dump_state o w)
  unfolding run_internal
  stopped_run h =
      let whole = before and_then dump_state o w in
      let ends : Stops whole = Stops-and_then before (dump_state o w) h in
      ap (λ (s : Stage). s and_then share o w and_then finish o w)
        (stopped-and_then whole (act_if (output_to_file o) finalize_file) ends)
      ∙ ap (λ (s : Stage). s and_then finish o w) (stopped-and_then whole (share o w) ends)
      ∙ stopped-and_then whole (finish o w) ends

  -- Where the user has denied consent by the time of the copy, the three files are deleted, and the
  -- status says so.
  copy_bugreport_if_user_consented-denied :
      decided w ≡ denied
      → copy_bugreport_if_user_consented w ≡ (
        (consent_result w w.consent).0
            ++ unlink temporary ∷ unlink screenshot ∷ unlink bugreport ∷ [],
        user_consent_denied,
      )
  unfolding copy_bugreport_if_user_consented copy_by_consent handle_user_consent_denied
      cleanup_files
  copy_bugreport_if_user_consented-denied e = rw e refl

  -- When the sections of a full report find out that the user has denied consent, nothing is copied to
  -- the caller, but nothing is deleted either: the files of the report stay.
  pub run_internal-denied :
      o.telephony_only ≡ false
      → o.wifi_only ≡ false
      → w.default_status ≡ user_consent_denied
      → All (Judged Nothing Nothing) (run_internal o w).0
  unfolding Only Judged
  run_internal-denied t f d =
      let e = stopped_dump t f d in
      rw (stopped_run (user_consent_denied, ap (λ (s : Stage). s.1) e), e)
        (and_then-Only P before (dump dump_default ∷ [], some user_consent_denied) before-Only
          (tt, tt))

  -- Where the caller has given files for the report and for a screenshot, and the user has not answered by
  -- the time of the copy, after the wait, the screenshot is copied to the caller all the same.
  pub share-unanswered :
      is_open o.bugreport_fd ≡ true
      → is_open o.screenshot_fd ≡ true
      → o.do_fb ≡ true
      → decided w ≡ unavailable
      → (earlier : List Action) × (later : List Action) × ((share o w).0
          ≡ earlier ++ copy_to_caller screenshot ∷ later)
  unfolding share copy_bugreport_if_user_consented copy_by_consent after_copy share_screenshot
  share-unanswered b s f e =
      let (later, q) = screenshot_first w.screenshot_copied w.companion in
      let earlier = (consent_result w w.consent).0 ++ [] in
      (earlier, later, rw (b, e, f, s) (ap (◌++◌ earlier) q))
