-- ===== src/Atrace/Restored.antt =====
-- What a run of atrace/atrace.cpp that stops the trace leaves enabled in the kernel.
use cmds.Common.{
  ◌≡◌, refl, ap, ◌∙◌, Bool, true, false, List, [], ◌∷◌, ◌++◌, Bytes, codes, bytes_eq, bytes_eq_iff,
  starts_with, Option, none, some, if_elim, All, All-append, append_assoc, Bool-cases, Option-cases,
  inl, inr, pos,
}
use cmds.Atrace.{
  Action, write, System, Done, ◌&=◌, set_kernel_option_enable, Categories, is_category_supported,
  enable_category, set_category_enable, Tracing, enable_words, set_categories_enable_from_file,
}
use cmds.Atrace.Kernel.{
  set_trace_overwrite_enable, set_user_initiated_trace_property, set_trace_buffer_size_kb,
  set_print_tgid_enable_if_present, disable_kernel_trace_events, set_kernel_trace_funcs,
  stop_tracing_functions, tracing_overwrite_enable_path, trace_buffer_size_path, print_tgid_path,
  record_tgid_path, current_tracer_path, ftrace_filter_path,
}
use cmds.Atrace.Userspace.{
  set_up_userspace_tracing, clean_up_userspace_tracing, clean_up_vendor_tracing,
}
use cmds.Atrace.Run.{
  Options, set_up_kernel_tracing, clean_up_kernel_tracing, set_up_rest, capture, start, first_sleep,
  stop, dump_trace, clean_up, run,
}
use cmds.Atrace.Files.{Files, Spares, listed, after, after-append, after-Spares, after-disable}

module _ (system : System) (p : Bytes) where
  -- Enabling categories keeps their files.
  Keeps : Tracing → Tracing → Type 0
  Keeps before t = listed p t.categories ≡ listed p before.categories

  enable_category-listed :
      (name : Bytes) (cs : Categories) → listed p (enable_category system name cs).0 ≡ listed p cs
  unfolding enable_category
  enable_category-listed name [] = refl
  enable_category-listed name ((c, enabled) ∷ cs) = elim (Bool-cases (bytes_eq name c.name)) [
    | inr e ↦ rw (e, enable_category-listed name cs) refl
    | inl e ↦ elim (Bool-cases (is_category_supported system c)) [
      | inl s ↦ rw (e, s) refl
      | inr s ↦ rw (e, s) refl
    ]
  ]

  enable_words-listed :
      (words : List Bytes) (t : Tracing)
      → listed p (enable_words system words t).0.categories ≡ listed p t.categories
  unfolding enable_words set_category_enable
  enable_words-listed [] t = refl
  enable_words-listed ([] ∷ words) t = enable_words-listed words t
  enable_words-listed ((c ∷ word) ∷ words) t =
      enable_words-listed words (set_category_enable system (c ∷ word) t).0
      ∙ enable_category-listed (c ∷ word) t.categories

  from_file-listed :
      (file : Option Bytes) (t : Tracing)
      → listed p (set_categories_enable_from_file system file t).0.categories
        ≡ listed p t.categories
  unfolding set_categories_enable_from_file
  from_file-listed none t = refl
  from_file-listed (some file) t = elim (Option-cases (system.words_of file)) [
    | inl e ↦ rw (e, set_categories_enable_from_file) refl
    | inr (words, e) ↦ rw (e, set_categories_enable_from_file) (enable_words-listed words t)
  ]

  set_up_rest-listed :
      (o : Options) (t : Tracing) (d : Done)
      → listed p (set_up_rest system o (t, d)).0.categories ≡ listed p t.categories
  unfolding set_up_rest set_up_kernel_tracing
  set_up_rest-listed o t (actions, false) = refl
  set_up_rest-listed o t (actions, true) =
      if_elim (λ (r : Tracing × Done). listed p r.0.categories ≡ listed p t.categories)
        o.only_userspace refl (from_file-listed o.categories_file t)

  capture-listed :
      (o : Options) (t : Tracing) (d : Done)
      → listed p (capture system o (t, d)).0.categories ≡ listed p t.categories
  unfolding capture
  capture-listed o t (actions, false) = refl
  capture-listed o t (actions, true) = refl

  start-listed :
      (o : Options) (t : Tracing) → listed p (start system o t).0.categories ≡ listed p t.categories
  unfolding start set_up_userspace_tracing
  start-listed o t =
      let (t1, d1) = set_up_userspace_tracing system o.debug_app_cmd_line t in
      let (t2, d2) = set_up_rest system o (t1, d1) in
      if_elim (λ (r : Tracing × Done). listed p r.0.categories ≡ listed p t.categories)
        o.trace_start (capture-listed o t2 d2 ∙ set_up_rest-listed o t1 d1) refl

module _ (system : System) (p : Bytes) (event : starts_with p (codes "events/") ≡ true) where
  differs : (q : Bytes) → starts_with q (codes "events/") ≡ false → bytes_eq p q ≡ false
  differs q h = elim (Bool-cases (bytes_eq p q)) [
    | inr e ↦ e
    | inl e ↦ let same : p ≡ q = (bytes_eq_iff p q).0 e in cc (same, event, h)
  ]

  abbrev IsSpared : Done → Type 0
  IsSpared d = All (Spares p) d.0

  join-IsSpared : (a b : Done) → IsSpared a → IsSpared b → IsSpared (a &= b)
  unfolding ◌&=◌
  join-IsSpared a b h k = All-append (Spares p) a.0 b.0 h k

  tgid-IsSpared : (enable : Bool) → IsSpared (set_print_tgid_enable_if_present system enable)
  unfolding set_print_tgid_enable_if_present set_kernel_option_enable starts_with
  tgid-IsSpared enable =
      if_elim IsSpared (system.exists print_tgid_path) (differs print_tgid_path refl, tt)
        (if_elim IsSpared (system.exists record_tgid_path) (differs record_tgid_path refl, tt) tt)

  functions-IsSpared : IsSpared (set_kernel_trace_funcs system [])
  unfolding set_kernel_trace_funcs stop_tracing_functions starts_with
  functions-IsSpared =
      join-IsSpared _ _
        (if_elim IsSpared (system.is_writable current_tracer_path)
          (differs current_tracer_path refl, tt) tt)
        (if_elim IsSpared (system.is_writable ftrace_filter_path)
          (differs ftrace_filter_path refl, tt) tt)

  -- Behind the disabling of the events.
  abbrev clean_options : Done
  clean_options =
      set_trace_overwrite_enable system true
      &= set_trace_buffer_size_kb system (pos 1)
      &= set_print_tgid_enable_if_present system false
      &= set_kernel_trace_funcs system []
      &= set_user_initiated_trace_property system false

  clean_options-IsSpared : IsSpared clean_options
  unfolding set_trace_overwrite_enable set_trace_buffer_size_kb set_user_initiated_trace_property
      set_kernel_option_enable starts_with
  clean_options-IsSpared =
      join-IsSpared _ _
        (join-IsSpared _ _
          (join-IsSpared _ _
            (join-IsSpared _ _ (differs tracing_overwrite_enable_path refl, tt)
              (differs trace_buffer_size_path refl, tt))
            (tgid-IsSpared false))
          functions-IsSpared)
        (tt, tt)

  clean_up_kernel_tracing-disable :
      (t : Tracing)
      → (clean_up_kernel_tracing system t).0
        ≡ (disable_kernel_trace_events system t.categories).0 ++ clean_options.0
  unfolding clean_up_kernel_tracing ◌&=◌
  clean_up_kernel_tracing-disable t = simp append_assoc

  module _ (writable : system.is_writable p ≡ true)
      (off : system.succeeds (write p (codes "0")) ≡ true) where
    after_clean_up :
        (t : Tracing) (files : Files)
        → listed p t.categories ≡ true
        → after system (clean_up_kernel_tracing system t).0 files p ≡ codes "0"
    after_clean_up t files there =
        let disable = (disable_kernel_trace_events system t.categories).0 in
        rw (clean_up_kernel_tracing-disable t) (
          ap (λ g. g p) (after-append system disable clean_options.0 files)
          ∙ after-Spares system p clean_options.0 (after system disable files)
              clean_options-IsSpared
          ∙ after-disable system p writable t.categories files off
          ∙ rw there refl)

    clean_up_all :
        (o : Options) (t : Tracing)
        → o.trace_stop ≡ true
        → o.only_userspace ≡ false
        → clean_up system o t
          ≡ (clean_up_vendor_tracing system t).0
            ++ ((clean_up_userspace_tracing system t).0 ++ (clean_up_kernel_tracing system t).0)
    unfolding clean_up
    clean_up_all o t stops kernel = simp (stops, kernel)

    -- Whatever is traced, whatever else fails and whether or not a signal ends the trace, a run that is to
    -- stop the trace, and not only for the processes, leaves 0 in each file below events/ of
    -- its categories that is writable and takes 0.
    pub run-disabled :
        (aborted : Bool) (o : Options) (t : Tracing) (files : Files)
        → o.trace_stop ≡ true
        → o.only_userspace ≡ false
        → listed p t.categories ≡ true
        → after system (run system aborted o t).1 files p ≡ codes "0"
    unfolding run
    run-disabled aborted o t files stops kernel there =
        let (last, (actions, ok)) = start system o t in
        let processes = (clean_up_userspace_tracing system last).0 in
        let vendor = (clean_up_vendor_tracing system last).0 in
        let final = (clean_up_kernel_tracing system last).0 in
        rw (clean_up_all o last stops kernel) (
          behind (first_sleep system o) _ files (λ f1. behind actions _ f1 (λ f2.
            behind (stop system o) _ f2 (λ f3. behind (dump_trace system aborted o ok) _ f3 (λ f4.
              behind vendor _ f4 (λ f5.
                behind processes final f5
                  (λ f6. after_clean_up last f6 (start-listed system p o t ∙ there))))))))
      where
        behind :
            (xs ys : List Action) (f : Files)
            → ((g : Files) → after system ys g p ≡ codes "0")
            → after system (xs ++ ys) f p ≡ codes "0"
        behind xs ys f h = ap (λ g. g p) (after-append system xs ys f) ∙ h (after system xs f)
