-- ===== src/Atrace/Tagged.antt =====
-- Which tags atrace/atrace.cpp gives to the processes.
use cmds.Common.{
  ℕ, ◌+◌, ◌≡◌, refl, sym, Bool, true, false, not, ◌&&◌, List, [], ◌∷◌, ◌++◌, append_assoc, Bytes,
  bytes_eq, if◌then◌else◌, if_elim, All, All-append, ℤ,
}
use cmds.Atrace.{
  SysFile, Action, write, append, truncate, set_property, poke_binder, poke_hal, poke_pdx,
  clock_sync_marker, stream, dump, enable_vendor, disable_vendor, sleep, System, Done, ◌&=◌,
  nothing, set_kernel_option_enable, Categories, Tracing, set_categories_enable_from_file,
  pdx_service_category,
}
use cmds.Atrace.Kernel.{
  split_at, tokens, set_trace_overwrite_enable, set_user_initiated_trace_property,
  set_trace_buffer_size_kb, set_tracing_enabled, clear_trace, set_clock, new_clock, current_clock,
  set_print_tgid_enable_if_present, disable_files, disable_kernel_trace_events, enable_files,
  enable_kernel_trace_events, append_filters, stop_tracing_functions, trace_functions,
  set_kernel_trace_funcs, print_tgid_path, record_tgid_path, current_tracer_path,
  ftrace_filter_path,
}
use cmds.Atrace.Userspace.{
  trace_tags_property, app_property, print_tags, enabled_tags, is_enabled, set_tags_property,
  clear_app_properties, or_clear, set_apps, set_app_cmdline_property, set_up_userspace_tracing,
  enabled_vendors, enable_vendors, set_up_vendor_tracing,
}
use cmds.Atrace.Run.{Options, set_up_kernel_tracing, set_up_rest, wait, capture, start}

abbrev pub tag_of : Action → List Bytes
tag_of (set_property key s) = if bytes_eq key trace_tags_property then s ∷ [] else []
tag_of _ = []

-- The texts that the property of the tags is set to.
unfoldable pub tags_set : List Action → List Bytes
tags_set [] = []
tags_set (a ∷ actions) = tag_of a ++ tags_set actions

-- The action does not set the tags.
abbrev IsOther : Action → Type 0
IsOther (set_property key s) = bytes_eq key trace_tags_property ≡ false
IsOther _ = Unit {0}

tag_of-IsOther : (a : Action) → IsOther a → tag_of a ≡ []
tag_of-IsOther (set_property key s) h = rw h refl
tag_of-IsOther (write path s) h = refl
tag_of-IsOther (append path s) h = refl
tag_of-IsOther (truncate path) h = refl
tag_of-IsOther poke_binder h = refl
tag_of-IsOther poke_hal h = refl
tag_of-IsOther poke_pdx h = refl
tag_of-IsOther clock_sync_marker h = refl
tag_of-IsOther stream h = refl
tag_of-IsOther dump h = refl
tag_of-IsOther (enable_vendor names) h = refl
tag_of-IsOther disable_vendor h = refl
tag_of-IsOther (sleep n) h = refl

tags_set-IsOther : (xs : List Action) → All IsOther xs → tags_set xs ≡ []
unfolding tags_set
tags_set-IsOther [] h = refl
tags_set-IsOther (a ∷ xs) (h, k) = rw (tag_of-IsOther a h) (tags_set-IsOther xs k)

tags_set-append : (xs ys : List Action) → tags_set (xs ++ ys) ≡ tags_set xs ++ tags_set ys
unfolding tags_set
tags_set-append [] ys = refl
tags_set-append (a ∷ xs) ys =
    rw (tags_set-append xs ys) (sym (append_assoc (tag_of a) (tags_set xs) (tags_set ys)))

abbrev AreOther : Done → Type 0
AreOther d = All IsOther d.0

join-AreOther : (a b : Done) → AreOther a → AreOther b → AreOther (a &= b)
unfolding ◌&=◌
join-AreOther a b h k = All-append IsOther a.0 b.0 h k

module _ (system : System) where
  option-AreOther :
      (path : Bytes) (enable : Bool) → AreOther (set_kernel_option_enable system path enable)
  unfolding set_kernel_option_enable
  option-AreOther path enable = (tt, tt)

  disable_files-AreOther : (files : List SysFile) → AreOther (disable_files system files)
  unfolding disable_files
  disable_files-AreOther [] = tt
  disable_files-AreOther (f ∷ files) =
      join-AreOther _ _
        (if_elim AreOther (system.is_writable f.path) (option-AreOther f.path false) tt)
        (disable_files-AreOther files)

  disable-AreOther : (cs : Categories) → AreOther (disable_kernel_trace_events system cs)
  unfolding disable_kernel_trace_events
  disable-AreOther [] = tt
  disable-AreOther ((c, enabled) ∷ cs) =
      join-AreOther _ _ (disable_files-AreOther c.sysfiles) (disable-AreOther cs)

  enable_files-AreOther : (files : List SysFile) → AreOther (enable_files system files)
  unfolding enable_files
  enable_files-AreOther [] = tt
  enable_files-AreOther (f ∷ files) =
      join-AreOther _ _
        (if_elim AreOther (system.is_writable f.path) (option-AreOther f.path true)
          (if_elim AreOther f.required tt tt))
        (enable_files-AreOther files)

  enable-AreOther : (cs : Categories) → AreOther (enable_kernel_trace_events system cs)
  unfolding enable_kernel_trace_events
  enable-AreOther [] = tt
  enable-AreOther ((c, true) ∷ cs) =
      join-AreOther _ _ (enable_files-AreOther c.sysfiles) (enable-AreOther cs)
  enable-AreOther ((c, false) ∷ cs) = join-AreOther nothing _ tt (enable-AreOther cs)

  append_filters-AreOther : (funcs : List Bytes) → AreOther (append_filters system funcs)
  unfolding append_filters
  append_filters-AreOther [] = tt
  append_filters-AreOther (func ∷ funcs) =
      join-AreOther _ _ (tt, tt) (append_filters-AreOther funcs)

  stop-AreOther : AreOther (stop_tracing_functions system)
  unfolding stop_tracing_functions
  stop-AreOther =
      join-AreOther _ _ (if_elim AreOther (system.is_writable current_tracer_path) (tt, tt) tt)
        (if_elim AreOther (system.is_writable ftrace_filter_path) (tt, tt) tt)

  functions-AreOther : (funcs : Bytes) → AreOther (set_kernel_trace_funcs system funcs)
  unfolding set_kernel_trace_funcs trace_functions ◌&=◌ set_kernel_option_enable
  functions-AreOther [] = stop-AreOther
  functions-AreOther (c ∷ funcs) =
      (tt, (tt, (tt, (tt, (tt, (tt, append_filters-AreOther (tokens b',' (c ∷ funcs))))))))

  clock-AreOther : AreOther (set_clock system)
  unfolding set_clock
  clock-AreOther =
      if_elim AreOther (bytes_eq (new_clock system.clock) (current_clock system.clock)) tt (tt, tt)

  tgid-AreOther : (enable : Bool) → AreOther (set_print_tgid_enable_if_present system enable)
  unfolding set_print_tgid_enable_if_present
  tgid-AreOther enable =
      if_elim AreOther (system.exists print_tgid_path) (option-AreOther print_tgid_path enable) (
        if_elim AreOther (system.exists record_tgid_path) (option-AreOther record_tgid_path enable)
          tt)

  initiated-AreOther : (enable : Bool) → AreOther (set_user_initiated_trace_property system enable)
  unfolding set_user_initiated_trace_property bytes_eq
  initiated-AreOther enable = (refl, tt)

  size-AreOther : (size : ℤ) → AreOther (set_trace_buffer_size_kb system size)
  unfolding set_trace_buffer_size_kb
  size-AreOther size = (tt, tt)

  overwrite-AreOther : (enable : Bool) → AreOther (set_trace_overwrite_enable system enable)
  unfolding set_trace_overwrite_enable
  overwrite-AreOther enable = option-AreOther _ enable

  enabled-AreOther : (enable : Bool) → AreOther (set_tracing_enabled system enable)
  unfolding set_tracing_enabled
  enabled-AreOther enable = option-AreOther _ enable

  cleared-AreOther : (only : Bool) → AreOther (if only then nothing else clear_trace system)
  unfolding clear_trace
  cleared-AreOther true = tt
  cleared-AreOther false = (tt, tt)

  kernel-AreOther : (o : Options) (t : Tracing) → AreOther (set_up_kernel_tracing system o t).1
  unfolding set_up_kernel_tracing
  kernel-AreOther o t =
      let (next, found) = set_categories_enable_from_file system o.categories_file t in
      join-AreOther _ _
        (join-AreOther _ _
          (join-AreOther _ _
            (join-AreOther _ _
              (join-AreOther _ _
                (join-AreOther _ _
                  (join-AreOther _ _ (join-AreOther _ ([], found) (initiated-AreOther true) tt)
                    (overwrite-AreOther o.trace_overwrite))
                  (size-AreOther o.trace_buffer_size_kb))
                clock-AreOther)
              (tgid-AreOther true))
            (functions-AreOther o.kernel_trace_funcs))
          (disable-AreOther next.categories))
        (enable-AreOther next.categories)

  vendors-AreOther : (names : List Bytes) → AreOther (enable_vendors system names)
  vendors-AreOther [] = tt
  vendors-AreOther (name ∷ names) = (tt, tt)

  vendor-AreOther : (t : Tracing) → AreOther (set_up_vendor_tracing system t)
  unfolding set_up_vendor_tracing
  vendor-AreOther t =
      if_elim AreOther system.has_hal
        (vendors-AreOther (enabled_vendors system t.vendor_categories)) tt

  apps-AreOther : (i : ℕ) (apps : List Bytes) → AreOther (set_apps system i apps)
  unfolding set_apps app_property bytes_eq
  apps-AreOther i [] = (refl, tt)
  apps-AreOther i (app ∷ apps) =
      if_elim AreOther (system.succeeds (set_property (app_property i) app))
        (refl, apps-AreOther (i + 1) apps) (refl, tt)

  clear-AreOther : AreOther (clear_app_properties system)
  unfolding clear_app_properties bytes_eq
  clear-AreOther = (refl, tt)

  or_clear-AreOther : (d : Done) → AreOther d → AreOther (or_clear system d)
  or_clear-AreOther (actions, true) h = h
  or_clear-AreOther (actions, false) h =
      All-append IsOther actions (clear_app_properties system).0 h clear-AreOther

  cmdline-AreOther : (cmdline : Bytes) → AreOther (set_app_cmdline_property system cmdline)
  unfolding set_app_cmdline_property
  cmdline-AreOther cmdline =
      let apps = (split_at b',' cmdline).0 ∷ (split_at b',' cmdline).1 in
      or_clear-AreOther (set_apps system 0 apps) (apps-AreOther 0 apps)

  wait-AreOther : (o : Options) (ok : Bool) → All IsOther (wait system o ok)
  unfolding wait
  wait-AreOther o ok =
      All-append IsOther _ _
        (if_elim (All IsOther) (ok && not o.async && not o.trace_stream) (tt, tt) tt)
        (if_elim (All IsOther) o.trace_stream (tt, tt) tt)

  -- The tags are set once, to this text.
  abbrev Sets : Bytes → List Action → Type 0
  Sets s actions = tags_set actions ≡ s ∷ []

  append-Sets : (s : Bytes) (xs ys : List Action) → Sets s xs → All IsOther ys → Sets s (xs ++ ys)
  append-Sets s xs ys h k = rw (tags_set-append xs ys, h, tags_set-IsOther ys k) refl

  join-Sets : (s : Bytes) (a b : Done) → Sets s a.0 → AreOther b → Sets s (a &= b).0
  unfolding ◌&=◌
  join-Sets s a b h k = append-Sets s a.0 b.0 h k

  userspace-Sets :
      (cmdline : Bytes) (t : Tracing)
      → Sets
          (print_tags (enabled_tags t.categories))
          (set_up_userspace_tracing system cmdline t).1.0
  unfolding set_up_userspace_tracing set_tags_property tags_set bytes_eq
  userspace-Sets cmdline t =
      let s = print_tags (enabled_tags t.categories) in
      join-Sets s _ _
        (join-Sets s _ _
          (join-Sets s (set_tags_property system (enabled_tags t.categories)) _ refl
            (cmdline-AreOther _))
          (tt, (tt, tt)))
        (if_elim AreOther (is_enabled pdx_service_category t.trace_pdx t.categories) (tt, tt) tt)

  rest-Sets :
      (s : Bytes) (o : Options) (t : Tracing) (d : Done)
      → Sets s d.0
      → Sets s (set_up_rest system o (t, d)).1.0
  unfolding set_up_rest
  rest-Sets s o t (actions, false) h = h
  rest-Sets s o t (actions, true) h =
      let (next, kernel) = set_up_kernel_tracing system o t in
      if_elim (λ (r : Tracing × Done). Sets s r.1.0) o.only_userspace h
        (join-Sets s _ _
          (join-Sets s _ _ (join-Sets s (actions, true) _ h (kernel-AreOther o t))
            (vendor-AreOther next))
          (enabled-AreOther true))

  capture-Sets :
      (s : Bytes) (o : Options) (t : Tracing) (d : Done)
      → Sets s d.0
      → Sets s (capture system o (t, d)).1.0
  unfolding capture
  capture-Sets s o t (actions, false) h = h
  capture-Sets s o t (actions, true) h =
      let (cleared, ok) : Done = if o.only_userspace then nothing else clear_trace system in
      append-Sets s actions _ h
        (All-append IsOther cleared _ (cleared-AreOther o.only_userspace) (tt, wait-AreOther o ok))

  -- What a run that starts a trace does to start it sets the tags of the processes once, to those of the
  -- categories that are enabled before, which are those of the command line: whatever file -f
  -- names and whatever is in it, its categories add no tags.
  pub start-tags :
      (o : Options) (t : Tracing)
      → o.trace_start ≡ true
      → tags_set (start system o t).1.0 ≡ print_tags (enabled_tags t.categories) ∷ []
  unfolding start
  start-tags o t starts =
      let s = print_tags (enabled_tags t.categories) in
      let (t1, d1) = set_up_userspace_tracing system o.debug_app_cmd_line t in
      let (t2, d2) = set_up_rest system o (t1, d1) in
      simp starts
        (capture-Sets s o t2 d2 (rest-Sets s o t1 d1 (userspace-Sets o.debug_app_cmd_line t)))
