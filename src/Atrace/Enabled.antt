-- ===== src/Atrace/Enabled.antt =====
-- Which events atrace/atrace.cpp enables in the kernel.
use cmds.Common.{
  ◌≡◌, refl, ap, ◌∙◌, Bool, true, false, not, ◌&&◌, ◌||◌, List, [], ◌∷◌, ◌++◌, Bytes, codes,
  bytes_eq, if◌then◌else◌, if_elim, All, Bool-cases, inl, inr, arith, ◌==◌,
}
use cmds.Atrace.{
  SysFile, TracingCategory, Action, write, System, ◌&=◌, Categories, all_off,
  set_kernel_option_enable, core_service_category, pdx_service_category, supported_files,
  is_category_supported, enable_category, set_category_enable, Tracing,
  set_categories_enable_from_file,
}
use cmds.Atrace.Table.{Tags, k_categories}
use cmds.Atrace.Kernel.{
  disable_kernel_trace_events, enable_files, enable_kernel_trace_events, set_trace_overwrite_enable,
  set_user_initiated_trace_property, set_trace_buffer_size_kb, set_clock,
  set_print_tgid_enable_if_present, set_kernel_trace_funcs,
}
use cmds.Atrace.Run.{Options, set_up_kernel_tracing, enable_all}
use cmds.Atrace.Files.{Files, listed, is_wanted, after, after-append, after-disable, after-enable}

-- Nothing is wanted that is not there.
wanted-listed : (p : Bytes) (cs : Categories) → listed p cs ≡ false → is_wanted p cs ≡ false
wanted-listed p [] h = refl
wanted-listed p ((c, true) ∷ cs) h = ground (arith, wanted-listed p cs)
wanted-listed p ((c, false) ∷ cs) h = ground (arith, wanted-listed p cs)

unfoldable has_no_files : List SysFile → Bool
has_no_files [] = true
has_no_files (f ∷ files) = false

module _ (system : System) where
  -- Where a file of a category is writable, and the kernel takes 0 and 1 for it, it holds 1 after the kernel
  -- is set up where an enabled category has the file, and 0 where none has, however many
  -- categories have it and whatever it held before; the categories that the file of -f enables
  -- count as enabled.
  pub set_up_kernel_tracing-files :
      (o : Options) (t : Tracing) (p : Bytes) (files : Files)
      → system.is_writable p ≡ true
      → system.succeeds (write p (codes "0")) ≡ true
      → system.succeeds (write p (codes "1")) ≡ true
      → listed p (set_up_kernel_tracing system o t).0.categories ≡ true
      → after system (set_up_kernel_tracing system o t).1.0 files p ≡ (
          if is_wanted p (set_up_kernel_tracing system o t).0.categories
          then codes "1"
          else codes "0")
  unfolding set_up_kernel_tracing ◌&=◌
  set_up_kernel_tracing-files o t p files writable off on there =
      let (next, found) = set_categories_enable_from_file system o.categories_file t in
      let cs = next.categories in
      let options : List Action =
        (set_user_initiated_trace_property system true
          &= ([], found)
          &= set_trace_overwrite_enable system o.trace_overwrite
          &= set_trace_buffer_size_kb system o.trace_buffer_size_kb
          &= set_clock system
          &= set_print_tgid_enable_if_present system true
          &= set_kernel_trace_funcs system o.kernel_trace_funcs).0 in
      let disable = (disable_kernel_trace_events system cs).0 in
      ap (λ g. g p)
        (after-append system (options ++ disable) (enable_kernel_trace_events system cs).0 files)
      ∙ after-enable system p writable cs (after system (options ++ disable) files) on
      ∙ ap (λ s. if is_wanted p cs then codes "1" else s)
          (ap (λ g. g p) (after-append system options disable files)
            ∙ after-disable system p writable cs (after system options files) off
            ∙ rw there refl)

  -- A category that needs no files has none.
  unfoldable is_plain : TracingCategory → Bool
  is_plain c =
      has_no_files c.sysfiles
      || not (bytes_eq c.name core_service_category || bytes_eq c.name pdx_service_category)

  unfoldable are_plain : List TracingCategory → Bool
  are_plain [] = true
  are_plain (c ∷ cs) = is_plain c && are_plain cs

  abbrev IsSupported : TracingCategory × Bool → Type 0
  IsSupported (c, enabled) =
      (is_plain c ≡ true) × (enabled ≡ true → is_category_supported system c ≡ true)

  enable_category-IsSupported :
      (name : Bytes) (cs : Categories)
      → All IsSupported cs
      → All IsSupported (enable_category system name cs).0
  unfolding enable_category
  enable_category-IsSupported name [] h = tt
  enable_category-IsSupported name ((c, enabled) ∷ cs) (h, k) =
      elim (Bool-cases (bytes_eq name c.name)) [
        | inr e ↦ rw e (h, enable_category-IsSupported name cs k)
        | inl e ↦ elim (Bool-cases (is_category_supported system c)) [
          | inl s ↦ rw (e, s) ((h.0, λ _. s), k)
          | inr s ↦ rw (e, s) (h, k)
        ]
      ]

  enable_all-IsSupported :
      (names : List Bytes) (t : Tracing)
      → All IsSupported t.categories
      → All IsSupported (enable_all system names t).0.categories
  unfolding enable_all set_category_enable
  enable_all-IsSupported [] t h = h
  enable_all-IsSupported (name ∷ names) t h =
      let (next, ok) = set_category_enable system name t in
      let k : All IsSupported next.categories = enable_category-IsSupported name t.categories h in
      if_elim (λ (r : Tracing × Bool). All IsSupported r.0.categories) ok
        (enable_all-IsSupported names next k) k

  all_off-IsSupported :
      (cs : List TracingCategory) → are_plain cs ≡ true → All IsSupported (all_off cs)
  unfolding are_plain
  all_off-IsSupported [] h = tt
  all_off-IsSupported (c ∷ cs) h = ((ground arith, λ e. cc), all_off-IsSupported cs (ground arith))

  k_categories_plain : (tags : Tags) → are_plain (k_categories tags) ≡ true
  unfolding are_plain is_plain has_no_files bytes_eq core_service_category pdx_service_category
  k_categories_plain tags = refl

  module _ (all_succeed : (a : Action) → system.succeeds a ≡ true) where
    supported_files-enable :
        (ok : Bool) (files : List SysFile)
        → supported_files system ok files ≡ true
        → (enable_files system files).1 ≡ true
    unfolding supported_files enable_files set_kernel_option_enable ◌&=◌
    supported_files-enable ok [] h = refl
    supported_files-enable ok (f ∷ files) h = ground (
      arith,
      all_succeed (write f.path (codes "1")),
      supported_files-enable (system.is_writable f.path || ok) files,
    )

    no_files-enable :
        (files : List SysFile) → has_no_files files ≡ true → (enable_files system files).1 ≡ true
    unfolding has_no_files enable_files
    no_files-enable [] h = refl
    no_files-enable (f ∷ files) h = cc

    category-enable :
        (c : TracingCategory)
        → is_plain c ≡ true
        → is_category_supported system c ≡ true
        → (enable_files system c.sysfiles).1 ≡ true
    unfolding is_plain is_category_supported
    category-enable c h k =
        ground
          (arith, no_files-enable c.sysfiles, supported_files-enable (not (c.tags == 0)) c.sysfiles)

    categories-enable :
        (cs : Categories) → All IsSupported cs → (enable_kernel_trace_events system cs).1 ≡ true
    unfolding enable_kernel_trace_events ◌&=◌
    categories-enable [] h = refl
    categories-enable ((c, true) ∷ cs) ((plain, supported), k) =
        rw (category-enable c plain (supported refl), categories-enable cs k) refl
    categories-enable ((c, false) ∷ cs) (h, k) = categories-enable cs k

    -- Where every action succeeds, no category that the command line can enable fails when the kernel is set
    -- up: a file that it requires is never found to be missing or not writable there.
    pub enable_all-enable :
        (tags : Tags) (names : List Bytes) (t : Tracing)
        → t.categories ≡ all_off (k_categories tags)
        → (enable_kernel_trace_events system (enable_all system names t).0.categories).1 ≡ true
    enable_all-enable tags names t fresh =
        categories-enable (enable_all system names t).0.categories (
          enable_all-IsSupported names t
            (rw fresh (all_off-IsSupported (k_categories tags) (k_categories_plain tags))))
