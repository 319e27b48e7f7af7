-- ===== src/Dexopt/Filter.antt =====
-- Which compiler filter RunDex2Oat of installd/dexopt.cpp asks for.
use cmds.Common.{
  ◌≡◌, refl, ap, ◌∙◌, Bool, true, false, not, List, [], ◌∷◌, ◌++◌, Bytes, codes, starts_with,
  Option, none, some, if◌then◌else◌, ℤ, pos, negsuc, if_elim, All, Bool-cases, Option-cases, inl,
  inr, append-nil, ◌==◌, bytes_eq,
}
use cmds.Dexopt.{rfind}
use cmds.Dexopt.Compiler.{
  System, Added, arg, runtime_arg, no_text, add_arg, add_each, only_if, format_property, prefixed,
  fd_arg, RunDex2Oat, map_property_to_arg, skip_compilation, resolve_startup_string_arg, boot_image,
  compiler_filter_arg, base_dir, class_loader_context_fds_arg, target_sdk_version_arg, first_args,
  last_args, dex2oat_args,
}

abbrev pub filter_key : Bytes
filter_key = codes "--compiler-filter="

-- The arguments that choose a compiler filter.
unfoldable pub filters : List Bytes → List Bytes
filters [] = []
filters (s ∷ args) = let rest = filters args in if starts_with s filter_key then s ∷ rest else rest

-- From whether /data is not there yet, the filter asked for, and that of the system property.
abbrev pub wanted : Bool → Option Bytes → Bytes → List Bytes
wanted true asked property = (filter_key ++ codes "extract") ∷ []
wanted false (some filter) property = (filter_key ++ filter) ∷ []
wanted false none [] = []
wanted false none (c ∷ s) = (filter_key ++ c ∷ s) ∷ []

filters-append : (xs ys : List Bytes) → filters (xs ++ ys) ≡ filters xs ++ filters ys
unfolding filters
filters-append [] ys = refl
filters-append (s ∷ xs) ys = elim (Bool-cases (starts_with s filter_key)) [
  | inl e ↦ rw (e, filters) (ap (λ r. s ∷ r) (filters-append xs ys))
  | inr e ↦ rw (e, filters) (filters-append xs ys)
]

-- The text chooses no filter.
abbrev IsOther : Bytes → Type 0
IsOther s = starts_with s filter_key ≡ false

abbrev text_of : Added → Bytes
text_of (arg s) = s
text_of (runtime_arg s) = s

abbrev IsOtherAdded : Added → Type 0
IsOtherAdded a = IsOther (text_of a)

filters-add_arg : (a : Added) → IsOtherAdded a → filters (add_arg a) ≡ []
unfolding filters add_arg no_text starts_with
filters-add_arg (arg []) h = refl
filters-add_arg (arg (c ∷ s)) h = rw h refl
filters-add_arg (runtime_arg []) h = refl
filters-add_arg (runtime_arg (c ∷ s)) h = rw h refl

filters-add_each : (added : List Added) → All IsOtherAdded added → filters (add_each added) ≡ []
unfolding add_each filters
filters-add_each [] h = refl
filters-add_each (a ∷ added) (h, k) =
    filters-append (add_arg a) (add_each added)
    ∙ rw (filters-add_arg a h, filters-add_each added k) refl

no_text-IsOther : IsOther []
unfolding starts_with
no_text-IsOther = refl

only_if-IsOther : (b : Bool) (s : Bytes) → IsOther s → IsOther (only_if b s)
only_if-IsOther true s h = h
only_if-IsOther false s h = no_text-IsOther

infixr 5 ◌then◌
abbrev ◌then◌ : {A B : Type 0} → A → B → A × B
h then k = (h, k)

module _ (format : Bytes) (other : (s : Bytes) → IsOther (format ++ s)) where
  format_property-IsOther : (prop : Bytes) → IsOther (format_property format prop)
  unfolding format_property
  format_property-IsOther prop = if_elim IsOther (no_text prop) no_text-IsOther (other prop)

  prefixed-IsOther : (s : Option Bytes) → IsOther (prefixed format s)
  unfolding prefixed
  prefixed-IsOther none = no_text-IsOther
  prefixed-IsOther (some s) = other s

  property-IsOther :
      (system : System) (property : Bytes) → IsOther (map_property_to_arg system property format)
  unfolding map_property_to_arg
  property-IsOther system property = format_property-IsOther (system.property property)

module _ (system : System) (r : RunDex2Oat) where
  resolve-IsOther : IsOther (resolve_startup_string_arg system)
  unfolding resolve_startup_string_arg starts_with
  resolve-IsOther =
      if_elim IsOther (no_text _) (property-IsOther _ (λ s. refl) system _)
        (property-IsOther _ (λ s. refl) system _)

  boot_image-IsOther : IsOther (boot_image system)
  unfolding boot_image starts_with
  boot_image-IsOther = if_elim IsOther (bytes_eq _ _) refl (property-IsOther _ (λ s. refl) system _)

  base_dir-IsOther : IsOther (base_dir system r.input_file_name)
  unfolding base_dir starts_with
  base_dir-IsOther = elim (Option-cases (rfind (codes "/") r.input_file_name)) [
    | inl e ↦ rw (e, base_dir) refl
    | inr (p, e) ↦ rw (e, base_dir) refl
  ]

  context_fds-IsOther :
      (context : Option Bytes) (fds : Bytes)
      → IsOther (class_loader_context_fds_arg system context fds)
  unfolding class_loader_context_fds_arg starts_with
  context_fds-IsOther none fds = refl
  context_fds-IsOther (some context) fds = format_property-IsOther _ (λ s. refl) fds

  sdk_version-IsOther : (n : ℤ) → IsOther (target_sdk_version_arg system n)
  unfolding target_sdk_version_arg starts_with
  sdk_version-IsOther (pos n) = only_if-IsOther (not (n == 0)) _ refl
  sdk_version-IsOther (negsuc n) = refl

  first_args-IsOther : All IsOtherAdded (first_args system r)
  unfolding first_args
  first_args-IsOther =
      (unfold starts_with in refl)
      then (unfold starts_with in refl)
      then (unfold starts_with in refl)
      then (unfold starts_with in refl)
      then (unfold starts_with in refl)
      then (unfold starts_with in refl)
      then (unfold starts_with in refl)
      then property-IsOther (codes "--instruction-set-variant=") (λ s. unfold starts_with in refl)
          system _
      then property-IsOther (codes "--instruction-set-features=") (λ s. unfold starts_with in refl)
          system _
      then boot_image-IsOther
      then prefixed-IsOther (codes "-Xbootclasspath:") (λ s. unfold starts_with in refl)
          (system.getenv _)
      then property-IsOther (codes "-Xms") (λ s. unfold starts_with in refl) system _
      then property-IsOther (codes "-Xmx") (λ s. unfold starts_with in refl) system _
      then resolve-IsOther
      then property-IsOther (codes "--max-image-block-size=") (λ s. unfold starts_with in refl)
          system _
      then tt

  last_args-IsOther : All IsOtherAdded (last_args system r)
  unfolding last_args
  last_args-IsOther =
      property-IsOther (codes "-j") (λ s. unfold starts_with in refl) system _
      then only_if-IsOther _ (fd_arg (codes "--swap-fd=") r.swap_fd) (unfold starts_with in refl)
      then only_if-IsOther _ (fd_arg (codes "--app-image-fd=") r.image_fd)
          (unfold starts_with in refl)
      then only_if-IsOther _ (codes "--generate-debug-info") (unfold starts_with in refl)
      then only_if-IsOther _ (codes "--debuggable") (unfold starts_with in refl)
      then only_if-IsOther _ _
          (property-IsOther (codes "--image-format=") (λ s. unfold starts_with in refl) system _)
      then property-IsOther (codes "--very-large-app-threshold=") (λ s. unfold starts_with in refl)
          system _
      then only_if-IsOther _ (codes "-Xnorelocate") (unfold starts_with in refl)
      then only_if-IsOther _ (fd_arg (codes "--profile-file-fd=") r.profile_fd)
          (unfold starts_with in refl)
      then base_dir-IsOther
      then prefixed-IsOther (codes "--class-loader-context=") (λ s. unfold starts_with in refl)
          r.class_loader_context
      then context_fds-IsOther r.class_loader_context r.class_loader_context_fds
      then only_if-IsOther _ (codes "--generate-mini-debug-info") (unfold starts_with in refl)
      then only_if-IsOther _ (codes "--compact-dex-level=none") (unfold starts_with in refl)
      then sdk_version-IsOther r.target_sdk_version
      then only_if-IsOther _ (codes "-Xhidden-api-policy:enabled") (unfold starts_with in refl)
      then only_if-IsOther _ (fd_arg (codes "--dm-fd=") r.dex_metadata_fd)
          (unfold starts_with in refl)
      then prefixed-IsOther (codes "--compilation-reason=") (λ s. unfold starts_with in refl)
          r.compilation_reason
      then tt

  property-wanted :
      (prop : Bytes) → add_arg (arg (format_property filter_key prop)) ≡ wanted false none prop
  unfolding add_arg format_property no_text
  property-wanted [] = refl
  property-wanted (c ∷ s) = refl

  add_arg-wanted :
      add_arg (arg (compiler_filter_arg system r.compiler_filter))
      ≡ wanted
          (skip_compilation system)
          r.compiler_filter
          (system.property (codes "dalvik.vm.dex2oat-filter"))
  unfolding compiler_filter_arg prefixed add_arg no_text map_property_to_arg
  add_arg-wanted = elim (Bool-cases (skip_compilation system)) [
    | inl e ↦ rw e refl
    | inr e ↦ elim (Option-cases r.compiler_filter) [
      | inl n ↦ rw (e, n) (property-wanted _)
      | inr (filter, k) ↦ rw (e, k) refl
    ]
  ]

  filters-wanted :
      (b : Bool) (asked : Option Bytes) (property : Bytes)
      → filters (wanted b asked property) ≡ wanted b asked property
  unfolding filters starts_with
  filters-wanted true asked property = refl
  filters-wanted false (some filter) property = refl
  filters-wanted false none [] = refl
  filters-wanted false none (c ∷ s) = refl

  -- Of the arguments of RunDex2Oat but those of dalvik.vm.dex2oat-flags, one at most chooses a compiler
  -- filter: extract where vold.decrypt says that /data is not there yet, whatever is asked for;
  -- else the filter that is asked for; else that of dalvik.vm.dex2oat-filter, where it is set.
  pub filters-dex2oat_args :
      filters (dex2oat_args system r)
      ≡ wanted
          (skip_compilation system)
          r.compiler_filter
          (system.property (codes "dalvik.vm.dex2oat-filter"))
  unfolding dex2oat_args
  filters-dex2oat_args =
      let chosen = add_arg (arg (compiler_filter_arg system r.compiler_filter)) in
      filters-append (add_each (first_args system r)) (chosen ++ add_each (last_args system r))
      ∙ rw
          (
            filters-add_each (first_args system r) first_args-IsOther,
            filters-append chosen (add_each (last_args system r)),
            filters-add_each (last_args system r) last_args-IsOther,
            append-nil (filters chosen),
            add_arg-wanted,
          )
          (filters-wanted _ _ _)
