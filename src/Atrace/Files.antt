-- ===== src/Atrace/Files.antt =====
-- What the files of the trace folder hold after the actions of atrace/atrace.cpp, where what fails changes
-- nothing.
use cmds.Common.{
  ◌≡◌, refl, ap, ◌∙◌, Bool, true, false, ◌&&◌, ◌||◌, List, [], ◌∷◌, ◌++◌, Bytes, codes, bytes_eq,
  bytes_eq_iff, bytes_eq_refl, if◌then◌else◌, if_elim, All, Bool-cases, inl, inr, arith,
}
use cmds.Atrace.{
  SysFile, Action, write, append, truncate, set_property, poke_binder, poke_hal, poke_pdx,
  clock_sync_marker, stream, dump, enable_vendor, disable_vendor, sleep, System, Done, ◌&=◌,
  Categories, set_kernel_option_enable,
}
use cmds.Atrace.Kernel.{
  disable_files, disable_kernel_trace_events, enable_files, enable_kernel_trace_events,
}

abbrev pub Files : Type 0
Files = Bytes → Bytes

abbrev pub effect : Action → Files → Files
effect (write path s) files p = if bytes_eq p path then s else files p
effect (append path s) files p = if bytes_eq p path then files p ++ s else files p
effect (truncate path) files p = if bytes_eq p path then [] else files p
effect _ files p = files p

-- The action leaves the file alone.
abbrev pub Spares : Bytes → Action → Type 0
Spares p (write path s) = bytes_eq p path ≡ false
Spares p (append path s) = bytes_eq p path ≡ false
Spares p (truncate path) = bytes_eq p path ≡ false
Spares p _ = Unit {0}

abbrev pub lists : Bytes → List SysFile → Bool
lists p [] = false
lists p (f ∷ files) = bytes_eq p f.path || lists p files

-- A category has the file.
abbrev pub listed : Bytes → Categories → Bool
listed p [] = false
listed p ((c, enabled) ∷ cs) = lists p c.sysfiles || listed p cs

-- An enabled category has the file.
abbrev pub is_wanted : Bytes → Categories → Bool
is_wanted p [] = false
is_wanted p ((c, enabled) ∷ cs) = enabled && lists p c.sysfiles || is_wanted p cs

module _ (system : System) where
  unfoldable pub after : List Action → Files → Files
  after [] files = files
  after (a ∷ actions) files = after actions (if system.succeeds a then effect a files else files)

  pub after-append :
      (xs ys : List Action) (files : Files) → after (xs ++ ys) files ≡ after ys (after xs files)
  unfolding after
  after-append [] ys files = refl
  after-append (a ∷ xs) ys files =
      after-append xs ys (if system.succeeds a then effect a files else files)

  effect-Spares : (p : Bytes) (a : Action) (files : Files) → Spares p a → effect a files p ≡ files p
  effect-Spares p (write path s) files h = rw h
  effect-Spares p (append path s) files h = rw h
  effect-Spares p (truncate path) files h = rw h
  effect-Spares p (set_property key s) files h = refl
  effect-Spares p poke_binder files h = refl
  effect-Spares p poke_hal files h = refl
  effect-Spares p poke_pdx files h = refl
  effect-Spares p clock_sync_marker files h = refl
  effect-Spares p stream files h = refl
  effect-Spares p dump files h = refl
  effect-Spares p (enable_vendor names) files h = refl
  effect-Spares p disable_vendor files h = refl
  effect-Spares p (sleep n) files h = refl

  pub after-Spares :
      (p : Bytes) (actions : List Action) (files : Files)
      → All (Spares p) actions
      → after actions files p ≡ files p
  unfolding after
  after-Spares p [] files h = refl
  after-Spares p (a ∷ actions) files (h, k) =
      after-Spares p actions (if system.succeeds a then effect a files else files) k
      ∙ if_elim (λ (g : Files). g p ≡ files p) (system.succeeds a) (effect-Spares p a files h) refl

  -- Each file that is writable gets the text.
  abbrev written : Bytes → List SysFile → List Action
  written s [] = []
  written s (f ∷ files) =
      (if system.is_writable f.path then write f.path s ∷ [] else []) ++ written s files

  disable_files-written :
      (files : List SysFile) → (disable_files system files).0 ≡ written (codes "0") files
  unfolding disable_files set_kernel_option_enable ◌&=◌
  disable_files-written [] = refl
  disable_files-written (f ∷ files) = elim (Bool-cases (system.is_writable f.path)) [
    | inl e ↦ rw (e, disable_files-written files) refl
    | inr e ↦ rw (e, disable_files-written files) refl
  ]

  enable_files-written :
      (files : List SysFile) → (enable_files system files).0 ≡ written (codes "1") files
  unfolding enable_files set_kernel_option_enable ◌&=◌
  enable_files-written [] = refl
  enable_files-written (f ∷ files) = elim (Bool-cases (system.is_writable f.path)) [
    | inl e ↦ rw (e, enable_files-written files) refl
    | inr e ↦ rw e (
        if_elim (λ (d : Done). d.0 ++ (enable_files system files).0 ≡ written (codes "1") files)
          f.required (enable_files-written files) (enable_files-written files))
  ]

  module _ (p s : Bytes) (writable : system.is_writable p ≡ true)
      (kept : system.succeeds (write p s) ≡ true) where
    written_one :
        (path : Bytes) (files : Files)
        → after (if system.is_writable path then write path s ∷ [] else []) files p
          ≡ (if bytes_eq p path then s else files p)
    unfolding after
    written_one path files = elim (Bool-cases (bytes_eq p path)) [
      | inl e ↦ rw (← (bytes_eq_iff p path).0 e, writable, after, kept, bytes_eq_refl p) refl
      | inr e ↦ rw e (
          if_elim (λ (l : List Action). after l files p ≡ files p) (system.is_writable path)
            (if_elim (λ (g : Files). g p ≡ files p) (system.succeeds (write path s)) (rw e) refl)
            refl)
    ]

    after-written :
        (sysfiles : List SysFile) (files : Files)
        → after (written s sysfiles) files p ≡ (if lists p sysfiles then s else files p)
    unfolding after
    after-written [] files = refl
    after-written (f ∷ sysfiles) files =
        let first = if system.is_writable f.path then write f.path s ∷ [] else [] in
        ap (λ g. g p) (after-append first (written s sysfiles) files)
        ∙ after-written sysfiles (after first files)
        ∙ rw (written_one f.path files) (ground arith)

module _ (system : System) (p : Bytes) (writable : system.is_writable p ≡ true) where
  pub after-disable :
      (cs : Categories) (files : Files)
      → system.succeeds (write p (codes "0")) ≡ true
      → after system (disable_kernel_trace_events system cs).0 files p
        ≡ (if listed p cs then codes "0" else files p)
  unfolding disable_kernel_trace_events ◌&=◌ after
  after-disable [] files kept = refl
  after-disable ((c, enabled) ∷ cs) files kept =
      let first = (disable_files system c.sysfiles).0 in
      ap (λ g. g p) (after-append system first (disable_kernel_trace_events system cs).0 files)
      ∙ after-disable cs (after system first files) kept
      ∙ rw
          (
            disable_files-written system c.sysfiles,
            after-written system p (codes "0") writable kept c.sysfiles files,
          )
          (ground arith)

  pub after-enable :
      (cs : Categories) (files : Files)
      → system.succeeds (write p (codes "1")) ≡ true
      → after system (enable_kernel_trace_events system cs).0 files p
        ≡ (if is_wanted p cs then codes "1" else files p)
  unfolding enable_kernel_trace_events ◌&=◌ after
  after-enable [] files kept = refl
  after-enable ((c, true) ∷ cs) files kept =
      let first = (enable_files system c.sysfiles).0 in
      ap (λ g. g p) (after-append system first (enable_kernel_trace_events system cs).0 files)
      ∙ after-enable cs (after system first files) kept
      ∙ rw
          (
            enable_files-written system c.sysfiles,
            after-written system p (codes "1") writable kept c.sysfiles files,
          )
          (ground arith)
  after-enable ((c, false) ∷ cs) files kept = after-enable cs files kept
