-- ===== src/Dexopt/Gone.antt =====
-- The files that move_ab of installd/dexopt.cpp leaves.
use cmds.Common.{
  ◌≡◌, refl, Bool, true, false, [], Bytes, bytes_eq, bytes_eq_refl, Option, none, some, if_elim,
  Option-cases, inl, inr,
}
use cmds.Dexopt.{create_vdex_filename, create_image_filename}
use cmds.Dexopt.Move.{
  File, regular, special, Files, put, Kernel, unlink, rename, rename_if, unlink_and_rename,
  or_unlink, move_ab_path, image_moved, move_image, vdex_moved, oat_moved, with_slot,
  move_artifacts,
}

-- The paths differ.
abbrev pub Differ : Bytes → Bytes → Type 0
Differ p q = bytes_eq p q ≡ false

module _ (kernel : Kernel) (p : Bytes) where
  abbrev Absent : Files → Type 0
  Absent files = files p ≡ none

  put-Absent :
      (q : Bytes) (f : Option File) (files : Files)
      → Differ p q
      → Absent files
      → Absent (put q f files)
  put-Absent q f files d h = rw d h

  removed-Absent : (q : Bytes) (files : Files) → Absent files → Absent (put q none files)
  removed-Absent q files h = if_elim (λ (f : Option File). f ≡ none) (bytes_eq p q) refl h

  unlink-Absent : (q : Bytes) (files : Files) → Absent files → Absent (unlink kernel q files).0
  unfolding unlink
  unlink-Absent q files h = elim (Option-cases (files q)) [
    | inl e ↦ rw (e, unlink) h
    | inr (f, e) ↦
        rw (e, unlink)
          (if_elim (λ (r : Files × Bool). Absent r.0) (kernel.unlink_refused q) h
            (removed-Absent q files h))
  ]

  rename-Absent :
      (from to : Bytes) (files : Files)
      → Differ p to
      → Absent files
      → Absent (rename kernel from to files).0
  unfolding rename
  rename-Absent from to files d h = elim (Option-cases (files from)) [
    | inl e ↦ rw (e, rename) h
    | inr (f, e) ↦
        rw (e, rename)
          (if_elim (λ (r : Files × Bool). Absent r.0) (kernel.rename_refused from to) h
            (put-Absent to (some f) (put from none files) d (removed-Absent from files h)))
  ]

  rename_if-Absent :
      (from to : Bytes) (r : Files × Bool)
      → Differ p to
      → Absent r.0
      → Absent (rename_if kernel from to r).0
  rename_if-Absent from to (files, true) d h = rename-Absent from to files d h
  rename_if-Absent from to (files, false) d h = h

  unlink_and_rename-Absent :
      (from to : Bytes) (files : Files)
      → Differ p to
      → Absent files
      → Absent (unlink_and_rename kernel from to files).0
  unfolding unlink_and_rename
  unlink_and_rename-Absent from to files d h = elim (Option-cases (files to)) [
    | inl e ↦ rw (e, unlink_and_rename) (rename-Absent from to files d h)
    | inr (special, e) ↦ rw (e, unlink_and_rename) h
    | inr (regular content, e) ↦
        rw (e, unlink_and_rename)
          (rename_if-Absent from to (unlink kernel to files) d (unlink-Absent to files h))
  ]

  or_unlink-Absent : (q : Bytes) (r : Files × Bool) → Absent r.0 → Absent (or_unlink kernel q r).0
  or_unlink-Absent q (files, true) h = h
  or_unlink-Absent q (files, false) h = unlink-Absent q files h

  -- What is not there is not made, but at the path that is moved to.
  move_ab_path-Absent :
      (b a : Bytes) (files : Files)
      → Differ p a
      → Absent files
      → Absent (move_ab_path kernel b a files).0
  unfolding move_ab_path
  move_ab_path-Absent b a files d h = elim (Option-cases (files b)) [
    | inl e ↦ rw (e, move_ab_path) h
    | inr (special, e) ↦ rw (e, move_ab_path) (unlink-Absent b files h)
    | inr (regular content, e) ↦
        rw (e, move_ab_path)
          (or_unlink-Absent b (unlink_and_rename kernel b a files)
            (unlink_and_rename-Absent b a files d h))
  ]

  move_image-Absent :
      (b a : Bytes) (files : Files)
      → Differ p a
      → Absent files
      → Absent (move_image kernel b a files)
  unfolding move_image image_moved
  move_image-Absent b a files d h =
      if_elim Absent (bytes_eq a []) h
        (moved (move_ab_path kernel b a files) (move_ab_path-Absent b a files d h))
    where
      moved : (r : Files × Bool) → Absent r.0 → Absent (image_moved kernel a r)
      moved (fs, true) k = k
      moved (fs, false) k = unlink-Absent a fs k

-- The paths of the artifacts of the slot, and where they are moved, are apart.
pub record IsApart (slot_suffix a_path : Bytes) : Type 0 where
  pub oat_oat : Differ (with_slot slot_suffix a_path) a_path
  pub oat_vdex : Differ (with_slot slot_suffix a_path) (create_vdex_filename a_path)
  pub oat_image : Differ (with_slot slot_suffix a_path) (create_image_filename a_path)
  pub vdex_vdex :
      Differ (with_slot slot_suffix (create_vdex_filename a_path)) (create_vdex_filename a_path)
  pub vdex_image :
      Differ (with_slot slot_suffix (create_vdex_filename a_path)) (create_image_filename a_path)
  pub image_image :
      Differ (with_slot slot_suffix (create_image_filename a_path)) (create_image_filename a_path)
  pub image_named : Differ (create_image_filename a_path) []

abbrev pub AllGone : Bytes → Bytes → Bytes → Files → Type 0
AllGone b bv bi files = (files b ≡ none) × (files bv ≡ none) × (files bi ≡ none)

module _ (kernel : Kernel) (willing : (p : Bytes) → kernel.unlink_refused p ≡ false) where
  unlink_gone : (p : Bytes) (files : Files) → (unlink kernel p files).0 p ≡ none
  unfolding unlink
  unlink_gone p files = elim (Option-cases (files p)) [
    | inl e ↦ rw (e, unlink) e
    | inr (f, e) ↦ rw (e, unlink, willing p, bytes_eq_refl p) refl
  ]

  -- Where a move says that it worked, nothing is left at its source.
  abbrev Moved : Bytes → Files × Bool → Type 0
  Moved p r = r.1 ≡ true → r.0 p ≡ none

  rename-Moved :
      (from to : Bytes) (files : Files) → Differ from to → Moved from (rename kernel from to files)
  unfolding rename
  rename-Moved from to files d = elim (Option-cases (files from)) [
    | inl e ↦ rw (e, rename) (λ h. cc)
    | inr (f, e) ↦
        rw (e, rename)
          (if_elim (Moved from) (kernel.rename_refused from to) (λ h. cc)
            (λ h. rw (d, bytes_eq_refl from) refl))
  ]

  rename_if-Moved :
      (from to : Bytes) (r : Files × Bool)
      → Differ from to
      → Moved from (rename_if kernel from to r)
  rename_if-Moved from to (files, true) d = rename-Moved from to files d
  rename_if-Moved from to (files, false) d = λ h. cc

  unlink_and_rename-Moved :
      (from to : Bytes) (files : Files)
      → Differ from to
      → Moved from (unlink_and_rename kernel from to files)
  unfolding unlink_and_rename
  unlink_and_rename-Moved from to files d = elim (Option-cases (files to)) [
    | inl e ↦ rw (e, unlink_and_rename) (rename-Moved from to files d)
    | inr (special, e) ↦ rw (e, unlink_and_rename) (λ h. cc)
    | inr (regular content, e) ↦
        rw (e, unlink_and_rename) (rename_if-Moved from to (unlink kernel to files) d)
  ]

  or_unlink_gone : (p : Bytes) (r : Files × Bool) → Moved p r → (or_unlink kernel p r).0 p ≡ none
  or_unlink_gone p (files, true) h = h refl
  or_unlink_gone p (files, false) h = unlink_gone p files

  move_ab_path_gone :
      (b a : Bytes) (files : Files) → Differ b a → (move_ab_path kernel b a files).0 b ≡ none
  unfolding move_ab_path
  move_ab_path_gone b a files d = elim (Option-cases (files b)) [
    | inl e ↦ rw (e, move_ab_path) e
    | inr (special, e) ↦ rw (e, move_ab_path) (unlink_gone b files)
    | inr (regular content, e) ↦
        rw (e, move_ab_path)
          (or_unlink_gone b (unlink_and_rename kernel b a files)
            (unlink_and_rename-Moved b a files d))
  ]

  move_image_gone :
      (b a : Bytes) (files : Files)
      → Differ b a
      → Differ a []
      → move_image kernel b a files b ≡ none
  unfolding move_image image_moved
  move_image_gone b a files d named =
      rw named (moved (move_ab_path kernel b a files) (move_ab_path_gone b a files d))
    where
      moved : (r : Files × Bool) → r.0 b ≡ none → image_moved kernel a r b ≡ none
      moved (fs, true) k = k
      moved (fs, false) k = unlink-Absent kernel b a fs k

  module _ (slot_suffix a_path : Bytes) (apart : IsApart slot_suffix a_path) where
    abbrev b : Bytes
    b = with_slot slot_suffix a_path

    abbrev av : Bytes
    av = create_vdex_filename a_path

    abbrev bv : Bytes
    bv = with_slot slot_suffix av

    abbrev ai : Bytes
    ai = create_image_filename a_path

    abbrev bi : Bytes
    bi = with_slot slot_suffix ai

    vdex_moved-AllGone :
        (r : Files × Bool)
        → r.0 b ≡ none
        → r.0 bv ≡ none
        → AllGone b bv bi (vdex_moved kernel bi ai r).0
    unfolding vdex_moved
    vdex_moved-AllGone (files, true) h k = (
      move_image-Absent kernel b bi ai files apart.oat_image h,
      move_image-Absent kernel bv bi ai files apart.vdex_image k,
      move_image_gone bi ai files apart.image_image apart.image_named,
    )
    vdex_moved-AllGone (files, false) h k = (
      unlink-Absent kernel b bi files h,
      unlink-Absent kernel bv bi files k,
      unlink_gone bi files,
    )

    oat_moved-AllGone :
        (r : Files × Bool) → r.0 b ≡ none → AllGone b bv bi (oat_moved kernel bv av bi ai r).0
    unfolding oat_moved
    oat_moved-AllGone (files, true) h =
        vdex_moved-AllGone (move_ab_path kernel bv av files)
          (move_ab_path-Absent kernel b bv av files apart.oat_vdex h)
          (move_ab_path_gone bv av files apart.vdex_vdex)
    oat_moved-AllGone (files, false) h =
        let first = (unlink kernel bv files).0 in
        (
          unlink-Absent kernel b bi first (unlink-Absent kernel b bv files h),
          unlink-Absent kernel bv bi first (unlink_gone bv files),
          unlink_gone bi first,
        )

    -- Whatever files there are, and whichever renames the kernel refuses, where it refuses no removal and the
    -- paths are apart, none of the three artifacts of the slot is left when move_ab has come to
    -- move them, so that the next attempt does not meet them again.
    pub move_artifacts-AllGone :
        (files : Files) → AllGone b bv bi (move_artifacts kernel slot_suffix a_path files).0
    unfolding move_artifacts
    move_artifacts-AllGone files =
        oat_moved-AllGone (move_ab_path kernel b a_path files)
          (move_ab_path_gone b a_path files apart.oat_oat)
