-- ===== src/Dexopt/Move.antt =====
-- move_ab and delete_odex of installd/dexopt.cpp, over the files that there are. The calls that the kernel
-- refuses, though the files are there, are arguments; a stat that fails has found nothing.
use cmds.Common.{
  Bool, true, false, not, ◌&&◌, ◌||◌, [], ◌++◌, Bytes, codes, bytes_eq, Option, none, some,
  if◌then◌else◌,
}
use cmds.Paths.Globals.{Dirs}
use cmds.Preopt.{validate_target_slot_suffix}
use cmds.Dexopt.{
  create_vdex_filename, create_image_filename, calculate_oat_file_path, create_oat_out_path,
  is_apk_path,
}

-- A regular file, with what it holds, or something else.
pub data File : Type 0 where
  regular : Bytes → File
  special : File

abbrev pub Files : Type 0
Files = Bytes → Option File

abbrev pub put : Bytes → Option File → Files → Files
put path f files p = if bytes_eq p path then f else files p

-- The paths whose removal is refused, whether for want of permission, and the renames that are.
pub record Kernel : Type 0 where
  pub unlink_refused : Bytes → Bool
  pub denied : Bytes → Bool
  pub rename_refused : Bytes → Bytes → Bool

-- B path = A path + slot suffix.
abbrev pub with_slot : Bytes → Bytes → Bytes
with_slot slot_suffix path = path ++ (codes "." ++ slot_suffix)

module _ (kernel : Kernel) where
  unfoldable pub unlink : Bytes → Files → Files × Bool
  unlink path files = elim (files path) [
    | none ↦ (files, false)
    | some f ↦ if kernel.unlink_refused path then (files, false) else (put path none files, true)
  ]

  unfoldable pub rename : Bytes → Bytes → Files → Files × Bool
  rename from to files = elim (files from) [
    | none ↦ (files, false)
    | some f ↦
        if kernel.rename_refused from to
        then (files, false)
        else (put to (some f) (put from none files), true)
  ]

  abbrev pub rename_if : Bytes → Bytes → Files × Bool → Files × Bool
  rename_if from to (files, true) = rename from to files
  rename_if from to (files, false) = (files, false)

  unfoldable pub unlink_and_rename : Bytes → Bytes → Files → Files × Bool
  unlink_and_rename from to files = elim (files to) [
    | none ↦ rename from to files
    | some special ↦ (files, false)
    | some (regular content) ↦ rename_if from to (unlink to files)
  ]

  abbrev pub or_unlink : Bytes → Files × Bool → Files × Bool
  or_unlink path (files, true) = (files, true)
  or_unlink path (files, false) = ((unlink path files).0, false)

  unfoldable pub move_ab_path : Bytes → Bytes → Files → Files × Bool
  move_ab_path b_path a_path files = elim (files b_path) [
    | none ↦ (files, false)
    | some special ↦ ((unlink b_path files).0, false)
    | some (regular content) ↦ or_unlink b_path (unlink_and_rename b_path a_path files)
  ]

  -- A failure to move the image is ignored.
  unfoldable pub image_moved : Bytes → Files × Bool → Files
  image_moved a_image_path (files, true) = files
  image_moved a_image_path (files, false) = (unlink a_image_path files).0

  unfoldable pub move_image : Bytes → Bytes → Files → Files
  move_image b_image_path a_image_path files =
      if bytes_eq a_image_path []
      then files
      else image_moved a_image_path (move_ab_path b_image_path a_image_path files)

  unfoldable pub vdex_moved : Bytes → Bytes → Files × Bool → Files × Bool
  vdex_moved b_image_path a_image_path (files, true) =
      (move_image b_image_path a_image_path files, true)
  vdex_moved b_image_path a_image_path (files, false) = ((unlink b_image_path files).0, false)

  unfoldable pub oat_moved : Bytes → Bytes → Bytes → Bytes → Files × Bool → Files × Bool
  oat_moved b_vdex a_vdex b_image a_image (files, true) =
      vdex_moved b_image a_image (move_ab_path b_vdex a_vdex files)
  oat_moved b_vdex a_vdex b_image a_image (files, false) =
      ((unlink b_image (unlink b_vdex files).0).0, false)

  unfoldable pub move_artifacts : Bytes → Bytes → Files → Files × Bool
  move_artifacts slot_suffix a_path files =
      let a_vdex = create_vdex_filename a_path in
      let a_image = create_image_filename a_path in
      oat_moved (with_slot slot_suffix a_vdex) a_vdex (with_slot slot_suffix a_image) a_image
        (move_ab_path (with_slot slot_suffix a_path) a_path files)

  unfoldable pub move_ab : Dirs → Bytes → Bytes → Bytes → Bytes → Files → Files × Bool
  move_ab dirs slot_suffix apk_path instruction_set oat_dir files =
      if bytes_eq slot_suffix []
      then (files, false)
      else if not (validate_target_slot_suffix slot_suffix)
      then (files, false)
      else if not (is_apk_path dirs apk_path)
      then (files, false)
      else if not (is_apk_path dirs oat_dir)
      then (files, false)
      else elim (calculate_oat_file_path oat_dir apk_path instruction_set) [
        | none ↦ (files, false)
        | some a_path ↦ move_artifacts slot_suffix a_path files
      ]

  unfoldable pub unlink_and_check : Bytes → Files → Files × Bool
  unlink_and_check path files =
      let (left, gone) = unlink path files in (left, gone || not (kernel.denied path))

  unfoldable pub delete_artifacts : Bytes → Files → Files × Bool
  delete_artifacts out_path files =
      let (files1, oat) = unlink_and_check out_path files in
      let (files2, art) = unlink_and_check (create_image_filename out_path) files1 in
      let (files3, vdex) = unlink_and_check (create_vdex_filename out_path) files2 in
      (files3, oat && art && vdex)

  unfoldable pub delete_odex : Dirs → Bytes → Bytes → Option Bytes → Files → Files × Bool
  delete_odex dirs apk_path instruction_set oat_dir files =
      elim (create_oat_out_path dirs apk_path instruction_set oat_dir false) [
        | none ↦ (files, false)
        | some out_path ↦ delete_artifacts out_path files
      ]
