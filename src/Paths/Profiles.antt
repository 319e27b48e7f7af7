-- ===== src/Paths/Profiles.antt =====
-- The paths of rollback data and of profiles in installd/utils.cpp.
use cmds.Common.{
  ℕ, Bool, true, false, List, [], ◌∷◌, ◌++◌, Bytes, codes, Option, none, some, ◌==◌, if◌then◌else◌,
  ℤ,
}
use cmds.CLib.Decimal.{signed_decimal, decimal}
use cmds.Paths.{slash, check_package_name, Device, create_data_path, check, ◌>>=◌, ◌>>◌}
use cmds.Paths.Create.{
  join, Entry, resolve_ce_path_by_inode_or_fallback, create_data_user_ce_path,
  create_data_user_ce_package_path, create_data_misc_ce_rollback_base_path,
  create_data_misc_de_rollback_base_path,
}
use cmds.Paths.Globals.{Dirs}

module _ (device : Device) (uuid : Option Bytes) where
  -- `entries` are those of the directory of the user.
  unfoldable pub create_data_user_ce_package_path_by_inode :
      ℕ → Bytes → ℕ → Option (List Entry) → Option Bytes
  create_data_user_ce_package_path_by_inode user package_name ce_data_inode entries = do
    fallback ← create_data_user_ce_package_path device uuid user package_name
    user_path ← create_data_user_ce_path device uuid user
    some (resolve_ce_path_by_inode_or_fallback user_path ce_data_inode fallback entries)

  unfoldable pub create_data_misc_ce_rollback_path : ℕ → ℤ → Option Bytes
  create_data_misc_ce_rollback_path user snapshot_id = do
    base ← create_data_misc_ce_rollback_base_path device uuid user
    some (join base (signed_decimal snapshot_id))

  unfoldable pub create_data_misc_de_rollback_path : ℕ → ℤ → Option Bytes
  create_data_misc_de_rollback_path user snapshot_id = do
    base ← create_data_misc_de_rollback_base_path device uuid user
    some (join base (signed_decimal snapshot_id))

  unfoldable pub create_data_misc_ce_rollback_package_path : ℕ → ℤ → Bytes → Option Bytes
  create_data_misc_ce_rollback_package_path user snapshot_id package_name = do
    dir ← create_data_misc_ce_rollback_path user snapshot_id
    some (join dir package_name)

  unfoldable pub create_data_misc_ce_rollback_package_path_by_inode :
      ℕ → ℤ → Bytes → ℕ → Option (List Entry) → Option Bytes
  create_data_misc_ce_rollback_package_path_by_inode user snapshot_id package_name inode entries =
      do
        fallback ← create_data_misc_ce_rollback_package_path user snapshot_id package_name
        user_path ← create_data_misc_ce_rollback_path user snapshot_id
        some (resolve_ce_path_by_inode_or_fallback user_path inode fallback entries)

  unfoldable pub create_data_misc_de_rollback_package_path : ℕ → ℤ → Bytes → Option Bytes
  create_data_misc_de_rollback_package_path user snapshot_id package_name = do
    dir ← create_data_misc_de_rollback_path user snapshot_id
    some (join dir package_name)

unfoldable pub create_data_misc_legacy_path : Device → ℕ → Option Bytes
create_data_misc_legacy_path device userid = do
  d ← create_data_path device none
  some (d ++ (codes "/misc/user/" ++ decimal userid))

-- dex_path.rfind('/'): the text before the last slash, and behind it.
unfoldable pub rfind_slash : Bytes → Option (Bytes × Bytes)
rfind_slash [] = none
rfind_slash (c ∷ s) = elim (rfind_slash s) [
  | some (dir, file) ↦ some (c ∷ dir, file)
  | none ↦ if c == slash then some ([], s) else none
]

unfoldable pub with_file : Option (Bytes × Bytes) → Option (Bytes × Bytes)
with_file none = none
with_file (some (dir, [])) = none
with_file (some (dir, c ∷ file)) = some (dir, c ∷ file)

unfoldable pub get_secondary_dex_location : Bytes → Option (Bytes × Bytes)
get_secondary_dex_location dex_path = with_file (rfind_slash dex_path)

module _ (dirs : Dirs) where
  unfoldable pub create_primary_cur_profile_dir_path : ℕ → Bytes
  create_primary_cur_profile_dir_path userid =
      dirs.android_profiles_dir ++ (codes "/cur/" ++ decimal userid)

  unfoldable pub create_primary_current_profile_package_dir_path : ℕ → Bytes → Option Bytes
  create_primary_current_profile_package_dir_path user package_name = do
    check (check_package_name package_name)
    some (join (create_primary_cur_profile_dir_path user) package_name)

  unfoldable pub create_primary_ref_profile_dir_path : Bytes
  create_primary_ref_profile_dir_path = dirs.android_profiles_dir ++ codes "/ref"

  unfoldable pub create_primary_reference_profile_package_dir_path : Bytes → Option Bytes
  create_primary_reference_profile_package_dir_path package_name = do
    check (check_package_name package_name)
    some (dirs.android_profiles_dir ++ (codes "/ref/" ++ package_name))

  unfoldable pub create_current_profile_path : ℕ → Bytes → Bytes → Bool → Option Bytes
  create_current_profile_path user package_name location true = do
    found ← get_secondary_dex_location location
    some (found.0 ++ (codes "/oat/" ++ (found.1 ++ codes ".cur.prof")))
  create_current_profile_path user package_name location false = do
    profile_dir ← create_primary_current_profile_package_dir_path user package_name
    some (join profile_dir location)

  unfoldable pub create_reference_profile_path : Bytes → Bytes → Bool → Option Bytes
  create_reference_profile_path package_name location true = do
    found ← get_secondary_dex_location location
    some (found.0 ++ (codes "/oat/" ++ (found.1 ++ codes ".prof")))
  create_reference_profile_path package_name location false = do
    profile_dir ← create_primary_reference_profile_package_dir_path package_name
    some (join profile_dir location)

  unfoldable pub create_snapshot_profile_path : Bytes → Bytes → Option Bytes
  create_snapshot_profile_path package_name profile_name = do
    ref_profile ← create_reference_profile_path package_name profile_name false
    some (ref_profile ++ codes ".snapshot")
