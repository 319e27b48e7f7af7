-- ===== src/Paths/Globals.antt =====
-- installd/globals.cpp: the directories of installd, from the environment.
use cmds.Common.{Bool, true, List, [], ◌∷◌, ◌++◌, Bytes, codes, ◌==◌, if◌then◌else◌}
use cmds.Paths.{slash}

-- path.rfind('/') == path.size() - 1, which also the empty path meets, for -1 is npos.
unfoldable pub ends_with_slash : Bytes → Bool
ends_with_slash [] = true
ends_with_slash (c ∷ []) = c == slash
ends_with_slash (c ∷ d ∷ s) = ends_with_slash (d ∷ s)

unfoldable pub ensure_trailing_slash : Bytes → Bytes
ensure_trailing_slash path = if ends_with_slash path then path else path ++ slash ∷ []

pub record Dirs : Type 0 where
  pub android_app_dir : Bytes
  pub android_app_ephemeral_dir : Bytes
  pub android_app_lib_dir : Bytes
  pub android_app_private_dir : Bytes
  pub android_asec_dir : Bytes
  pub android_data_dir : Bytes
  pub android_media_dir : Bytes
  pub android_mnt_expand_dir : Bytes
  pub android_profiles_dir : Bytes
  pub android_root_dir : Bytes
  pub android_staging_dir : Bytes
  pub android_system_dirs : List Bytes

-- From ANDROID_DATA, ANDROID_ROOT and the mount point of ASEC.
unfoldable pub init_globals_from_data_and_root : Bytes → Bytes → Bytes → Dirs
init_globals_from_data_and_root data_path root_path asec =
    let data_dir = ensure_trailing_slash data_path in
    let root_dir = ensure_trailing_slash root_path in
    record {
      android_app_dir = data_dir ++ codes "app/";
      android_app_ephemeral_dir = data_dir ++ codes "app-ephemeral/";
      android_app_lib_dir = data_dir ++ codes "app-lib/";
      android_app_private_dir = data_dir ++ codes "app-private/";
      android_asec_dir = ensure_trailing_slash asec;
      android_data_dir = data_dir;
      android_media_dir = data_dir ++ codes "media/";
      android_mnt_expand_dir = codes "/mnt/expand/";
      android_profiles_dir = data_dir ++ codes "misc/profiles";
      android_root_dir = root_dir;
      android_staging_dir = data_dir ++ codes "app-staging/";
      android_system_dirs =
          (root_dir ++ codes "app/")
          ∷ (root_dir ++ codes "priv-app/")
          ∷ codes "/vendor/app/"
          ∷ codes "/oem/app/"
          ∷ [];
    }
