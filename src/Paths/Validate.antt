-- ===== src/Paths/Validate.antt =====
-- The checks of paths in installd/utils.cpp. A position in a text is the text from there on.
use cmds.Common.{
  ℕ, zero, suc, ◌+◌, Bool, true, false, not, ◌&&◌, ◌||◌, List, [], ◌∷◌, ◌++◌, Bytes, codes,
  starts_with, Option, none, some, ◌==◌, ltb, leb, if◌then◌else◌, length, drop,
}
use cmds.Paths.{slash, Device, ◌>>=◌}
use cmds.Paths.Create.{
  create_data_user_ce_package_path, create_data_user_de_package_path,
  create_data_user_ce_package_path_as_user_link,
}
use cmds.Paths.Globals.{Dirs, ends_with_slash}

-- s.find(sub) != npos
unfoldable pub contains : Bytes → Bytes → Bool
contains sub [] = starts_with [] sub
contains sub (c ∷ s) = starts_with (c ∷ s) sub || contains sub s

-- s.find('/'): the text behind the first slash.
unfoldable pub find_slash : Bytes → Option Bytes
find_slash [] = none
find_slash (c ∷ s) = let later = find_slash s in if c == slash then some s else later

-- while (pos != npos): `behind` is the text behind pos; next > pos + 1 fails only where a slash
-- stands there.
unfoldable pub count_loop : ℕ → Option Bytes → ℕ → ℕ
count_loop zero pos count = count
count_loop (suc fuel) none count = count
count_loop (suc fuel) (some behind) count =
    count_loop fuel (find_slash behind)
      (if starts_with behind (slash ∷ []) then count else count + 1)

-- The fuel is one more than the length: each round passes a slash.
unfoldable pub count_subdirs : Bytes → ℕ
unfolding count_loop find_slash
count_subdirs rest = count_loop (suc (length rest)) (find_slash rest) 0

unfoldable pub is_valid_dir : Bytes → Bool
is_valid_dir dir =
    starts_with dir (slash ∷ []) && ends_with_slash dir && not (contains (codes "..") dir)

-- Whether validate_path returns 0.
unfoldable pub validate_path : Bytes → Bytes → ℕ → Bool
validate_path dir path max_subdirs =
    if not (is_valid_dir dir)
    then false
    else if contains (codes "..") path
    then false
    else if not (starts_with path dir)
    then false
    else leb (count_subdirs (drop (length dir) path)) max_subdirs

unfoldable pub validate_in : List Bytes → Bytes → Bool
validate_in [] path = false
validate_in (dir ∷ dirs) path = validate_path dir path 1 || validate_in dirs path

unfoldable pub validate_system_app_path : Dirs → Bytes → Bool
validate_system_app_path dirs path = validate_in dirs.android_system_dirs path

-- The five directories on internal storage.
unfoldable pub validate_internal : Dirs → Bytes → ℕ → Bool
validate_internal dirs path max_subdirs =
    validate_path dirs.android_app_dir path max_subdirs
    || validate_path dirs.android_staging_dir path max_subdirs
    || validate_path dirs.android_app_private_dir path max_subdirs
    || validate_path dirs.android_app_ephemeral_dir path max_subdirs
    || validate_path dirs.android_asec_dir path max_subdirs

-- The path on an expanded volume as if it were on internal storage.
unfoldable pub modified : Dirs → Bytes → Option Bytes
modified dirs path =
    if starts_with path dirs.android_mnt_expand_dir
    then (do
      rest ← find_slash (drop (length dirs.android_mnt_expand_dir + 1) path)
      some (dirs.android_data_dir ++ rest))
    else none

-- `none` when the fuel runs out.
unfoldable pub validate_apk_path_loop : ℕ → Dirs → Bytes → ℕ → Option Bool
validate_apk_path_loop zero dirs path max_subdirs = none
validate_apk_path_loop (suc fuel) dirs path max_subdirs =
    if validate_internal dirs path max_subdirs then some true else elim (modified dirs path) [
      | none ↦ some false
      | some internal ↦ validate_apk_path_loop fuel dirs internal max_subdirs
    ]

-- A path is modified once: on internal storage it is not on an expanded volume.
unfoldable pub validate_apk_path_internal : Dirs → Bytes → ℕ → Option Bool
validate_apk_path_internal = validate_apk_path_loop 2

unfoldable pub validate_apk_path : Dirs → Bytes → Option Bool
validate_apk_path dirs path = validate_apk_path_internal dirs path 1

unfoldable pub validate_apk_path_subdirs : Dirs → Bytes → Option Bool
validate_apk_path_subdirs dirs path = validate_apk_path_internal dirs path 3

abbrev pub pkg_path_max : ℕ
pkg_path_max = 1024

-- The tests on the path alone.
unfoldable pub is_plain_dex_path : Bytes → Bool
is_plain_dex_path [] = false
is_plain_dex_path (c ∷ s) =
    c == slash
    && not (ends_with_slash (c ∷ s))
    && not (contains (codes "/.") (c ∷ s))
    && not (ltb pkg_path_max (length (c ∷ s)))

-- `user` is that of the uid, and `is_ce` whether storage_flag is FLAG_STORAGE_CE.
unfoldable pub validate_secondary_dex_path :
    Device → Bytes → Bytes → Option Bytes → ℕ → Bool → Option Bool
validate_secondary_dex_path device pkgname dex_path uuid user is_ce =
    if not (is_plain_dex_path dex_path) then some false else do
      dir ←
          if is_ce
          then create_data_user_ce_package_path device uuid user pkgname
          else create_data_user_de_package_path device uuid user pkgname
      if starts_with dex_path dir then some true else do
        link ← create_data_user_ce_package_path_as_user_link device uuid user pkgname
        some (starts_with dex_path link)
