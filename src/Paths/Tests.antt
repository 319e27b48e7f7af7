-- ===== src/Paths/Tests.antt =====
-- The theorems on names and paths at work on concrete paths.
use cmds.Common.{
  ℕ, ◌≡◌, ◌≤◌, refl, true, false, List, ◌++◌, Bytes, codes, bytes_eq, starts_with, none, some, ◌⊎◌,
}
use cmds.CLib.Decimal.{decimal}
use cmds.Paths.{
  has_char, is_valid_package_name, is_valid_filename, is_valid_from, is_valid_suffix, is_letter,
  is_digit_or_underscore, check_package_name, Device, create_data_path,
}
use cmds.Paths.Create.{create_data_user_de_package_path, create_data_user_de_path, Entry}
use cmds.Paths.Globals.{
  Dirs, init_globals_from_data_and_root, ensure_trailing_slash, ends_with_slash,
}
use cmds.Paths.Validate.{
  contains, find_slash, count_loop, count_subdirs, is_valid_dir, validate_path, validate_internal,
  modified, validate_apk_path_loop, validate_apk_path_internal, is_plain_dex_path,
  validate_secondary_dex_path,
}
use cmds.Paths.Components.{target}
use cmds.Paths.Confined.{subdirs, validate_path-Confined}
use cmds.Paths.Arguments.{ok, check_argument_path}
use cmds.Paths.Apk.{IsDisjoint, Inside, validate_apk_path-Inside}
use cmds.Paths.Separate.{
  create_data_user_de_package_path-injective, validate_secondary_dex_path-sibling,
}

abbrev app_dir : Bytes
app_dir = codes "/data/app/"

abbrev apk : Bytes
apk = codes "/data/app/com.a-1/base.apk"

abbrev dirs : Dirs
unfolding init_globals_from_data_and_root ensure_trailing_slash ends_with_slash
dirs = init_globals_from_data_and_root (codes "/data") (codes "/system") (codes "/mnt/asec")

abbrev device : Device
device = record { debuggable = false; is_dir = λ path. false }

apk_valid : validate_path app_dir apk 1 ≡ true
unfolding validate_path is_valid_dir starts_with ends_with_slash contains count_subdirs count_loop
    find_slash
apk_valid = refl

validate_path-Confined_example :
    (rest : Bytes) × (names : List Bytes) × (apk ≡ app_dir ++ rest)
    × (target apk ≡ names ++ target app_dir)
    × (subdirs rest ≤ 1)
validate_path-Confined_example = validate_path-Confined app_dir apk 1 apk_valid

app_dir_valid : is_valid_dir app_dir ≡ true
unfolding is_valid_dir starts_with ends_with_slash contains
app_dir_valid = refl

apk_plain : contains (codes "..") (app_dir ++ codes "com.a-1/base.apk") ≡ false
unfolding contains starts_with
apk_plain = refl

apk_depth : subdirs (codes "com.a-1/base.apk") ≡ 1
unfolding subdirs starts_with
apk_depth = refl

apart : IsDisjoint dirs
unfolding starts_with init_globals_from_data_and_root ensure_trailing_slash ends_with_slash
apart rest = refl

abbrev expanded : Bytes
expanded = codes "/mnt/expand/v/app/com.a-1/base.apk"

expanded_valid : validate_apk_path_internal dirs expanded 1 ≡ some true
unfolding validate_apk_path_internal validate_apk_path_loop validate_internal modified validate_path
    is_valid_dir starts_with ends_with_slash contains count_subdirs count_loop find_slash
    init_globals_from_data_and_root ensure_trailing_slash
expanded_valid = refl

validate_apk_path-Inside_example :
    Inside dirs 1 expanded
    ⊎ ((internal : Bytes) × (modified dirs expanded ≡ some internal) × Inside dirs 1 internal)
validate_apk_path-Inside_example = validate_apk_path-Inside dirs expanded 1 apart expanded_valid

abbrev user_of_a : ℕ
user_of_a = 10

abbrev dir_of_a : Bytes
dir_of_a = codes "/data/user_de/10/com.a"

made : create_data_user_de_package_path device none 10 (codes "com.a") ≡ some dir_of_a
unfolding create_data_user_de_package_path create_data_user_de_path create_data_path
    check_package_name is_valid_filename is_valid_package_name is_valid_from is_valid_suffix
    is_letter is_digit_or_underscore has_char bytes_eq decimal
made = refl

create_data_user_de_package_path-injective_example :
    (user_of_a ≡ 10) × (codes "com.a" ≡ codes "com.a")
create_data_user_de_package_path-injective_example =
    create_data_user_de_package_path-injective device none user_of_a 10 (codes "com.a")
      (codes "com.a") dir_of_a made made

abbrev entry : Bytes → Entry
entry name = record { inode = 1; name = name; is_directory = true }

ten : codes "10" ≡ decimal 10
unfolding decimal
ten = refl

sibling_plain : is_plain_dex_path (dir_of_a ++ codes "bc/code.dex") ≡ true
unfolding is_plain_dex_path ends_with_slash contains starts_with
sibling_plain = refl

validate_secondary_dex_path-sibling_example :
    validate_secondary_dex_path device
      (codes "com.a")
      (dir_of_a ++ codes "bc/code.dex")
      none
      10
      false
    ≡ some true
validate_secondary_dex_path-sibling_example =
    validate_secondary_dex_path-sibling device (codes "com.a") dir_of_a (codes "bc/code.dex") none
      10 made sibling_plain

apk_accepted : check_argument_path apk ≡ ok
unfolding check_argument_path contains starts_with has_char
apk_accepted = refl
