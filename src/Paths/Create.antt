-- ===== src/Paths/Create.antt =====
-- The create_..._path functions of installd/utils.cpp, and the users that it finds on a volume.
use cmds.Common.{
  ℕ, Bool, ◌&&◌, List, [], ◌∷◌, ◌++◌, Bytes, codes, Option, none, some, ◌==◌, if◌then◌else◌,
}
use cmds.CLib.{strtol, Long, low_word}
use cmds.CLib.Decimal.{decimal}
use cmds.Paths.{slash, check_package_name, Device, create_data_path, check, ◌>>=◌, ◌>>◌}

-- StringPrintf("%s/%s", dir, name)
abbrev pub join : Bytes → Bytes → Bytes
join dir name = dir ++ slash ∷ name

module _ (device : Device) (uuid : Option Bytes) where
  unfoldable pub create_data_app_path : Option Bytes
  create_data_app_path = do d ← create_data_path device uuid; some (d ++ codes "/app")

  unfoldable pub create_data_app_package_path : Bytes → Option Bytes
  create_data_app_package_path package_name = do
    check (check_package_name package_name)
    app ← create_data_app_path
    some (join app package_name)

  -- For the owner on internal storage, the old directory where there is one.
  unfoldable pub create_data_user_ce_path : ℕ → Option Bytes
  create_data_user_ce_path userid = do
    d ← create_data_path device uuid
    let user_dir = d ++ (codes "/user/" ++ decimal userid)
    elim uuid [
      | some u ↦ some user_dir
      | none ↦
          if userid == 0 && device.is_dir (d ++ codes "/data")
          then some (d ++ codes "/data")
          else some user_dir
    ]

  unfoldable pub create_data_user_ce_package_path : ℕ → Bytes → Option Bytes
  create_data_user_ce_package_path user package_name = do
    check (check_package_name package_name)
    dir ← create_data_user_ce_path user
    some (join dir package_name)

  unfoldable pub create_data_user_ce_package_path_as_user_link : ℕ → Bytes → Option Bytes
  create_data_user_ce_package_path_as_user_link userid package_name = do
    check (check_package_name package_name)
    d ← create_data_path device uuid
    some (join (d ++ (codes "/user/" ++ decimal userid)) package_name)

  unfoldable pub create_data_user_de_path : ℕ → Option Bytes
  create_data_user_de_path userid = do
    d ← create_data_path device uuid
    some (d ++ (codes "/user_de/" ++ decimal userid))

  unfoldable pub create_data_user_de_package_path : ℕ → Bytes → Option Bytes
  create_data_user_de_package_path user package_name = do
    check (check_package_name package_name)
    dir ← create_data_user_de_path user
    some (join dir package_name)

  unfoldable pub create_data_misc_ce_rollback_base_path : ℕ → Option Bytes
  create_data_misc_ce_rollback_base_path user = do
    d ← create_data_path device uuid
    some (d ++ (codes "/misc_ce/" ++ (decimal user ++ codes "/rollback")))

  unfoldable pub create_data_misc_de_rollback_base_path : ℕ → Option Bytes
  create_data_misc_de_rollback_base_path user = do
    d ← create_data_path device uuid
    some (d ++ (codes "/misc_de/" ++ (decimal user ++ codes "/rollback")))

  unfoldable pub create_data_media_path : ℕ → Option Bytes
  create_data_media_path userid = do
    d ← create_data_path device uuid
    some (d ++ (codes "/media/" ++ decimal userid))

  unfoldable pub create_data_media_package_path : ℕ → Bytes → Bytes → Option Bytes
  create_data_media_package_path userid data_type package_name = do
    media ← create_data_media_path userid
    some (join (join (media ++ codes "/Android") data_type) package_name)

-- An entry of a directory: its inode number, its name, and whether it is a directory itself.
pub record Entry : Type 0 where
  pub inode : ℕ
  pub name : Bytes
  pub is_directory : Bool

unfoldable pub resolve_inode : Bytes → ℕ → Bytes → List Entry → Bytes
resolve_inode root inode fallback [] = fallback
resolve_inode root inode fallback (ent ∷ entries) =
    if ent.inode == inode then join root ent.name else resolve_inode root inode fallback entries

-- `none` is a directory that cannot be opened.
unfoldable pub resolve_ce_path_by_inode_or_fallback :
    Bytes → ℕ → Bytes → Option (List Entry) → Bytes
resolve_ce_path_by_inode_or_fallback root inode fallback none = fallback
resolve_ce_path_by_inode_or_fallback root inode fallback (some entries) =
    if inode == 0 then fallback else resolve_inode root inode fallback entries

-- The user of a directory name, where strtol reads all of it and gives a userid_t that is not 0.
unfoldable pub user_of_long : Option Long → Option ℕ
user_of_long none = none
user_of_long (some v) = elim v.rest [
  | c ∷ s ↦ none
  | [] ↦ let user = low_word v.is_negative v.size in if user == 0 then none else some user
]

unfoldable pub other_users : List Entry → List ℕ
other_users [] = []
other_users (ent ∷ entries) =
    let rest = other_users entries in
    if ent.is_directory
    then elim (user_of_long (strtol 10 ent.name)) [ none ↦ rest | some user ↦ user ∷ rest ]
    else rest

-- get_known_users, given the directory of the users.
unfoldable pub get_known_users : Option (List Entry) → List ℕ
get_known_users none = 0 ∷ []
get_known_users (some entries) = 0 ∷ other_users entries
