-- ===== src/Paths/Arguments.antt =====
-- The checks of callers and arguments in installd/InstalldNativeService.cpp. `root` is AID_ROOT.
use cmds.Common.{
  ℕ, Bool, not, ◌||◌, [], ◌∷◌, ◌++◌, Bytes, codes, bytes_eq, Option, none, some, ◌==◌,
  if◌then◌else◌,
}
use cmds.Paths.{slash, has_char, is_valid_filename, is_valid_package_name}
use cmds.Paths.Validate.{contains}

-- binder::Status: ok, EX_SECURITY and EX_ILLEGAL_ARGUMENT.
pub data Status : Type 0 where
  ok security illegal_argument : Status

abbrev pub accept_if : Bool → Status
accept_if b = if b then ok else illegal_argument

unfoldable pub check_uid : ℕ → ℕ → ℕ → Status
check_uid root uid expected = if uid == expected || uid == root then ok else security

unfoldable pub check_argument_uuid : Option Bytes → Status
check_argument_uuid none = ok
check_argument_uuid (some uuid) = accept_if (is_valid_filename uuid)

unfoldable pub check_argument_uuid_test_or_null : Option Bytes → Status
check_argument_uuid_test_or_null none = ok
check_argument_uuid_test_or_null (some uuid) = accept_if (bytes_eq uuid (codes "TEST"))

unfoldable pub check_argument_package_name : Bytes → Status
check_argument_package_name package_name = accept_if (is_valid_package_name package_name)

unfoldable pub check_argument_path : Bytes → Status
check_argument_path [] = illegal_argument
check_argument_path (c ∷ path) =
    if not (c == slash)
    then illegal_argument
    else if contains (codes "/../") ((c ∷ path) ++ slash ∷ [])
    then illegal_argument
    else if has_char 0 (c ∷ path) || has_char b'\n' (c ∷ path)
    then illegal_argument
    else ok

unfoldable pub check_argument_optional_path : Option Bytes → Status
check_argument_optional_path none = ok
check_argument_optional_path (some path) = check_argument_path path
