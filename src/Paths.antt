-- ===== src/Paths.antt =====
-- The names and path names of installd/utils.cpp. `none` is a CHECK that fails, which ends installd.
-- What installd asks of the device, a property and whether a path is a directory, is an argument.
pub mod Create
pub mod Globals
pub mod Validate
pub mod Components
pub mod Packages
pub mod Confined
pub mod Apk
pub mod Separate
pub mod Profiles
pub mod Arguments
pub mod Plain
pub mod Tests
use cmds.Common.{
  ℕ, ◌-◌, ◌%◌, Bool, true, false, not, ◌&&◌, ◌||◌, List, [], ◌∷◌, ◌++◌, Bytes, codes, bytes_eq,
  Option, none, some, ◌==◌, leb, if◌then◌else◌,
}

abbrev pub slash : ℕ
slash = b'/'

-- name.find(c) != npos
unfoldable pub has_char : ℕ → Bytes → Bool
has_char c [] = false
has_char c (d ∷ s) = d == c || has_char c s

unfoldable pub is_valid_filename : Bytes → Bool
is_valid_filename [] = false
is_valid_filename (c ∷ name) = not (
    bytes_eq (c ∷ name) (codes ".")
    || bytes_eq (c ∷ name) (codes "..")
    || has_char slash (c ∷ name))

unfoldable pub is_letter : ℕ → Bool
is_letter c = (leb b'a' c && leb c b'z') || (leb b'A' c && leb c b'Z')

unfoldable pub is_digit_or_underscore : ℕ → Bool
is_digit_or_underscore c = (leb b'0' c && leb c b'9') || c == b'_'

-- The loop over the suffix, from the first dash on.
unfoldable pub is_valid_suffix : Bytes → Bool
unfolding is_letter is_digit_or_underscore
is_valid_suffix [] = true
is_valid_suffix (c ∷ s) =
    (is_letter c || is_digit_or_underscore c || c == b'-' || c == b'=') && is_valid_suffix s

-- The loop before the first dash; `front` is set at the start of a segment.
unfoldable pub is_valid_from : Bool → Bytes → Bool
unfolding is_letter is_digit_or_underscore is_valid_suffix
is_valid_from front [] = not front
is_valid_from front (c ∷ s) =
    if c == b'-'
    then not front && is_valid_suffix (c ∷ s)
    else if is_letter c || (not front && is_digit_or_underscore c)
    then is_valid_from false s
    else c == b'.' && is_valid_from true s

unfoldable pub is_valid_package_name : Bytes → Bool
unfolding is_valid_from
is_valid_package_name name = is_valid_from true name

unfoldable pub check_package_name : Bytes → Bool
check_package_name name = is_valid_filename name && is_valid_package_name name

infixl 5 ◌>>=◌ ◌>>◌
abbrev pub ◌>>=◌ {ℓ κ} : {A : Type ℓ} {B : Type κ} → Option A → (A → Option B) → Option B
none >>= f = none
some a >>= f = f a

abbrev pub ◌>>◌ {ℓ} : {B : Type ℓ} → Option (Unit {0}) → Option B → Option B
m >> k = m >>= λ _. k

-- CHECK(b)
abbrev pub check : Bool → Option (Unit {0})
check true = some tt
check false = none

pub record Device : Type 0 where
  pub debuggable : Bool
  pub is_dir : Bytes → Bool

unfoldable pub create_data_path : Device → Option Bytes → Option Bytes
create_data_path device none = some (codes "/data")
create_data_path device (some uuid) =
    if bytes_eq uuid (codes "TEST")
    then (do check device.debuggable; some (codes "/data/local/tmp"))
    else (do check (is_valid_filename uuid); some (codes "/mnt/expand/" ++ uuid))
