-- ===== src/Paths/Separate.antt =====
-- The directories that installd/utils.cpp gives to users and packages are different ones, and
-- get_known_users reads the users back from their names.
use cmds.Common.{
  ℕ, ◌<◌, ◌≡◌, refl, sym, ap, ◌∙◌, true, false, List, [], ◌∷◌, ◌++◌, Bytes, codes, Option, none,
  some, arith, Bool-cases, Option-cases, inl, inr, append_assoc, drop,
}
use mathlib.Core.List.{append_cancel_left}
use cmds.Paths.Confined.{starts_with-append}
use cmds.CLib.{read_digits, digit_value, low_word, saturate, strtol, u32_mod}
use cmds.CLib.Decimal.{decimal, read_digits-decimal, strtol-decimal}
use cmds.CLib.Prefix.{IsEnd, read_digits-append}
use cmds.Paths.{slash, Device, create_data_path, check_package_name}
use cmds.Paths.Create.{
  join, create_data_user_de_path, create_data_user_de_package_path, Entry, user_of_long,
  other_users, get_known_users,
}
use cmds.Paths.Validate.{is_plain_dex_path, validate_secondary_dex_path}

slash-IsEnd : IsEnd slash
unfolding digit_value
slash-IsEnd = refl

decimal-injective :
    (m n : ℕ) (s t : Bytes) → decimal m ++ slash ∷ s ≡ decimal n ++ slash ∷ t → (m ≡ n) × (s ≡ t)
decimal-injective m n s t e =
    let f : (m, slash ∷ s) ≡ (n, slash ∷ t) =
      sym (read_digits-append 0 m (decimal m) slash s slash-IsEnd (read_digits-decimal m))
      ∙ ap (read_digits 10 0) e
      ∙ read_digits-append 0 n (decimal n) slash t slash-IsEnd (read_digits-decimal n) in
    (ap (λ p. p.0) f, ap (λ p. drop 1 p.1) f)

de_package_path-none :
    (device : Device) (uuid : Option Bytes) (user : ℕ) (pkg : Bytes)
    → create_data_path device uuid ≡ none
    → create_data_user_de_package_path device uuid user pkg ≡ none
unfolding create_data_user_de_package_path create_data_user_de_path
de_package_path-none device uuid user pkg e = elim (Bool-cases (check_package_name pkg)) [
  | inl ok ↦ rw (ok, e) refl
  | inr bad ↦ rw bad refl
]

de_package_path-some :
    (device : Device) (uuid : Option Bytes) (user : ℕ) (pkg d path : Bytes)
    → create_data_path device uuid ≡ some d
    → create_data_user_de_package_path device uuid user pkg ≡ some path
    → path ≡ d ++ (codes "/user_de/" ++ (decimal user ++ slash ∷ pkg))
unfolding create_data_user_de_package_path create_data_user_de_path
de_package_path-some device uuid user pkg d path e h = elim (Bool-cases (check_package_name pkg)) [
  | inl ok ↦
      let dir = d ++ (codes "/user_de/" ++ decimal user) in
      let made : create_data_user_de_package_path device uuid user pkg ≡ some (join dir pkg) =
        rw (ok, e) refl in
      ap (λ o. elim o [ none ↦ path | some p ↦ p ]) (sym h ∙ made)
      ∙ append_assoc d (codes "/user_de/" ++ decimal user) (slash ∷ pkg)
  | inr bad ↦ ground (arith, h, bad)
]

-- The directories of one volume for packages of users, device encrypted, are all different: one
-- path is that of one user and one package.
pub create_data_user_de_package_path-injective :
    (device : Device) (uuid : Option Bytes) (user user' : ℕ)
    (package_name package_name' path : Bytes)
    → create_data_user_de_package_path device uuid user package_name ≡ some path
    → create_data_user_de_package_path device uuid user' package_name' ≡ some path
    → (user ≡ user') × (package_name ≡ package_name')
create_data_user_de_package_path-injective device uuid user user' pkg pkg' path h h' =
    elim (Option-cases (create_data_path device uuid)) [
      | inl e ↦ cc (h, de_package_path-none device uuid user pkg e)
      | inr (d, e) ↦ decimal-injective user user' pkg pkg' (
          append_cancel_left (codes "/user_de/") _ _ (
            append_cancel_left d _ _ (
              sym (de_package_path-some device uuid user pkg d path e h)
              ∙ de_package_path-some device uuid user' pkg' d path e h')))
    ]

named-user :
    (name : Bytes) (user : ℕ)
    → name ≡ decimal user
    → 0 < user
    → user < u32_mod
    → user_of_long (strtol 10 name) ≡ some user
unfolding user_of_long low_word saturate
named-user name user e lo hi = rw (e, (strtol-decimal user).1) (ground arith)

other_users-append :
    (before after : List Entry) (ent : Entry) (user : ℕ)
    → ent.is_directory ≡ true
    → user_of_long (strtol 10 ent.name) ≡ some user
    → other_users (before ++ ent ∷ after) ≡ other_users before ++ user ∷ other_users after
unfolding other_users
other_users-append [] after ent user d e = rw (d, e) refl
other_users-append (b ∷ before) after ent user d e =
    let rest = other_users-append before after ent user d e in
    elim (Bool-cases b.is_directory) [
      | inl yes_dir ↦ elim (Option-cases (user_of_long (strtol 10 b.name))) [
        | inl n ↦ rw (yes_dir, n) rest
        | inr (u, n) ↦ rw (yes_dir, n) (ap (◌∷◌ u) rest)
      ]
      | inr no_dir ↦ rw no_dir rest
    ]

-- A directory named by a number that is a userid other than 0 makes that user known, after those
-- that the entries before it make known.
get_known_users-decimal :
    (before after : List Entry) (ent : Entry) (user : ℕ)
    → ent.is_directory ≡ true
    → ent.name ≡ decimal user
    → 0 < user
    → user < u32_mod
    → get_known_users (some (before ++ ent ∷ after))
      ≡ get_known_users (some before) ++ user ∷ other_users after
unfolding get_known_users
get_known_users-decimal before after ent user d e lo hi =
    ap (◌∷◌ 0) (other_users-append before after ent user d (named-user ent.name user e lo hi))

-- Where the path of the package's directory, device encrypted, is followed by any text at all, the
-- path is accepted if it is plain: no separator has to stand after the package's name.
pub validate_secondary_dex_path-sibling :
    (device : Device) (pkgname dir suffix : Bytes) (uuid : Option Bytes) (user : ℕ)
    → create_data_user_de_package_path device uuid user pkgname ≡ some dir
    → is_plain_dex_path (dir ++ suffix) ≡ true
    → validate_secondary_dex_path device pkgname (dir ++ suffix) uuid user false ≡ some true
unfolding validate_secondary_dex_path
validate_secondary_dex_path-sibling device pkgname dir suffix uuid user e plain =
    rw (plain, e, starts_with-append dir suffix) refl
