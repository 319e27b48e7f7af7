-- ===== src/Paths/Packages.antt =====
-- Package names of installd/utils.cpp are file names.
use cmds.Common.{
  ◌≡◌, refl, Bool, true, false, [], ◌∷◌, Bytes, codes, bytes_eq, arith, Bool-cases, inl, inr,
}
use cmds.Paths.{
  slash, has_char, is_letter, is_digit_or_underscore, is_valid_suffix, is_valid_from,
  is_valid_package_name, is_valid_filename, check_package_name,
}

has_char-suffix : (s : Bytes) → is_valid_suffix s ≡ true → has_char slash s ≡ false
unfolding is_valid_suffix has_char is_letter is_digit_or_underscore
has_char-suffix [] h = refl
has_char-suffix (c ∷ s) h = ground (arith, has_char-suffix s)

has_char-from : (front : Bool) (s : Bytes) → is_valid_from front s ≡ true → has_char slash s ≡ false
unfolding is_valid_from is_valid_suffix has_char is_letter is_digit_or_underscore
has_char-from front [] h = refl
has_char-from front (c ∷ s) h =
    ground (arith, has_char-from false s, has_char-from true s, has_char-suffix s)

not_dots :
    (s : Bytes)
    → is_valid_from true s ≡ true
    → (bytes_eq s [] ≡ false) × (bytes_eq s (codes ".") ≡ false) × (bytes_eq s (codes "..") ≡ false)
unfolding is_valid_from is_valid_suffix bytes_eq is_letter is_digit_or_underscore
not_dots [] h = cc
not_dots (c ∷ []) h = ground arith
not_dots (c ∷ d ∷ []) h = ground arith
not_dots (c ∷ d ∷ e ∷ s) h = ground arith

filename :
    (s : Bytes)
    → (bytes_eq s [] ≡ false) × (bytes_eq s (codes ".") ≡ false) × (bytes_eq s (codes "..") ≡ false)
    → has_char slash s ≡ false
    → is_valid_filename s ≡ true
unfolding is_valid_filename bytes_eq
filename [] d h = cc
filename (c ∷ s) d h = ground (arith, d.0, d.1, d.2)

-- Every name that is_valid_package_name accepts is one that is_valid_filename accepts: it is not
-- empty, "." or "..", and has no slash. So of the two CHECKs of check_package_name the second
-- decides alone.
check_package_name-decided : (name : Bytes) → check_package_name name ≡ is_valid_package_name name
unfolding check_package_name is_valid_package_name
check_package_name-decided name = elim (Bool-cases (is_valid_from true name)) [
  | inl e ↦ rw (e, filename name (not_dots name e) (has_char-from true name e)) refl
  | inr e ↦ rw e (ground arith)
]
