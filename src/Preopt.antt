-- ===== src/Preopt.antt =====
-- installd/otapreopt_parameters.cpp and .h: the command line of otapreopt, in its versions. The
-- object's fields keep what they held where a reader does not write them. An int is the number that
-- has its 32 bits; argv[i] is `none` from argc on, where the source finds the null pointer.
pub mod Arguments
pub mod Request
pub mod Number
pub mod PostV1
pub mod V1
pub mod Accepted
pub mod Tests
use cmds.Common.{
  ℕ, zero, suc, ◌+◌, ◌-◌, ◌^◌, Bool, true, false, not, ◌&&◌, ◌||◌, List, [], ◌∷◌, Bytes, codes,
  bytes_eq, Option, none, some, ◌==◌, ltb, leb, if◌then◌else◌, bit_and, bit_or, drop, get_elem?,
  length,
}
use cmds.CLib.{strtol, atoi, u32_mod}

pub record Parameters : Type 0 where
  pub apk_path : Bytes
  pub uid : ℕ
  pub pkg_name : Bytes
  pub instruction_set : Bytes
  pub dexopt_needed : ℕ
  pub oat_dir : Bytes
  pub dexopt_flags : ℕ
  pub compiler_filter : Bytes
  pub volume_uuid : Option Bytes
  pub shared_libraries : Option Bytes
  pub se_info : Option Bytes
  pub downgrade : Bool
  pub target_sdk_version : ℕ
  pub profile_name : Option Bytes
  pub dex_metadata_path : Option Bytes
  pub compilation_reason : Option Bytes
  pub target_slot : Bytes

-- installd_constants.h and dexopt.h
abbrev pub dexopt_public : ℕ
dexopt_public = 2 ^ 1

abbrev pub dexopt_debuggable : ℕ
dexopt_debuggable = 2 ^ 2

abbrev pub dexopt_bootcomplete : ℕ
dexopt_bootcomplete = 2 ^ 3

abbrev pub dexopt_profile_guided : ℕ
dexopt_profile_guided = 2 ^ 4

abbrev pub dexopt_generate_compact_dex : ℕ
dexopt_generate_compact_dex = 2 ^ 11

abbrev pub dex2oat_from_scratch : ℕ
dex2oat_from_scratch = 1

unfoldable pub parse_bool : Bytes → Bool
parse_bool arg = bytes_eq arg (codes "true")

unfoldable pub parse_null : Bytes → Option Bytes
parse_null arg = if bytes_eq arg (codes "!") then none else some arg

-- The whole text has to be a number, within the range of uint32_t.
unfoldable pub parse_uint : Bytes → Option ℕ
parse_uint arg = elim (strtol 0 arg) [
  | none ↦ none
  | some v ↦ elim v.rest [
    | c ∷ s ↦ none
    | [] ↦
        if (v.is_negative && not (v.size == 0)) || ltb (u32_mod - 1) v.size
        then none
        else some v.size
  ]
]

-- ValidateTargetSlotSuffix of otapreopt_utils.h: the expression [a-zA-Z0-9_]+.
unfoldable pub is_slot_char : ℕ → Bool
is_slot_char c =
    (leb b'a' c && leb c b'z')
    || (leb b'A' c && leb c b'Z')
    || (leb b'0' c && leb c b'9')
    || c == b'_'

unfoldable pub all_slot_chars : Bytes → Bool
all_slot_chars [] = true
all_slot_chars (c ∷ s) = is_slot_char c && all_slot_chars s

unfoldable pub validate_target_slot_suffix : Bytes → Bool
validate_target_slot_suffix [] = false
validate_target_slot_suffix (c ∷ s) = all_slot_chars (c ∷ s)

unfoldable pub replace_mask : ℕ → ℕ → ℕ → ℕ
replace_mask input old_mask new_mask = if bit_and input old_mask == 0 then 0 else new_mask

unfoldable pub set_defaults : Parameters → Parameters
set_defaults p = record p {
  se_info = none;
  downgrade = false;
  target_sdk_version = 0;
  profile_name = some (codes "primary.prof");
  dex_metadata_path = none;
  compilation_reason = some (codes "ab-ota");
  dexopt_flags = dexopt_generate_compact_dex;
}
