-- ===== src/Preopt/Arguments.antt =====
-- The readers of otapreopt's command line in installd/otapreopt_parameters.cpp. Each gives the
-- object as it leaves it, and whether it accepts.
use cmds.Common.{
  ℕ, ◌+◌, Bool, true, false, not, ◌&&◌, List, [], ◌∷◌, Bytes, codes, bytes_eq, Option, none, some,
  ◌==◌, ltb, if◌then◌else◌, bit_or, drop, get_elem?, length, ◌^◌,
}
use cmds.CLib.{atoi}
use cmds.Preopt.{
  Parameters, dexopt_public, dexopt_debuggable, dexopt_bootcomplete, dexopt_profile_guided,
  dexopt_generate_compact_dex, dex2oat_from_scratch, parse_bool, parse_null, parse_uint,
  validate_target_slot_suffix, replace_mask, set_defaults,
}

-- Case 6 of ReadArgumentsV1: the flags of version 1, moved to today's bits.
unfoldable pub v1_flags : ℕ → ℕ
v1_flags input = bit_or (replace_mask input (2 ^ 1) dexopt_public) (
    bit_or (replace_mask input (2 ^ 3) dexopt_debuggable) (
      bit_or (replace_mask input (2 ^ 4) dexopt_bootcomplete)
        (bit_or (replace_mask input (2 ^ 5) dexopt_profile_guided) (replace_mask input (2 ^ 6) 0))))

-- The switch of ReadArgumentsV1; `none` is "Too many arguments".
unfoldable pub set_v1_parameter : Parameters → ℕ → Bytes → Option Parameters
set_v1_parameter p i param =
    if i == 0
    then some (record p { apk_path = param })
    else if i == 1
    then some (record p { uid = atoi param })
    else if i == 2
    then some (record p { pkg_name = param })
    else if i == 3
    then some (record p { instruction_set = param })
    else if i == 4
    then some (record p { dexopt_needed = dex2oat_from_scratch })
    else if i == 5
    then some (record p { oat_dir = param })
    else if i == 6
    then some (record p { dexopt_flags = bit_or p.dexopt_flags (v1_flags (atoi param)) })
    else if i == 7
    then some (record p { compiler_filter = param })
    else if i == 8
    then some (record p { volume_uuid = parse_null param })
    else if i == 9
    then some (record p { shared_libraries = parse_null param })
    else none

unfoldable pub read_v1_loop : Parameters → ℕ → List Bytes → Parameters × Bool
read_v1_loop p i [] = (p, i == 10)
read_v1_loop p i (param ∷ rest) = elim (set_v1_parameter p i param) [
  | none ↦ (p, false)
  | some q ↦ read_v1_loop q (i + 1) rest
]

unfoldable pub read_arguments_v1 : Parameters → List Bytes → Parameters × Bool
read_arguments_v1 p argv = elim (get_elem? argv 2) [
  | none ↦ (p, false)
  | some arg ↦
      if bytes_eq arg (codes "dexopt")
      then read_v1_loop (set_defaults p) 0 (drop 3 argv)
      else (p, false)
]

-- The switch on the version; `none` is a version that is not known.
unfoldable pub num_args_expected : ℕ → Option ℕ
num_args_expected version =
    if version == 2
    then some 11
    else if version == 3
    then some 12
    else if version == 4
    then some 13
    else if version == 5
    then some 14
    else if version == 6
    then some 15
    else if version == 7
    then some 16
    else if version == 8
    then some 16
    else if version == 9
    then some 16
    else if version == 10
    then some 16
    else none

-- The switch of ReadArgumentsPostV1; `none` is the case that should not be reached.
unfoldable pub set_parameter : ℕ → Parameters → ℕ → Bytes → Option Parameters
set_parameter version p i param =
    if i == 0
    then some (record p { apk_path = param })
    else if i == 1
    then some (record p { uid = atoi param })
    else if i == 2
    then some (record p { pkg_name = param })
    else if i == 3
    then some (record p { instruction_set = param })
    else if i == 4
    then some (record p { dexopt_needed = atoi param })
    else if i == 5
    then some (record p { oat_dir = param })
    else if i == 6
    then some (record p {
      dexopt_flags = bit_or (atoi param) (if ltb version 8 then dexopt_generate_compact_dex else 0);
    })
    else if i == 7
    then some (record p { compiler_filter = param })
    else if i == 8
    then some (record p { volume_uuid = parse_null param })
    else if i == 9
    then some (record p { shared_libraries = parse_null param })
    else if i == 10
    then some (record p { se_info = parse_null param })
    else if i == 11
    then some (record p { downgrade = parse_bool param })
    else if i == 12
    then some (record p { target_sdk_version = atoi param })
    else if i == 13
    then some (record p { profile_name = parse_null param })
    else if i == 14
    then some (record p { dex_metadata_path = parse_null param })
    else if i == 15
    then some (record p { compilation_reason = parse_null param })
    else none

unfoldable pub read_loop : ℕ → Parameters → ℕ → List Bytes → Parameters × Bool
read_loop version p i [] = (p, true)
read_loop version p i (param ∷ rest) = elim (set_parameter version p i param) [
  | none ↦ (p, false)
  | some q ↦ read_loop version q (i + 1) rest
]

-- "&" as shared libraries is refused below version 10.
unfoldable pub libraries_accepted : ℕ → Option Bytes → Bool
libraries_accepted version none = true
libraries_accepted version (some libs) = not (ltb version 10 && bytes_eq (codes "&") libs)

unfoldable pub check_libraries : ℕ → Parameters × Bool → Parameters × Bool
check_libraries version (p, false) = (p, false)
check_libraries version (p, true) = (p, libraries_accepted version p.shared_libraries)

unfoldable pub read_expected : ℕ → ℕ → Parameters → List Bytes → Parameters × Bool
read_expected version expected p params =
    if length params == expected
    then check_libraries version (read_loop version (set_defaults p) 0 params)
    else (p, false)

unfoldable pub read_after_dexopt : ℕ → ℕ → Parameters → ℕ → List Bytes → Parameters × Bool
read_after_dexopt version expected p dexopt_index argv = elim (get_elem? argv dexopt_index) [
  | none ↦ (p, false)
  | some arg ↦
      if bytes_eq arg (codes "dexopt")
      then read_expected version expected p (drop (dexopt_index + 1) argv)
      else (p, false)
]

unfoldable pub read_arguments_post_v1 : Parameters → ℕ → List Bytes → Bool → Parameters × Bool
read_arguments_post_v1 p version argv versioned = elim (num_args_expected version) [
  | none ↦ (p, false)
  | some expected ↦ read_after_dexopt version expected p (if versioned then 3 else 2) argv
]

-- 14, the count of arguments of a call of version 2 that does not name its version.
abbrev pub v2_arg_count : ℕ
v2_arg_count = 14

unfoldable pub read_version : Parameters → List Bytes → Bytes → Parameters × Bool
read_version p argv arg =
    if bytes_eq arg (codes "dexopt")
    then if length argv == v2_arg_count
      then read_arguments_post_v1 p 2 argv false
      else read_arguments_v1 p argv
    else elim (parse_uint arg) [
      | none ↦ (p, false)
      | some version ↦ read_arguments_post_v1 p version argv true
    ]

unfoldable pub read_slot : Parameters → List Bytes → Parameters × Bool
read_slot p argv =
    if validate_target_slot_suffix p.target_slot
    then elim (get_elem? argv 2) [ none ↦ (p, false) | some arg ↦ read_version p argv arg ]
    else (p, false)

-- ReadArguments, with argc the length of argv.
unfoldable pub read_arguments : Parameters → List Bytes → Parameters × Bool
read_arguments p argv = elim (get_elem? argv 1) [
  | none ↦ (p, false)
  | some slot ↦ read_slot (record p { target_slot = slot }) argv
]
