-- ===== src/Preopt/Request.antt =====
-- What a command line of otapreopt means (installd/otapreopt_parameters.cpp), told apart from its
-- readers, as installd/tests/installd_otapreopt_test.cpp tells it: a version v from 2 on sends the
-- first v + 9 of sixteen words, and all of them from 7 on; version 1 sends ten.
use Prim.Native.Nat.{min}
use cmds.Common.{
  ℕ, ◌+◌, ◌*◌, ◌/◌, ◌%◌, ◌^◌, Bool, false, List, [], ◌∷◌, Bytes, codes, none, some, ltb, leb,
  if◌then◌else◌, bit_or, take,
}
use cmds.CLib.{atoi}
use cmds.Preopt.{Parameters, parse_bool, parse_null}
use cmds.Preopt.Arguments.{libraries_accepted}

-- The words of a dexopt request, in the order of the command line.
pub record Request : Type 0 where
  pub apk_path : Bytes
  pub uid : Bytes
  pub pkg_name : Bytes
  pub instruction_set : Bytes
  pub dexopt_needed : Bytes
  pub oat_dir : Bytes
  pub dexopt_flags : Bytes
  pub compiler_filter : Bytes
  pub volume_uuid : Bytes
  pub shared_libraries : Bytes
  pub se_info : Bytes
  pub downgrade : Bytes
  pub target_sdk_version : Bytes
  pub profile_name : Bytes
  pub dex_metadata_path : Bytes
  pub compilation_reason : Bytes

abbrev pub words : Request → List Bytes
words r =
    r.apk_path ∷ r.uid ∷ r.pkg_name ∷ r.instruction_set ∷ r.dexopt_needed ∷ r.oat_dir
    ∷ r.dexopt_flags ∷ r.compiler_filter ∷ r.volume_uuid ∷ r.shared_libraries ∷ r.se_info
    ∷ r.downgrade ∷ r.target_sdk_version ∷ r.profile_name ∷ r.dex_metadata_path
    ∷ r.compilation_reason ∷ []

abbrev pub sent : ℕ → Request → List Bytes
sent version r = take (min (version + 9) 16) (words r)

-- The parameters that a request means in a version: what the version does not send has a default.
abbrev pub meaning : ℕ → Request → Bytes → Parameters
meaning version r slot = record {
  apk_path = r.apk_path;
  uid = atoi r.uid;
  pkg_name = r.pkg_name;
  instruction_set = r.instruction_set;
  dexopt_needed = atoi r.dexopt_needed;
  oat_dir = r.oat_dir;
  dexopt_flags = bit_or (atoi r.dexopt_flags) (if ltb version 8 then 2048 else 0);
  compiler_filter = r.compiler_filter;
  volume_uuid = parse_null r.volume_uuid;
  shared_libraries = parse_null r.shared_libraries;
  se_info = parse_null r.se_info;
  downgrade = if leb 3 version then parse_bool r.downgrade else false;
  target_sdk_version = if leb 4 version then atoi r.target_sdk_version else 0;
  profile_name = if leb 5 version then parse_null r.profile_name else some (codes "primary.prof");
  dex_metadata_path = if leb 6 version then parse_null r.dex_metadata_path else none;
  compilation_reason =
      if leb 7 version then parse_null r.compilation_reason else some (codes "ab-ota");
  target_slot = slot;
}

-- The result of a request in a version that is known.
abbrev pub answer : ℕ → Request → Bytes → Parameters × Bool
answer version r slot =
    (meaning version r slot, libraries_accepted version (parse_null r.shared_libraries))

-- The ten words of version 1; its fifth says how an old compiler would have been run.
pub record V1Request : Type 0 where
  pub apk_path : Bytes
  pub uid : Bytes
  pub pkg_name : Bytes
  pub instruction_set : Bytes
  pub old_dexopt_needed : Bytes
  pub oat_dir : Bytes
  pub dexopt_flags : Bytes
  pub compiler_filter : Bytes
  pub volume_uuid : Bytes
  pub shared_libraries : Bytes

abbrev pub v1_words : V1Request → List Bytes
v1_words r =
    r.apk_path ∷ r.uid ∷ r.pkg_name ∷ r.instruction_set ∷ r.old_dexopt_needed ∷ r.oat_dir
    ∷ r.dexopt_flags ∷ r.compiler_filter ∷ r.volume_uuid ∷ r.shared_libraries ∷ []

-- Binary digit k of a number.
abbrev pub bit : ℕ → ℕ → ℕ
bit n k = n / 2 ^ k % 2

-- The old bits 1, 3, 4 and 5 go to 1, 2, 3 and 4, no other is kept, and bit 11 is set.
abbrev pub moved_flags : ℕ → ℕ
moved_flags n = 2 ^ 11 + 2 * bit n 1 + 4 * bit n 3 + 8 * bit n 4 + 16 * bit n 5

abbrev pub v1_meaning : V1Request → Bytes → Parameters
v1_meaning r slot = record {
  apk_path = r.apk_path;
  uid = atoi r.uid;
  pkg_name = r.pkg_name;
  instruction_set = r.instruction_set;
  dexopt_needed = 1;
  oat_dir = r.oat_dir;
  dexopt_flags = moved_flags (atoi r.dexopt_flags);
  compiler_filter = r.compiler_filter;
  volume_uuid = parse_null r.volume_uuid;
  shared_libraries = parse_null r.shared_libraries;
  se_info = none;
  downgrade = false;
  target_sdk_version = 0;
  profile_name = some (codes "primary.prof");
  dex_metadata_path = none;
  compilation_reason = some (codes "ab-ota");
  target_slot = slot;
}
