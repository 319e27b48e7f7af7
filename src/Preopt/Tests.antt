-- ===== src/Preopt/Tests.antt =====
-- Runs of installd/otapreopt_parameters.cpp on small inputs, and the theorems at them.
use cmds.Common.{◌≡◌, refl, true, false, [], ◌∷◌, Bytes, codes, none, arith}
use cmds.CLib.Decimal.{decimal}
use cmds.Preopt.{Parameters, all_slot_chars, is_slot_char, validate_target_slot_suffix}
use cmds.Preopt.Arguments.{read_arguments}
use cmds.Preopt.Request.{Request, sent, answer, V1Request, v1_words, v1_meaning}
use cmds.Preopt.PostV1.{read_arguments-sent}
use cmds.Preopt.V1.{read_arguments-v1}

abbrev blank : Parameters
blank = record {
  apk_path = [];
  uid = 0;
  pkg_name = [];
  instruction_set = [];
  dexopt_needed = 0;
  oat_dir = [];
  dexopt_flags = 0;
  compiler_filter = [];
  volume_uuid = none;
  shared_libraries = none;
  se_info = none;
  downgrade = false;
  target_sdk_version = 0;
  profile_name = none;
  dex_metadata_path = none;
  compilation_reason = none;
  target_slot = [];
}

abbrev request : Request
request = record {
  apk_path = codes "/data/app/a.apk";
  uid = codes "10001";
  pkg_name = codes "a.b";
  instruction_set = codes "arm64";
  dexopt_needed = codes "1";
  oat_dir = codes "/data/app/oat";
  dexopt_flags = codes "2";
  compiler_filter = codes "speed";
  volume_uuid = codes "!";
  shared_libraries = codes "&";
  se_info = codes "!";
  downgrade = codes "true";
  target_sdk_version = codes "28";
  profile_name = codes "primary.prof";
  dex_metadata_path = codes "!";
  compilation_reason = codes "install";
}

abbrev v1_request : V1Request
v1_request = record {
  apk_path = codes "/data/app/a.apk";
  uid = codes "10001";
  pkg_name = codes "a.b";
  instruction_set = codes "arm64";
  old_dexopt_needed = codes "3";
  oat_dir = codes "/data/app/oat";
  dexopt_flags = codes "10";
  compiler_filter = codes "speed";
  volume_uuid = codes "!";
  shared_libraries = codes "&";
}

abbrev program : Bytes
program = codes "otapreopt"

abbrev slot : Bytes
slot = codes "_b"

slot_is_valid : validate_target_slot_suffix slot ≡ true
unfolding validate_target_slot_suffix all_slot_chars is_slot_char
slot_is_valid = refl

slot_with_slash : validate_target_slot_suffix (codes "../b") ≡ false
unfolding validate_target_slot_suffix all_slot_chars is_slot_char
slot_with_slash = refl

read_arguments-sent_example :
    read_arguments blank (program ∷ slot ∷ decimal 7 ∷ codes "dexopt" ∷ sent 7 request)
    ≡ answer 7 request slot
read_arguments-sent_example =
    read_arguments-sent blank program slot 7 request slot_is_valid (omega arith) (omega arith)

read_arguments-v1_example :
    read_arguments blank (program ∷ slot ∷ codes "dexopt" ∷ v1_words v1_request)
    ≡ (v1_meaning v1_request slot, true)
read_arguments-v1_example = read_arguments-v1 blank program slot v1_request slot_is_valid

v1_accepted :
    (read_arguments blank (program ∷ slot ∷ codes "dexopt" ∷ v1_words v1_request)).1 ≡ true
v1_accepted = rw (read_arguments-v1 blank program slot v1_request slot_is_valid)
