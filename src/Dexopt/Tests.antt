-- ===== src/Dexopt/Tests.antt =====
-- The theorems on the compiled files of an app at work.
use cmds.Common.{pos, negsuc, less, true, ◌∷◌, []}
use cmds.CLib.Decimal.{decimal, push_digits, signed_decimal}
use cmds.Dexopt.Compiler.{
  System, RunDex2Oat, run_dex2oat, dex2oat_args, first_args, last_args, add_each, add_arg, no_text,
  split_spaces, split_by_spaces, get_location_from_path, format_property, same_fd, prefixed,
  map_property_to_arg, select_execution_binary, is_debug_runtime, execution_binary,
  skip_compilation, resolve_startup_string_arg, boot_image, compiler_filter_arg, is_debuggable,
  base_dir, class_loader_context_fds_arg, threads_property, target_sdk_version_arg,
}
use cmds.Dexopt.Filter.{filters, filters-dex2oat_args}
use cmds.Common.{◌≡◌, refl, false, Bytes, codes, bytes_eq, starts_with, none, some, if◌then◌else◌}
use cmds.Paths.Validate.{contains}
use cmds.Dexopt.{
  rfind, ends_with, replace_odex, replace_file_extension, create_image_filename,
  create_vdex_filename, is_absolute_path, is_valid_instruction_set, split_apk_path, odex_in,
  calculate_oat_file_path,
}
use cmds.Dexopt.Move.{
  regular, Files, Kernel, with_slot, unlink, rename, unlink_and_rename, move_ab_path, image_moved,
  move_image, vdex_moved, oat_moved, move_artifacts,
}
use cmds.Dexopt.Inside.{IsIn, calculate_oat_file_path-IsIn}
use cmds.Dexopt.Gone.{IsApart, AllGone, move_artifacts-AllGone}

abbrev oat_path : Bytes
oat_path = codes "/data/app/x/oat/arm64/base.odex"

oat_path_made :
    calculate_oat_file_path (codes "/data/app/x/oat") (codes "/data/app/x/base.apk") (codes "arm64")
    ≡ some oat_path
unfolding calculate_oat_file_path is_absolute_path is_valid_instruction_set contains starts_with
    split_apk_path rfind odex_in bytes_eq
oat_path_made = refl

calculate_oat_file_path-IsIn_example : IsIn (codes "/data/app/x/oat") (codes "arm64") oat_path
calculate_oat_file_path-IsIn_example =
    calculate_oat_file_path-IsIn (codes "/data/app/x/oat") (codes "/data/app/x/base.apk")
      (codes "arm64") oat_path oat_path_made

abbrev short_path : Bytes
short_path = codes "/b.odex"

abbrev willing : Kernel
willing = record {
  unlink_refused = λ p. false;
  denied = λ p. false;
  rename_refused = λ from to. false;
}

short_path-IsApart : IsApart (codes "_b") short_path
unfolding create_vdex_filename create_image_filename replace_file_extension replace_odex ends_with
    rfind starts_with bytes_eq
short_path-IsApart = record {
  oat_oat = refl;
  oat_vdex = refl;
  oat_image = refl;
  vdex_vdex = refl;
  vdex_image = refl;
  image_image = refl;
  image_named = refl;
}

-- The slot has an oat file and an image, and no vdex file.
abbrev half : Files
half p =
    if bytes_eq p (codes "/b.odex._b")
    then some (regular (codes "new"))
    else if bytes_eq p (codes "/b.art._b")
    then some (regular (codes "image"))
    else none

half_moved : (move_artifacts willing (codes "_b") short_path half).1 ≡ false
unfolding move_artifacts oat_moved vdex_moved move_image image_moved move_ab_path unlink_and_rename
    rename unlink create_vdex_filename create_image_filename replace_file_extension replace_odex
    ends_with rfind starts_with bytes_eq
half_moved = refl

move_artifacts-AllGone_example :
    AllGone
      (with_slot (codes "_b") short_path)
      (with_slot (codes "_b") (create_vdex_filename short_path))
      (with_slot (codes "_b") (create_image_filename short_path))
      (move_artifacts willing (codes "_b") short_path half).0
move_artifacts-AllGone_example =
    move_artifacts-AllGone willing (λ p. refl) (codes "_b") short_path short_path-IsApart half

abbrev no_data_yet : System
no_data_yet = record {
  property = λ property.
      if bytes_eq property (codes "vold.decrypt")
      then codes "1"
      else if bytes_eq property (codes "dalvik.vm.dex2oat-flags")
      then codes "-v -w"
      else [];
  bool_property = λ property default_value. default_value;
  getenv = λ name. none;
  server_configurable_flag = λ space flag default_value. default_value;
  is_executable = λ path. true;
}

abbrev request : RunDex2Oat
request = record {
  zip_fd = pos 3;
  oat_fd = pos 4;
  input_vdex_fd = negsuc 0;
  output_vdex_fd = pos 5;
  image_fd = negsuc 0;
  input_file_name = codes "/data/app/a/base.apk";
  output_file_name = codes "a.odex";
  swap_fd = pos 6;
  instruction_set = codes "arm";
  compiler_filter = some (codes "speed");
  debuggable = false;
  post_bootcomplete = true;
  background_job_compile = false;
  profile_fd = negsuc 0;
  class_loader_context = none;
  class_loader_context_fds = [];
  target_sdk_version = pos 28;
  enable_hidden_api_checks = true;
  generate_compact_dex = true;
  dex_metadata_fd = negsuc 0;
  compilation_reason = some (codes "install");
}

run :
    run_dex2oat no_data_yet request
    ≡ codes "/apex/com.android.runtime/bin/dex2oat"
      ∷ codes "--zip-fd=3"
      ∷ codes "--zip-location=base.apk"
      ∷ codes "--input-vdex-fd=-1"
      ∷ codes "--output-vdex-fd=5"
      ∷ codes "--oat-fd=4"
      ∷ codes "--oat-location=a.odex"
      ∷ codes "--instruction-set=arm"
      ∷ codes "--compiler-filter=extract"
      ∷ codes "--swap-fd=6"
      ∷ codes "--runtime-arg"
      ∷ codes "-Xnorelocate"
      ∷ codes "--classpath-dir=/data/app/a"
      ∷ codes "--runtime-arg"
      ∷ codes "-Xtarget-sdk-version:28"
      ∷ codes "--runtime-arg"
      ∷ codes "-Xhidden-api-policy:enabled"
      ∷ codes "--compilation-reason=install"
      ∷ codes "-v"
      ∷ codes "-w"
      ∷ []
unfolding run_dex2oat dex2oat_args first_args last_args add_each add_arg no_text split_spaces
    split_by_spaces get_location_from_path format_property same_fd less prefixed map_property_to_arg
    select_execution_binary is_debug_runtime execution_binary skip_compilation
    resolve_startup_string_arg boot_image compiler_filter_arg is_debuggable base_dir
    class_loader_context_fds_arg threads_property target_sdk_version_arg bytes_eq rfind starts_with
    signed_decimal decimal push_digits
run = refl

filters-dex2oat_args_example :
    filters (dex2oat_args no_data_yet request) ≡ codes "--compiler-filter=extract" ∷ []
unfolding skip_compilation bytes_eq
filters-dex2oat_args_example = filters-dex2oat_args no_data_yet request
