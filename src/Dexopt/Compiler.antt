-- ===== src/Dexopt/Compiler.antt =====
-- RunDex2Oat of installd/dexopt.cpp: the arguments of dex2oat. A file descriptor is an int, -1 for none. The
-- system properties, the environment and which compilers are installed are the argument System.
use cmds.Common.{
  Bool, true, false, not, ◌&&◌, ◌||◌, List, [], ◌∷◌, ◌++◌, Bytes, codes, bytes_eq, Option, none,
  some, ◌==◌, if◌then◌else◌, ℤ, pos, negsuc, less,
}
use cmds.CLib.Decimal.{signed_decimal}
use cmds.Dexopt.{rfind}

pub record System : Type 0 where
  -- What the system property is; empty where it is not set.
  pub property : Bytes → Bytes
  -- GetBoolProperty, with its default.
  pub bool_property : Bytes → Bool → Bool
  pub getenv : Bytes → Option Bytes
  pub server_configurable_flag : Bytes → Bytes → Bytes → Bytes
  pub is_executable : Bytes → Bool

abbrev pub dex2oat_path : Bytes
dex2oat_path = codes "/apex/com.android.runtime/bin/dex2oat"

abbrev pub dex2oat_debug_path : Bytes
dex2oat_debug_path = codes "/apex/com.android.runtime/bin/dex2oatd"

-- AddArg and AddRuntimeArg.
pub data Added : Type 0 where
  arg runtime_arg : Bytes → Added

unfoldable pub no_text : Bytes → Bool
no_text [] = true
no_text (c ∷ s) = false

unfoldable pub add_arg : Added → List Bytes
add_arg (arg s) = if no_text s then [] else s ∷ []
add_arg (runtime_arg s) = if no_text s then [] else codes "--runtime-arg" ∷ s ∷ []

unfoldable pub add_each : List Added → List Bytes
add_each [] = []
add_each (a ∷ added) = add_arg a ++ add_each added

abbrev pub only_if : Bool → Bytes → Bytes
only_if true s = s
only_if false s = []

-- The text before the first space, and the others.
unfoldable pub split_spaces : Bytes → Bytes × List Bytes
split_spaces [] = ([], [])
split_spaces (c ∷ s) =
    let (first, rest) = split_spaces s in
    if c == b' ' then ([], first ∷ rest) else (c ∷ first, rest)

unfoldable pub split_by_spaces : Bytes → List Bytes
split_by_spaces [] = []
split_by_spaces (c ∷ s) = let (first, rest) = split_spaces (c ∷ s) in first ∷ rest

unfoldable pub get_location_from_path : Bytes → Bytes
get_location_from_path path = elim (rfind (codes "/") path) [
  | none ↦ path
  | some (dir, location) ↦ location
]

-- A format is what stands before its %s.
unfoldable pub format_property : Bytes → Bytes → Bytes
format_property format prop = if no_text prop then [] else format ++ prop

abbrev pub or_default : Bytes → Bytes → Bytes
or_default prop default_value = if no_text prop then default_value else prop

abbrev pub is_not_negative : ℤ → Bool
is_not_negative fd = not (less fd (pos 0))

unfoldable pub same_fd : ℤ → ℤ → Bool
same_fd (pos m) (pos n) = m == n
same_fd (negsuc m) (negsuc n) = m == n
same_fd _ _ = false

-- What RunDex2Oat is made with. A null pointer is `none`.
pub record RunDex2Oat : Type 0 where
  pub zip_fd : ℤ
  pub oat_fd : ℤ
  pub input_vdex_fd : ℤ
  pub output_vdex_fd : ℤ
  pub image_fd : ℤ
  pub input_file_name : Bytes
  pub output_file_name : Bytes
  pub swap_fd : ℤ
  pub instruction_set : Bytes
  pub compiler_filter : Option Bytes
  pub debuggable : Bool
  pub post_bootcomplete : Bool
  pub background_job_compile : Bool
  pub profile_fd : ℤ
  pub class_loader_context : Option Bytes
  pub class_loader_context_fds : Bytes
  pub target_sdk_version : ℤ
  pub enable_hidden_api_checks : Bool
  pub generate_compact_dex : Bool
  pub dex_metadata_fd : ℤ
  pub compilation_reason : Option Bytes

unfoldable pub prefixed : Bytes → Option Bytes → Bytes
prefixed format none = []
prefixed format (some s) = format ++ s

abbrev pub fd_arg : Bytes → ℤ → Bytes
fd_arg format fd = format ++ signed_decimal fd

module _ (system : System) where
  unfoldable pub map_property_to_arg : Bytes → Bytes → Bytes
  map_property_to_arg property format = format_property format (system.property property)

  unfoldable pub select_execution_binary : Bytes → Bytes → Bool → Bool → Bool → Bool → Bytes
  select_execution_binary binary debug_binary background_job_compile is_debug_runtime is_release
        is_debuggable_build =
      let is_debug_bg_job = background_job_compile && is_debuggable_build && not is_release in
      if (is_debug_runtime || is_debug_bg_job) && system.is_executable debug_binary
      then debug_binary
      else binary

  unfoldable pub is_debug_runtime : Bool
  is_debug_runtime =
      bytes_eq (system.property (codes "persist.sys.dalvik.vm.lib.2")) (codes "libartd.so")

  unfoldable pub execution_binary : Bool → Bytes
  execution_binary background_job_compile =
      select_execution_binary dex2oat_path dex2oat_debug_path background_job_compile
        is_debug_runtime
        (bytes_eq (system.property (codes "ro.build.version.codename")) (codes "REL"))
        (system.bool_property (codes "ro.debuggable") false)

  unfoldable pub skip_compilation : Bool
  skip_compilation =
      let vold_decrypt = system.property (codes "vold.decrypt") in
      bytes_eq vold_decrypt (codes "trigger_restart_min_framework")
      || bytes_eq vold_decrypt (codes "1")

  unfoldable pub resolve_startup_string_arg : Bytes
  resolve_startup_string_arg =
      or_default
        (map_property_to_arg (codes "persist.device_config.runtime.dex2oat_resolve_startup_strings")
          (codes "--resolve-startup-const-strings="))
        (map_property_to_arg (codes "dalvik.vm.dex2oat-resolve-startup-strings")
          (codes "--resolve-startup-const-strings="))

  unfoldable pub boot_image : Bytes
  boot_image =
      if bytes_eq
        (system.server_configurable_flag (codes "runtime_native_boot") (codes "enable_apex_image")
          [])
        (codes "true")
      then codes "-Ximage:" ++ codes "/system/framework/apex.art"
      else map_property_to_arg (codes "dalvik.vm.boot-image") (codes "-Ximage:")

  unfoldable pub compiler_filter_arg : Option Bytes → Bytes
  compiler_filter_arg compiler_filter =
      or_default
        (if skip_compilation
          then codes "--compiler-filter=extract"
          else prefixed (codes "--compiler-filter=") compiler_filter)
        (map_property_to_arg (codes "dalvik.vm.dex2oat-filter") (codes "--compiler-filter="))

  unfoldable pub is_debuggable : Bool → Bool
  is_debuggable debuggable =
      debuggable || bytes_eq (system.property (codes "dalvik.vm.always_debuggable")) (codes "1")

  unfoldable pub base_dir : Bytes → Bytes
  base_dir input_file_name = elim (rfind (codes "/") input_file_name) [
    | none ↦ []
    | some (dir, name) ↦ codes "--classpath-dir=" ++ dir
  ]

  unfoldable pub class_loader_context_fds_arg : Option Bytes → Bytes → Bytes
  class_loader_context_fds_arg none fds = []
  class_loader_context_fds_arg (some context) fds =
      format_property (codes "--class-loader-context-fds=") fds

  abbrev pub isa_key : Bytes → Bytes → Bytes
  isa_key instruction_set name = codes "dalvik.vm.isa." ++ (instruction_set ++ name)

  unfoldable pub threads_property : Bool → Bytes
  threads_property post_bootcomplete =
      if post_bootcomplete
      then codes "dalvik.vm.dex2oat-threads"
      else codes "dalvik.vm.boot-dex2oat-threads"

  unfoldable pub target_sdk_version_arg : ℤ → Bytes
  target_sdk_version_arg (pos n) =
      only_if (not (n == 0)) (fd_arg (codes "-Xtarget-sdk-version:") (pos n))
  target_sdk_version_arg (negsuc n) = fd_arg (codes "-Xtarget-sdk-version:") (negsuc n)

  -- The arguments up to the image.
  unfoldable pub first_args : RunDex2Oat → List Added
  first_args r =
      arg (fd_arg (codes "--zip-fd=") r.zip_fd)
      ∷ arg (codes "--zip-location=" ++ get_location_from_path r.input_file_name)
      ∷ arg (fd_arg (codes "--input-vdex-fd=") r.input_vdex_fd)
      ∷ arg (fd_arg (codes "--output-vdex-fd=") r.output_vdex_fd)
      ∷ arg (fd_arg (codes "--oat-fd=") r.oat_fd)
      ∷ arg (codes "--oat-location=" ++ r.output_file_name)
      ∷ arg (codes "--instruction-set=" ++ r.instruction_set)
      ∷ arg (
          map_property_to_arg (isa_key r.instruction_set (codes ".variant"))
            (codes "--instruction-set-variant="))
      ∷ arg (
          map_property_to_arg (isa_key r.instruction_set (codes ".features"))
            (codes "--instruction-set-features="))
      ∷ runtime_arg boot_image
      ∷ runtime_arg
          (prefixed (codes "-Xbootclasspath:") (system.getenv (codes "DEX2OATBOOTCLASSPATH")))
      ∷ runtime_arg (map_property_to_arg (codes "dalvik.vm.dex2oat-Xms") (codes "-Xms"))
      ∷ runtime_arg (map_property_to_arg (codes "dalvik.vm.dex2oat-Xmx") (codes "-Xmx"))
      ∷ arg resolve_startup_string_arg
      ∷ arg (
          map_property_to_arg (codes "dalvik.vm.dex2oat-max-image-block-size")
            (codes "--max-image-block-size="))
      ∷ []

  -- The arguments behind the compiler filter.
  unfoldable pub last_args : RunDex2Oat → List Added
  last_args r =
      arg (map_property_to_arg (threads_property r.post_bootcomplete) (codes "-j"))
      ∷ arg (only_if (is_not_negative r.swap_fd) (fd_arg (codes "--swap-fd=") r.swap_fd))
      ∷ arg (only_if (is_not_negative r.image_fd) (fd_arg (codes "--app-image-fd=") r.image_fd))
      ∷ arg (
          only_if (system.bool_property (codes "debug.generate-debug-info") false)
            (codes "--generate-debug-info"))
      ∷ arg (only_if (is_debuggable r.debuggable) (codes "--debuggable"))
      ∷ arg (
          only_if (is_not_negative r.image_fd)
            (map_property_to_arg (codes "dalvik.vm.appimageformat") (codes "--image-format=")))
      ∷ arg (
          map_property_to_arg (codes "dalvik.vm.dex2oat-very-large")
            (codes "--very-large-app-threshold="))
      ∷ runtime_arg (only_if skip_compilation (codes "-Xnorelocate"))
      ∷ arg (
          only_if (not (same_fd r.profile_fd (negsuc 0)))
            (fd_arg (codes "--profile-file-fd=") r.profile_fd))
      ∷ arg (base_dir r.input_file_name)
      ∷ arg (prefixed (codes "--class-loader-context=") r.class_loader_context)
      ∷ arg (class_loader_context_fds_arg r.class_loader_context r.class_loader_context_fds)
      ∷ arg (
          only_if (system.bool_property (codes "dalvik.vm.dex2oat-minidebuginfo") false)
            (codes "--generate-mini-debug-info"))
      ∷ arg (
          only_if (not r.generate_compact_dex || same_fd r.input_vdex_fd r.output_vdex_fd)
            (codes "--compact-dex-level=none"))
      ∷ runtime_arg (target_sdk_version_arg r.target_sdk_version)
      ∷ runtime_arg (only_if r.enable_hidden_api_checks (codes "-Xhidden-api-policy:enabled"))
      ∷ arg (
          only_if (is_not_negative r.dex_metadata_fd) (fd_arg (codes "--dm-fd=") r.dex_metadata_fd))
      ∷ arg (prefixed (codes "--compilation-reason=") r.compilation_reason)
      ∷ []

  unfoldable pub dex2oat_args : RunDex2Oat → List Bytes
  dex2oat_args r =
      add_each (first_args r)
      ++ (add_arg (arg (compiler_filter_arg r.compiler_filter)) ++ add_each (last_args r))

  -- What dex2oat is run with: the binary and its arguments.
  unfoldable pub run_dex2oat : RunDex2Oat → List Bytes
  run_dex2oat r =
      execution_binary r.background_job_compile
      ∷ (dex2oat_args r ++ split_by_spaces (system.property (codes "dalvik.vm.dex2oat-flags")))
