-- ===== src/Atrace/Tests.antt =====
-- The theorems on atrace at small systems.
use cmds.Common.{
  ◌^◌, ◌≡◌, refl, true, false, [], ◌∷◌, codes, bytes_eq, starts_with, some, pos, less,
}
use cmds.CLib.Decimal.{decimal, push_digits, signed_decimal}
use cmds.Paths.Validate.{contains}
use cmds.Atrace.{
  TracingCategory, write, truncate, set_property, poke_binder, poke_hal, clock_sync_marker, dump,
  sleep, System, ◌&=◌, core_service_category, pdx_service_category, all_off,
  set_kernel_option_enable, supported_files, is_category_supported, enable_vendor_category,
  enable_category, Tracing, set_category_enable, set_categories_enable_from_file,
}
use cmds.Atrace.Table.{Tags, category, req, k_categories}
use cmds.Atrace.Kernel.{
  split_at, set_trace_overwrite_enable, set_user_initiated_trace_property, set_tracing_enabled,
  clear_trace, set_trace_buffer_size_kb, new_clock, find_char, current_clock, set_clock,
  set_print_tgid_enable_if_present, disable_files, disable_kernel_trace_events, enable_files,
  enable_kernel_trace_events, verify_kernel_trace_funcs, stop_tracing_functions,
  set_kernel_trace_funcs, has, tokens, not_empty,
}
use cmds.Atrace.Userspace.{
  app_property, hex_digit_of, hex_digits, print_tags, enabled_tags, is_enabled, set_tags_property,
  clear_app_properties, set_apps, set_app_cmdline_property, package_list, set_up_userspace_tracing,
  clean_up_userspace_tracing, set_up_vendor_tracing, clean_up_vendor_tracing,
}
use cmds.Atrace.Run.{
  debug_app, Options, default_options, read_option, read_options, is_allowed, ran, enable_all,
  set_up_kernel_tracing, clean_up_kernel_tracing, set_up_rest, wait, capture, start, first_sleep,
  stop, dump_trace, clean_up, run, main,
}
use cmds.Atrace.Files.{Files, after}
use cmds.Atrace.Enabled.{set_up_kernel_tracing-files, enable_all-enable}
use cmds.Atrace.Restored.{run-disabled}
use cmds.Atrace.Tagged.{tags_set, start-tags}
use cmds.Atrace.Functions.{verify_kernel_trace_funcs-known}

abbrev system : System
system = record {
  exists = λ path. false;
  is_writable = λ path. true;
  succeeds = λ a. true;
  clock = codes "local [boot]";
  filter = some (codes "vfs_read\nvfs_write\n");
  core_services = [];
  words_of = λ file. some (codes "gfx" ∷ []);
  has_hal = false;
}

abbrev irq : TracingCategory
irq = category (codes "irq") (codes "IRQ Events") 0 (req (codes "events/irq/enable") ∷ [])

abbrev gfx : TracingCategory
gfx = category (codes "gfx") (codes "Graphics") 2 []

abbrev fresh : Tracing
fresh = record {
  categories = (gfx, false) ∷ (irq, false) ∷ [];
  vendor_categories = [];
  trace_pdx = false;
}

abbrev with_irq : Tracing
with_irq = record fresh { categories = (gfx, false) ∷ (irq, true) ∷ [] }

abbrev with_file : Options
with_file = record default_options { categories_file = some (codes "/data/categories") }

abbrev files : Files
files path = codes "x"

-- atrace -a a irq
traced :
    main system false (debug_app (codes "a") ∷ []) (codes "irq" ∷ []) fresh
    ≡ ran true (
        set_property (codes "debug.atrace.tags.enableflags") (codes "0")
        ∷ set_property (codes "debug.atrace.app_0") (codes "a")
        ∷ set_property (codes "debug.atrace.app_number") (codes "1")
        ∷ poke_binder
        ∷ poke_hal
        ∷ set_property (codes "debug.atrace.user_initiated") (codes "1")
        ∷ write (codes "options/overwrite") (codes "0")
        ∷ write (codes "buffer_size_kb") (codes "2048")
        ∷ write (codes "current_tracer") (codes "nop")
        ∷ truncate (codes "set_ftrace_filter")
        ∷ write (codes "events/irq/enable") (codes "0")
        ∷ write (codes "events/irq/enable") (codes "1")
        ∷ write (codes "tracing_on") (codes "1")
        ∷ truncate (codes "trace")
        ∷ clock_sync_marker
        ∷ sleep (pos 5)
        ∷ write (codes "tracing_on") (codes "0")
        ∷ dump
        ∷ truncate (codes "trace")
        ∷ set_property (codes "debug.atrace.tags.enableflags") (codes "0")
        ∷ set_property (codes "debug.atrace.app_number") []
        ∷ poke_binder
        ∷ poke_hal
        ∷ write (codes "events/irq/enable") (codes "0")
        ∷ write (codes "options/overwrite") (codes "1")
        ∷ write (codes "buffer_size_kb") (codes "1")
        ∷ write (codes "current_tracer") (codes "nop")
        ∷ truncate (codes "set_ftrace_filter")
        ∷ set_property (codes "debug.atrace.user_initiated") []
        ∷ [])
unfolding main read_options read_option is_allowed enable_all run start capture set_up_rest wait
    first_sleep stop dump_trace clean_up set_up_kernel_tracing clean_up_kernel_tracing
    set_up_userspace_tracing clean_up_userspace_tracing set_up_vendor_tracing
    clean_up_vendor_tracing set_trace_overwrite_enable set_user_initiated_trace_property
    set_tracing_enabled clear_trace set_trace_buffer_size_kb new_clock find_char current_clock
    set_clock set_print_tgid_enable_if_present disable_files disable_kernel_trace_events
    enable_files enable_kernel_trace_events stop_tracing_functions set_kernel_trace_funcs
    app_property print_tags enabled_tags is_enabled set_tags_property clear_app_properties set_apps
    set_app_cmdline_property package_list split_at decimal push_digits signed_decimal less bytes_eq
    contains starts_with ◌&=◌ set_kernel_option_enable supported_files is_category_supported
    core_service_category pdx_service_category enable_vendor_category enable_category
    set_category_enable set_categories_enable_from_file
traced = refl

tags_printed : print_tags 0x10a2 ≡ codes "0x10a2"
unfolding print_tags hex_digits hex_digit_of
tags_printed = refl

set_up_kernel_tracing-files_example :
    after system
      (set_up_kernel_tracing system default_options with_irq).1.0
      files
      (codes "events/irq/enable")
    ≡ codes "1"
unfolding set_up_kernel_tracing set_categories_enable_from_file bytes_eq
set_up_kernel_tracing-files_example =
    set_up_kernel_tracing-files system default_options with_irq (codes "events/irq/enable") files
      refl refl refl refl

abbrev tags : Tags
tags = record {
  graphics = 2 ^ 1;
  input = 2 ^ 2;
  view = 2 ^ 3;
  webview = 2 ^ 4;
  window_manager = 2 ^ 5;
  activity_manager = 2 ^ 6;
  sync_manager = 2 ^ 7;
  audio = 2 ^ 8;
  video = 2 ^ 9;
  camera = 2 ^ 10;
  hal = 2 ^ 11;
  resources = 2 ^ 12;
  dalvik = 2 ^ 13;
  rs = 2 ^ 14;
  bionic = 2 ^ 15;
  power = 2 ^ 16;
  package_manager = 2 ^ 17;
  system_server = 2 ^ 18;
  database = 2 ^ 19;
  network = 2 ^ 20;
  adb = 2 ^ 21;
  vibrator = 2 ^ 22;
  aidl = 2 ^ 23;
  nnapi = 2 ^ 24;
  rro = 2 ^ 25;
}

abbrev all_categories : Tracing
all_categories = record fresh { categories = all_off (k_categories tags) }

enable_all-enable_example :
    (enable_kernel_trace_events system
      (enable_all system (codes "sched" ∷ codes "gfx" ∷ []) all_categories).0.categories).1
    ≡ true
enable_all-enable_example =
    enable_all-enable system (λ a. refl) tags (codes "sched" ∷ codes "gfx" ∷ []) all_categories refl

run-disabled_example :
    after system (run system true with_file with_irq).1 files (codes "events/irq/enable")
    ≡ codes "0"
unfolding starts_with bytes_eq
run-disabled_example =
    run-disabled system (codes "events/irq/enable") refl refl refl true with_file with_irq files
      refl refl refl

-- The file enables gfx, of the tag 2.
start-tags_example : tags_set (start system with_file with_irq).1.0 ≡ codes "0" ∷ []
unfolding print_tags enabled_tags
start-tags_example = start-tags system with_file with_irq refl

verify_kernel_trace_funcs-known_example :
    verify_kernel_trace_funcs system (codes "vfs_read,ext4*") ≡ true
unfolding tokens split_at not_empty bytes_eq has
verify_kernel_trace_funcs-known_example =
    verify_kernel_trace_funcs-known system (codes "vfs_read,ext4*") (
      refl,
      (
        refl,
        (
          refl,
          (
            refl,
            (refl, (refl, (refl, (refl, (refl, (refl, (refl, (refl, (refl, (refl, tt)))))))))),
          ),
        ),
      ),
    )
