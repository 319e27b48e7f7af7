-- ===== src/Atrace/Userspace.antt =====
-- The settings of the processes in atrace/atrace.cpp.
use cmds.Common.{
  ℕ, zero, suc, ◌+◌, ◌-◌, ◌/◌, ◌%◌, Bool, true, false, List, [], ◌∷◌, ◌++◌, Bytes, codes, bytes_eq,
  ◌==◌, if◌then◌else◌, bit_or, leb,
}
use cmds.CLib.Decimal.{decimal}
use cmds.Atrace.{
  TracingVendorCategory, set_property, poke_binder, poke_hal, poke_pdx, enable_vendor,
  disable_vendor, System, Done, ◌&=◌, nothing, Categories, act, core_service_category,
  pdx_service_category, Tracing,
}
use cmds.Atrace.Kernel.{split_at}

abbrev pub trace_tags_property : Bytes
trace_tags_property = codes "debug.atrace.tags.enableflags"

abbrev pub trace_apps_number_property : Bytes
trace_apps_number_property = codes "debug.atrace.app_number"

unfoldable pub app_property : ℕ → Bytes
app_property i = codes "debug.atrace.app_" ++ decimal i

unfoldable pub hex_digit_of : ℕ → ℕ
hex_digit_of d = if leb d 9 then b'0' + d else b'a' + (d - 10)

-- The digits of a number of 64 bits, without leading zeros.
unfoldable pub hex_digits : ℕ → ℕ → Bytes → Bytes
hex_digits zero n acc = acc
hex_digits (suc f) n acc =
    let more = hex_digits f (n / 16) (hex_digit_of (n % 16) ∷ acc) in
    if n / 16 == 0 then hex_digit_of (n % 16) ∷ acc else more

-- %#llx, which writes no prefix before 0.
unfoldable pub print_tags : ℕ → Bytes
print_tags tags = if tags == 0 then codes "0" else codes "0x" ++ hex_digits 16 tags []

unfoldable pub enabled_tags : Categories → ℕ
enabled_tags [] = 0
enabled_tags ((c, enabled) ∷ cs) =
    if enabled then bit_or c.tags (enabled_tags cs) else enabled_tags cs

-- Whether the last category of the name is enabled; the value from before where there is none.
unfoldable pub is_enabled : Bytes → Bool → Categories → Bool
is_enabled name before [] = before
is_enabled name before ((c, enabled) ∷ cs) =
    is_enabled name (if bytes_eq c.name name then enabled else before) cs

module _ (system : System) where
  unfoldable pub set_tags_property : ℕ → Done
  set_tags_property tags = act system (set_property trace_tags_property (print_tags tags))

  unfoldable pub clear_app_properties : Done
  clear_app_properties = act system (set_property trace_apps_number_property [])

  abbrev pub or_clear : Done → Done
  or_clear (actions, true) = (actions, true)
  or_clear (actions, false) = (actions ++ clear_app_properties.0, false)

  -- The properties of the apps from the i-th on, up to a failure.
  unfoldable pub set_apps : ℕ → List Bytes → Done
  set_apps i [] = act system (set_property trace_apps_number_property (decimal i))
  set_apps i (app ∷ apps) =
      let rest = set_apps (i + 1) apps in
      let action = set_property (app_property i) app in
      if system.succeeds action then (action ∷ rest.0, rest.1) else (action ∷ [], false)

  unfoldable pub set_app_cmdline_property : Bytes → Done
  set_app_cmdline_property cmdline =
      let (first, rest) = split_at b',' cmdline in or_clear (set_apps 0 (first ∷ rest))

  unfoldable pub package_list : Bytes → Bool → Bytes
  package_list debug_app_cmd_line core_services_tag_enabled =
      if core_services_tag_enabled
      then debug_app_cmd_line
        ++ ((if bytes_eq debug_app_cmd_line [] then [] else codes ",") ++ system.core_services)
      else debug_app_cmd_line

  -- The answers of the services are not looked at.
  abbrev pub poke_services : Done
  poke_services = (poke_binder ∷ poke_hal ∷ [], true)

  abbrev pub poke_pdx_if : Bool → Done
  poke_pdx_if trace_pdx = if trace_pdx then act system poke_pdx else nothing

  unfoldable pub set_up_userspace_tracing : Bytes → Tracing → Tracing × Done
  set_up_userspace_tracing debug_app_cmd_line t =
      let trace_pdx = is_enabled pdx_service_category t.trace_pdx t.categories in
      (
        record t { trace_pdx = trace_pdx },
        set_tags_property (enabled_tags t.categories)
            &= set_app_cmdline_property (
                package_list debug_app_cmd_line
                  (is_enabled core_service_category false t.categories))
            &= poke_services
            &= poke_pdx_if trace_pdx,
      )

  unfoldable pub clean_up_userspace_tracing : Tracing → Done
  clean_up_userspace_tracing t =
      set_tags_property 0 &= clear_app_properties &= poke_services &= poke_pdx_if t.trace_pdx

  unfoldable pub enabled_vendors : List TracingVendorCategory → List Bytes
  enabled_vendors [] = []
  enabled_vendors (c ∷ cs) =
      let rest = enabled_vendors cs in if c.enabled then c.name ∷ rest else rest

  abbrev pub enable_vendors : List Bytes → Done
  enable_vendors [] = nothing
  enable_vendors (c ∷ cs) = act system (enable_vendor (c ∷ cs))

  unfoldable pub set_up_vendor_tracing : Tracing → Done
  set_up_vendor_tracing t =
      if system.has_hal then enable_vendors (enabled_vendors t.vendor_categories) else nothing

  abbrev pub disable_vendors : List TracingVendorCategory → Done
  disable_vendors [] = nothing
  disable_vendors (c ∷ cs) = act system disable_vendor

  unfoldable pub clean_up_vendor_tracing : Tracing → Done
  clean_up_vendor_tracing t =
      if system.has_hal then disable_vendors t.vendor_categories else nothing
