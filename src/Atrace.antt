-- ===== src/Atrace.antt =====
-- atrace/atrace.cpp: what the program does to the files of the trace folder, to the system properties and to
-- the services, as a list of actions. Whether an action succeeds, what access(2) says of a file and what
-- the files hold that are read are the argument System. A file is named by its path below the folder.
pub mod Table
pub mod Kernel
pub mod Userspace
pub mod Run
pub mod Files
pub mod Enabled
pub mod Restored
pub mod Apps
pub mod Tagged
pub mod Functions
pub mod Tests
use cmds.Common.{
  ℕ, Bool, true, false, not, ◌&&◌, ◌||◌, List, [], ◌∷◌, ◌++◌, Bytes, codes, bytes_eq, Option, none,
  some, ◌==◌, if◌then◌else◌, ℤ,
}

pub record SysFile : Type 0 where
  pub required : Bool
  pub path : Bytes

-- The files before the null path.
pub record TracingCategory : Type 0 where
  pub name : Bytes
  pub longname : Bytes
  pub tags : ℕ
  pub sysfiles : List SysFile

pub record TracingVendorCategory : Type 0 where
  pub name : Bytes
  pub description : Bytes
  pub enabled : Bool

pub data Action : Type 0 where
  write append : Bytes → Bytes → Action
  truncate : Bytes → Action
  set_property : Bytes → Bytes → Action
  poke_binder poke_hal poke_pdx clock_sync_marker stream dump : Action
  enable_vendor : List Bytes → Action
  disable_vendor : Action
  sleep : ℤ → Action

pub record System : Type 0 where
  pub exists : Bytes → Bool
  pub is_writable : Bytes → Bool
  pub succeeds : Action → Bool
  -- The text of trace_clock.
  pub clock : Bytes
  -- The text of set_ftrace_filter; `none` where it cannot be read.
  pub filter : Option Bytes
  -- ro.atrace.core.services
  pub core_services : Bytes
  -- The words of a file of categories, empty ones too; `none` where it cannot be opened.
  pub words_of : Bytes → Option (List Bytes)
  pub has_hal : Bool

-- What is done, and whether all of it succeeded.
abbrev pub Done : Type 0
Done = List Action × Bool

-- ok &= f()
infixl 5 ◌&=◌
unfoldable pub ◌&=◌ : Done → Done → Done
a &= b = (a.0 ++ b.0, a.1 && b.1)

abbrev pub nothing : Done
nothing = ([], true)

abbrev pub fail : Done
fail = ([], false)

unfoldable pub core_service_category : Bytes
core_service_category = codes "core_services"

unfoldable pub pdx_service_category : Bytes
pdx_service_category = codes "pdx"

-- g_categoryEnables[i] stands beside k_categories[i].
abbrev pub Categories : Type 0
Categories = List (TracingCategory × Bool)

abbrev pub all_off : List TracingCategory → Categories
all_off [] = []
all_off (c ∷ cs) = (c, false) ∷ all_off cs

module _ (system : System) where
  abbrev pub act : Action → Done
  act a = (a ∷ [], system.succeeds a)

  unfoldable pub set_kernel_option_enable : Bytes → Bool → Done
  set_kernel_option_enable filename enable =
      act (write filename (if enable then codes "1" else codes "0"))

  unfoldable pub supported_files : Bool → List SysFile → Bool
  supported_files ok [] = ok
  supported_files ok (f ∷ files) =
      let rest = supported_files (system.is_writable f.path || ok) files in
      if system.is_writable f.path || not f.required then rest else false

  unfoldable pub is_category_supported : TracingCategory → Bool
  is_category_supported category =
      if bytes_eq category.name core_service_category
      then not (bytes_eq system.core_services [])
      else if bytes_eq category.name pdx_service_category
      then true
      else supported_files (not (category.tags == 0)) category.sysfiles

  unfoldable pub root_files : Bool → List SysFile → Bool
  root_files ok [] = ok
  root_files ok (f ∷ files) =
      let rest = root_files (system.exists f.path || ok) files in
      if system.exists f.path || not f.required then rest else false

  unfoldable pub is_category_supported_for_root : TracingCategory → Bool
  is_category_supported_for_root category = root_files (not (category.tags == 0)) category.sysfiles

  unfoldable pub enable_vendor_category :
      Bytes → List TracingVendorCategory → List TracingVendorCategory × Bool
  enable_vendor_category name [] = ([], false)
  enable_vendor_category name (c ∷ cs) =
      let (rest, found) = enable_vendor_category name cs in
      if bytes_eq name c.name then (record c { enabled = true } ∷ rest, true) else (c ∷ rest, found)

  -- The categories, and whether the name is there and its category is supported.
  unfoldable pub enable_category : Bytes → Categories → Categories × Option Bool
  enable_category name [] = ([], none)
  enable_category name ((c, enabled) ∷ cs) =
      let (rest, result) = enable_category name cs in
      if bytes_eq name c.name
      then (if is_category_supported c
          then ((c, true) ∷ cs, some true)
          else ((c, enabled) ∷ cs, some false))
      else ((c, enabled) ∷ rest, result)

-- The globals that change.
pub record Tracing : Type 0 where
  pub categories : Categories
  pub vendor_categories : List TracingVendorCategory
  pub trace_pdx : Bool

module _ (system : System) where
  abbrev pub found_or : Option Bool → Bool → Bool
  found_or none vendor_found = vendor_found
  found_or (some ok) vendor_found = ok

  unfoldable pub set_category_enable : Bytes → Tracing → Tracing × Bool
  set_category_enable name t =
      let (vendor, vendor_found) = enable_vendor_category system name t.vendor_categories in
      let (categories, result) = enable_category system name t.categories in
      (
        record t { categories = categories; vendor_categories = vendor },
        found_or result vendor_found,
      )

  unfoldable pub enable_words : List Bytes → Tracing → Tracing × Bool
  enable_words [] t = (t, true)
  enable_words ([] ∷ words) t = enable_words words t
  enable_words ((c ∷ word) ∷ words) t =
      let (next, ok) = set_category_enable (c ∷ word) t in
      let (last, rest) = enable_words words next in (last, ok && rest)

  unfoldable pub set_categories_enable_from_file : Option Bytes → Tracing → Tracing × Bool
  set_categories_enable_from_file none t = (t, true)
  set_categories_enable_from_file (some file) t = elim (system.words_of file) [
    | none ↦ (t, false)
    | some words ↦ enable_words words t
  ]
