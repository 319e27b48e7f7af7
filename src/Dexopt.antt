-- ===== src/Dexopt.antt =====
-- installd/dexopt.cpp: the paths of the compiled files of an app. A path that does not fit its buffer is
-- `none`, as is one that cannot be made.
pub mod Move
pub mod Resolved
pub mod Inside
pub mod Gone
pub mod Compiler
pub mod Filter
pub mod Tests
use cmds.Common.{
  ℕ, ◌+◌, ◌-◌, Bool, true, false, not, ◌&&◌, ◌||◌, List, [], ◌∷◌, ◌++◌, Bytes, codes, bytes_eq,
  starts_with, Option, none, some, ◌==◌, ltb, leb, if◌then◌else◌, length, take, drop,
}
use cmds.Paths.Globals.{Dirs}
use cmds.Paths.Validate.{contains, validate_apk_path, pkg_path_max}

-- s.rfind(pattern): what is before the last occurrence, and what is behind it.
unfoldable pub rfind : Bytes → Bytes → Option (Bytes × Bytes)
rfind pattern [] = if bytes_eq pattern [] then some ([], []) else none
rfind pattern (c ∷ s) =
    let here : Option (Bytes × Bytes) =
      if starts_with (c ∷ s) pattern then some ([], drop (length pattern) (c ∷ s)) else none in
    elim (rfind pattern s) [ some (before, rest) ↦ some (c ∷ before, rest) | none ↦ here ]

-- android::base::EndsWith
unfoldable pub ends_with : Bytes → Bytes → Bool
ends_with s suffix =
    leb (length suffix) (length s) && bytes_eq (drop (length s - length suffix) s) suffix

unfoldable pub replace_odex : Bytes → Option (Bytes × Bytes) → Bytes
replace_odex new_ext none = []
replace_odex new_ext (some (before, rest)) = before ++ (new_ext ++ rest)

-- Empty where the extension is not known.
unfoldable pub replace_file_extension : Bytes → Bytes → Bytes
replace_file_extension oat_path new_ext =
    if ends_with oat_path (codes ".dex")
    then take (length oat_path - 4) oat_path ++ new_ext
    else replace_odex new_ext (rfind (codes ".odex") oat_path)

unfoldable pub create_image_filename : Bytes → Bytes
create_image_filename oat_path = replace_file_extension oat_path (codes ".art")

unfoldable pub create_vdex_filename : Bytes → Bytes
create_vdex_filename oat_path = replace_file_extension oat_path (codes ".vdex")

-- A null pointer is `none`.
unfoldable pub is_output_dalvik_cache : Option Bytes → Bool
is_output_dalvik_cache none = true
is_output_dalvik_cache (some []) = false
is_output_dalvik_cache (some (c ∷ s)) = c == b'!'

unfoldable pub validate_dex_path_size : Bytes → Bool
validate_dex_path_size dex_path = not (leb (pkg_path_max - 8) (length dex_path))

abbrev pub begins_at_root : Bytes → Bool
begins_at_root [] = false
begins_at_root (c ∷ s) = c == b'/'

unfoldable pub is_absolute_path : Bytes → Bool
is_absolute_path path = begins_at_root path && not (contains (codes "..") path)

unfoldable pub is_valid_instruction_set : Bytes → Bool
is_valid_instruction_set instruction_set = not (contains (codes "/") instruction_set)

abbrev pub fitting : Bytes → Option Bytes
fitting res = if leb pkg_path_max (length res) then none else some res

-- The path up to the last component, and that component up to its last dot.
unfoldable pub split_apk_path : Bytes → Option (Bytes × Bytes)
split_apk_path apk_path = elim (rfind (codes ".") apk_path) [
  | none ↦ none
  | some (stem, extension) ↦ rfind (codes "/") stem
]

unfoldable pub odex_in : Bytes → Bytes → Option (Bytes × Bytes) → Option Bytes
odex_in oat_dir instruction_set none = none
odex_in oat_dir instruction_set (some (dir, name)) =
    fitting (oat_dir ++ (codes "/" ++ (instruction_set ++ (codes "/" ++ (name ++ codes ".odex")))))

unfoldable pub calculate_oat_file_path : Bytes → Bytes → Bytes → Option Bytes
calculate_oat_file_path oat_dir apk_path instruction_set =
    if not (is_absolute_path oat_dir)
    then none
    else if not (is_absolute_path apk_path)
    then none
    else if not (is_valid_instruction_set instruction_set)
    then none
    else odex_in oat_dir instruction_set (split_apk_path apk_path)

unfoldable pub calculate_odex_file_path : Bytes → Bytes → Option Bytes
calculate_odex_file_path apk_path instruction_set =
    if not (is_absolute_path apk_path)
    then none
    else if not (is_valid_instruction_set instruction_set)
    then none
    else elim (split_apk_path apk_path) [
      | none ↦ none
      | some (dir, name) ↦ calculate_oat_file_path (dir ++ codes "/oat") apk_path instruction_set
    ]

unfoldable pub slashes_replaced : Bytes → Bytes
slashes_replaced [] = []
slashes_replaced (c ∷ s) = (if c == b'/' then b'@' else c) ∷ slashes_replaced s

-- The first character is kept.
abbrev pub cache_name : Bytes → Bytes
cache_name [] = []
cache_name (c ∷ s) = c ∷ slashes_replaced s

unfoldable pub create_cache_path : Dirs → Bytes → Bytes → Option Bytes
create_cache_path dirs src instruction_set =
    if not (is_absolute_path src)
    then none
    else if not (is_valid_instruction_set instruction_set)
    then none
    else fitting (
        dirs.android_data_dir
        ++ (codes "dalvik-cache/" ++ (instruction_set ++ (cache_name src ++ codes "@classes.dex"))))

-- validate_apk_path(path) == 0
abbrev pub is_apk_path : Dirs → Bytes → Bool
is_apk_path dirs path = elim (validate_apk_path dirs path) [ none ↦ false | some valid ↦ valid ]

unfoldable pub create_oat_out_path : Dirs → Bytes → Bytes → Option Bytes → Bool → Option Bytes
create_oat_out_path dirs apk_path instruction_set oat_dir is_secondary_dex =
    if not (validate_dex_path_size apk_path) then none else elim oat_dir [
      | none ↦ create_cache_path dirs apk_path instruction_set
      | some dir ↦
          if is_output_dalvik_cache (some dir)
          then create_cache_path dirs apk_path instruction_set
          else if not is_secondary_dex && not (is_apk_path dirs dir)
          then none
          else calculate_oat_file_path dir apk_path instruction_set
    ]
