-- ===== src/Paths/Apk.antt =====
-- validate_apk_path_internal of installd/utils.cpp: its recursion ends, and what it accepts.
use cmds.Common.{
  ℕ, suc, ◌+◌, ◌≤◌, ◌≡◌, refl, sym, ◌∙◌, Bool, true, false, ◌||◌, List, ◌++◌, Bytes, starts_with,
  drop, length, none, some, ◌⊎◌, inl, inr, arith, Bool-cases, Option-cases,
}
use cmds.Paths.Globals.{Dirs}
use cmds.Paths.Validate.{
  find_slash, validate_path, validate_internal, modified, validate_apk_path_loop,
  validate_apk_path_internal,
}
use cmds.Paths.Components.{target}
use cmds.Paths.Confined.{subdirs, validate_path-Confined}

-- A directory of the internal storage that takes APKs.
pub data IsApkDir (dirs : Dirs) : Bytes → Type 0 where
  app : IsApkDir dirs dirs.android_app_dir
  staging : IsApkDir dirs dirs.android_staging_dir
  app_private : IsApkDir dirs dirs.android_app_private_dir
  app_ephemeral : IsApkDir dirs dirs.android_app_ephemeral_dir
  asec : IsApkDir dirs dirs.android_asec_dir

-- No path on internal storage is on an expanded volume.
abbrev pub IsDisjoint : Dirs → Type 0
IsDisjoint dirs =
    (rest : Bytes) → starts_with (dirs.android_data_dir ++ rest) dirs.android_mnt_expand_dir ≡ false

modified-shape :
    (dirs : Dirs) (path internal : Bytes)
    → modified dirs path ≡ some internal
    → (rest : Bytes) × (internal ≡ dirs.android_data_dir ++ rest)
unfolding modified
modified-shape dirs path internal e =
    let tail = drop (length dirs.android_mnt_expand_dir + 1) path in
    elim (Option-cases (find_slash tail)) [
      | inl f ↦ ground (arith, e, f)
      | inr (rest, f) ↦ (rest, ground (arith, e, f))
    ]

modified_once :
    (dirs : Dirs) (path internal : Bytes)
    → IsDisjoint dirs
    → modified dirs path ≡ some internal
    → modified dirs internal ≡ none
unfolding modified
modified_once dirs path internal apart e =
    let (rest, f) = modified-shape dirs path internal e in rw (f, apart rest) refl

-- Whether a path is accepted as it stands or as it would be on internal storage.
abbrev pub is_accepted : Dirs → Bytes → ℕ → Bool
is_accepted dirs path n = validate_internal dirs path n || elim (modified dirs path) [
  | none ↦ false
  | some internal ↦ validate_internal dirs internal n
]

-- Where the data directory is not on an expanded volume, the recursion ends after one modification
-- of the path, whatever fuel beyond two rounds it has, and gives whether the path, or the path with
-- the volume replaced by the data directory, is accepted in a directory of internal storage.
validate_apk_path_internal_total :
    (dirs : Dirs) (path : Bytes) (max_subdirs fuel : ℕ)
    → IsDisjoint dirs
    → validate_apk_path_loop (suc (suc fuel)) dirs path max_subdirs
      ≡ some (is_accepted dirs path max_subdirs)
unfolding validate_apk_path_loop
validate_apk_path_internal_total dirs path n fuel apart =
    elim (Bool-cases (validate_internal dirs path n)) [
      | inl yes_here ↦ rw yes_here refl
      | inr not_here ↦ elim (Option-cases (modified dirs path)) [
        | inl e ↦ rw (not_here, e) refl
        | inr (internal, e) ↦ elim (Bool-cases (validate_internal dirs internal n)) [
          | inl yes_there ↦ rw (not_here, e, yes_there) refl
          | inr not_there ↦
              rw (not_here, e, not_there, modified_once dirs path internal apart e) refl
        ]
      ]
    ]

||-split : (a b : Bool) → (a || b) ≡ true → (a ≡ true) ⊎ (b ≡ true)
||-split true b h = inl refl
||-split false b h = inr h

validate_internal-IsApkDir :
    (dirs : Dirs) (path : Bytes) (n : ℕ)
    → validate_internal dirs path n ≡ true
    → (dir : Bytes) × IsApkDir dirs dir × (validate_path dir path n ≡ true)
unfolding validate_internal
validate_internal-IsApkDir dirs path n h = elim (||-split _ _ h) [
  | inr a ↦ (dirs.android_asec_dir, asec, a)
  | inl h1 ↦ elim (||-split _ _ h1) [
    | inr a ↦ (dirs.android_app_ephemeral_dir, app_ephemeral, a)
    | inl h2 ↦ elim (||-split _ _ h2) [
      | inr a ↦ (dirs.android_app_private_dir, app_private, a)
      | inl h3 ↦ elim (||-split _ _ h3) [
        | inr a ↦ (dirs.android_staging_dir, staging, a)
        | inl a ↦ (dirs.android_app_dir, app, a)
      ]
    ]
  ]
]

-- A path below one of the directories that take APKs, not deeper than max_subdirs.
abbrev pub Inside : Dirs → ℕ → Bytes → Type 0
Inside dirs n path =
    (dir : Bytes) × (rest : Bytes) × (names : List Bytes) × IsApkDir dirs dir
    × (path ≡ dir ++ rest)
    × (target path ≡ names ++ target dir)
    × (subdirs rest ≤ n)

inside :
    (dirs : Dirs) (path : Bytes) (n : ℕ) → validate_internal dirs path n ≡ true → Inside dirs n path
inside dirs path n h =
    let (dir, kind, ok) = validate_internal-IsApkDir dirs path n h in
    let (rest, names, e, t, few) = validate_path-Confined dir path n ok in
    (dir, rest, names, kind, e, t, few)

-- A path that validate_apk_path or validate_apk_path_subdirs accepts, with 1 or 3 for max_subdirs,
-- leads to something in one of the five directories that take APKs and not deeper than max_subdirs,
-- or does so when its volume is replaced by the data directory; as far as the data directory is not
-- on an expanded volume, and leaving symbolic links aside.
pub validate_apk_path-Inside :
    (dirs : Dirs) (path : Bytes) (max_subdirs : ℕ)
    → IsDisjoint dirs
    → validate_apk_path_internal dirs path max_subdirs ≡ some true
    → Inside dirs max_subdirs path
      ⊎ ((internal : Bytes) × (modified dirs path ≡ some internal)
          × Inside dirs max_subdirs internal)
unfolding validate_apk_path_internal
validate_apk_path-Inside dirs path n apart h =
    let e = sym (validate_apk_path_internal_total dirs path n 0 apart) ∙ h in
    elim (Bool-cases (validate_internal dirs path n)) [
      | inl here ↦ inl (inside dirs path n here)
      | inr not_here ↦ elim (Option-cases (modified dirs path)) [
        | inl m ↦ ground (arith, e, not_here, m)
        | inr (internal, m) ↦
            inr (internal, m, inside dirs internal n (ground (arith, e, not_here, m)))
      ]
    ]
