-- ===== src/Paths/Confined.antt =====
-- Paths that validate_path of installd/utils.cpp accepts stay below their directory.
use cmds.Common.{
  drop-append, ℕ, zero, suc, ◌+◌, ◌≤◌, ◌<◌, ◌≡◌, refl, sym, ap, ◌∙◌, true, false, not, ◌&&◌, List,
  [], ◌∷◌, ◌++◌, Bytes, codes, starts_with, none, some, ◌==◌, if◌then◌else◌, arith, length, drop,
  Option-cases, inl, inr,
}
use cmds.Paths.{slash}
use cmds.Paths.Globals.{ends_with_slash}
use cmds.Paths.Validate.{
  contains, find_slash, count_loop, count_subdirs, is_valid_dir, validate_path,
}
use cmds.Paths.Components.{
  components, walk, target, walk-append, walk_down, components-append, walk-empty,
  components_no_parent, contains-cons,
}

-- The slashes that no other slash follows.
unfoldable pub subdirs : Bytes → ℕ
subdirs [] = 0
subdirs (c ∷ s) = (if c == slash && not (starts_with s (slash ∷ [])) then 1 else 0) + subdirs s

find_slash-none : (s : Bytes) → find_slash s ≡ none → subdirs s ≡ 0
unfolding find_slash subdirs
find_slash-none [] e = refl
find_slash-none (c ∷ s) e = ground (arith, find_slash-none s)

find_slash-some :
    (s behind : Bytes)
    → find_slash s ≡ some behind
    → (length behind < length s)
      × (subdirs s ≡ (if starts_with behind (slash ∷ []) then 0 else 1) + subdirs behind)
unfolding find_slash subdirs
find_slash-some [] b e = cc
find_slash-some (c ∷ s) b e = ground (arith, find_slash-some s b)

count_loop-subdirs :
    (fuel : ℕ) (s : Bytes) (count : ℕ)
    → length s < fuel
    → count_loop fuel (find_slash s) count ≡ count + subdirs s
unfolding count_loop
count_loop-subdirs zero s count h = absurd (omega arith)
count_loop-subdirs (suc fuel) s count h = elim (Option-cases (find_slash s)) [
  | inl e ↦ rw e (omega (arith, find_slash-none s e))
  | inr (b, e) ↦
      let step = find_slash-some s b e in
      rw e (
        ground (
          arith,
          step.0,
          step.1,
          count_loop-subdirs fuel b (if starts_with b (slash ∷ []) then count else count + 1)
              (omega (arith, step.0)),
        ))
]

-- The loop has fuel enough, and counts the slashes that no other slash follows.
pub count_subdirs-subdirs : (s : Bytes) → count_subdirs s ≡ subdirs s
unfolding count_subdirs
count_subdirs-subdirs s = omega (arith, count_loop-subdirs (suc (length s)) s 0 (omega arith))

starts_with-split :
    (path dir : Bytes) → starts_with path dir ≡ true → path ≡ dir ++ drop (length dir) path
unfolding starts_with
starts_with-split path [] h = refl
starts_with-split [] (d ∷ dir) h = cc
starts_with-split (c ∷ path) (d ∷ dir) h = ground (arith, starts_with-split path dir)

pub starts_with-append : (dir rest : Bytes) → starts_with (dir ++ rest) dir ≡ true
unfolding starts_with
starts_with-append [] rest = refl
starts_with-append (d ∷ dir) rest = ground (arith, starts_with-append dir rest)

contains-suffix :
    (sub dir rest : Bytes) → contains sub (dir ++ rest) ≡ false → contains sub rest ≡ false
contains-suffix sub [] rest h = h
contains-suffix sub (d ∷ dir) rest h =
    contains-suffix sub dir rest (contains-cons sub (dir ++ rest) d h).1

-- What is below a directory and has no ".." is reached by going down from the directory.
below :
    (dir rest : Bytes)
    → starts_with dir (slash ∷ []) ≡ true
    → ends_with_slash dir ≡ true
    → contains (codes "..") rest ≡ false
    → (names : List Bytes) × (target (dir ++ rest) ≡ names ++ target dir)
unfolding starts_with
below [] rest h e d = cc
below (c ∷ dir) rest h e d =
    let (first, up, whole, more) = components-append c dir rest e in
    let at = walk [] (first ∷ up) in
    let (names, down) = walk_down at (components rest) (components_no_parent rest d) in
    (
      names,
      rw
          (
            whole,
            more,
            walk-append [] (first ∷ up) (components rest),
            walk-append [] (first ∷ up) ([] ∷ []),
          )
          (down ∙ ap (◌++◌ names) (sym (walk-empty at))),
    )

validate_path-checks :
    (dir path : Bytes) (n : ℕ)
    → validate_path dir path n ≡ true
    → (starts_with dir (slash ∷ []) ≡ true)
      × (ends_with_slash dir ≡ true)
      × (contains (codes "..") path ≡ false)
      × (starts_with path dir ≡ true)
      × (count_subdirs (drop (length dir) path) ≤ n)
unfolding validate_path is_valid_dir
validate_path-checks dir path n h = ground arith

-- A path that validate_path accepts for a directory is the directory's own text and a rest with at
-- most max_subdirs slashes that no other slash follows; and resolving the path component by
-- component from the root, "." and ".." as the file system takes them and leaving symbolic links
-- aside, leads to the directory or to something below it.
pub validate_path-Confined :
    (dir path : Bytes) (max_subdirs : ℕ)
    → validate_path dir path max_subdirs ≡ true
    → (rest : Bytes) × (names : List Bytes) × (path ≡ dir ++ rest)
      × (target path ≡ names ++ target dir)
      × (subdirs rest ≤ max_subdirs)
validate_path-Confined dir path n h =
    let (abs, ends, parents, starts, few) = validate_path-checks dir path n h in
    let rest = drop (length dir) path in
    let e : path ≡ dir ++ rest = starts_with-split path dir starts in
    let plain =
      contains-suffix (codes "..") dir rest (ap (contains (codes "..")) (sym e) ∙ parents) in
    let (names, down) = below dir rest abs ends plain in
    (rest, names, e, ap (λ p. target p) e ∙ down, omega (arith, few, count_subdirs-subdirs rest))

-- A directory text that is_valid_dir accepts, followed by a rest with at most max_subdirs slashes
-- that no other slash follows, is accepted when there is no ".." in it.
validate_path_complete :
    (dir rest : Bytes) (max_subdirs : ℕ)
    → is_valid_dir dir ≡ true
    → contains (codes "..") (dir ++ rest) ≡ false
    → subdirs rest ≤ max_subdirs
    → validate_path dir (dir ++ rest) max_subdirs ≡ true
unfolding validate_path
validate_path_complete dir rest n valid plain few = ground (
  arith,
  starts_with-append dir rest,
  drop-append dir rest,
  count_subdirs-subdirs rest,
  ap (λ r. count_subdirs r) (drop-append dir rest),
)
