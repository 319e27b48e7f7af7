-- ===== src/Rawbu/Untouched.antt =====
-- What the wiping of rawbu/backup.cpp leaves alone.
use cmds.Common.{
  ◌≡◌, ◌≢◌, refl, sym, ap, subst, ◌∙◌, Bool, true, false, ◌||◌, List, [], ◌∷◌, ◌++◌, Bytes, codes,
  bytes_eq, bytes_eq_iff, bytes_eq_refl, starts_with, some, ◌==◌, Bool-cases, inl, inr, arith, All,
  All-append,
}
use cmds.Rawbu.{
  Node, missing, other, file, dir, Forest, nil, cons, Special, no_touch, skip_paths, Config,
  is_left_out, child,
}
use cmds.Rawbu.Wipe.{
  Call, unlink, rmdir, create, mkdir, write, chmod, chown, utime, special_of, Treatment, untouched,
  wiped, emptied, treat, treatment, ◌and_then◌, remove_dir, wipe_leaf, treated, wipe_opened,
  wipe_node, wipe_entries, wipe,
}

-- The path itself, or below it.
abbrev pub is_within : Bytes → Bytes → Bool
is_within skip path = bytes_eq skip path || starts_with path (skip ++ b'/' ∷ [])

abbrev pub NoSlash : Bytes → Type 0
NoSlash name = All (λ c. (c == b'/') ≡ false) name

-- The names of a directory's entries have no slash.
unfoldable mutual
  pub IsNamedNode : Node → Type 0
  IsNamedNode missing = Unit
  IsNamedNode (other st) = Unit
  IsNamedNode (file st opens size content) = Unit
  IsNamedNode (dir st opens nodes) = IsNamed nodes

  pub IsNamed : Forest → Type 0
  IsNamed nil = Unit
  IsNamed (cons name n nodes) = NoSlash name × IsNamedNode n × IsNamed nodes

below_name : (skip name : Bytes) → NoSlash name → starts_with name (skip ++ b'/' ∷ []) ≡ false
unfolding starts_with
below_name [] [] h = refl
below_name (s ∷ skip) [] h = refl
below_name [] (c ∷ name) h = ground (arith, h.0)
below_name (s ∷ skip) (c ∷ name) h = ground (arith, below_name skip name h.1)

-- What is not within a path, with one more name, is within it only as the path itself.
within-child :
    (skip path name : Bytes)
    → NoSlash name
    → is_within skip path ≡ false
    → bytes_eq skip (child path name) ≡ false
    → is_within skip (child path name) ≡ false
unfolding starts_with bytes_eq
within-child [] [] name h out ne = cc
within-child (s ∷ skip) [] name h out ne = ground (arith, ne, below_name skip name h)
within-child [] (p ∷ path) name h out ne = ground (arith, out, ne)
within-child (s ∷ skip) (p ∷ path) name h out ne =
    ground (arith, out, ne, within-child skip path name h)

-- What holds of the paths of a table holds of a path that is found in it.
special_of-All :
    (P : Bytes → Type 0) (path : Bytes) (paths : List (Bytes × Special)) {special : Special}
    → All (λ entry. P entry.0) paths
    → special_of path paths ≡ some special
    → P path
unfolding special_of
special_of-All P path [] h e = cc
special_of-All P path ((p, special) ∷ paths) h e = elim (Bool-cases (bytes_eq p path)) [
  | inl same ↦ subst P ((bytes_eq_iff p path).0 same) h.0
  | inr differ ↦ special_of-All P path paths h.1 (sym (rw differ refl) ∙ e)
]

module _ (config : Config) where
  -- No no-touch path of the table contains the path.
  abbrev pub IsOutside : Bytes → Type 0
  IsOutside path =
      (skip : Bytes) → special_of skip skip_paths ≡ some no_touch → is_within skip path ≡ false

  -- A call that removes nothing that is to stay.
  pub Spares : Call → Type 0
  Spares (unlink path) = IsOutside path × (path ≢ config.backup_file)
  Spares (rmdir path) = IsOutside path
  Spares (create path) = ⊥
  Spares (mkdir path mode) = ⊥
  Spares (write path content) = ⊥
  Spares (chmod path mode) = ⊥
  Spares (chown path uid gid) = ⊥
  Spares (utime path atime mtime) = ⊥

  and_then-All :
      (P : Call → Type 0) (a b : List Call × Bool) → All P a.0 → All P b.0 → All P (a and_then b).0
  and_then-All P (calls, false) b h k = h
  and_then-All P (calls, true) b h k = All-append P calls b.0 h k

  remove_dir-Spares :
      (path : Bytes) (removed : Bool) → IsOutside path → All Spares (remove_dir path removed).0
  unfolding remove_dir Spares
  remove_dir-Spares path true h = (h, tt)
  remove_dir-Spares path false h = tt

  leaf_differs :
      (path : Bytes) → bytes_eq config.backup_file path ≡ false → path ≢ config.backup_file
  leaf_differs path e same =
      let one : bytes_eq config.backup_file path ≡ true =
        ap (bytes_eq config.backup_file) same ∙ bytes_eq_refl config.backup_file in
      cc

  wipe_leaf-Spares : (path : Bytes) → IsOutside path → All Spares (wipe_leaf config path).0
  unfolding wipe_leaf Spares
  wipe_leaf-Spares path h = elim (Bool-cases (bytes_eq config.backup_file path)) [
    | inl e ↦ rw e tt
    | inr e ↦ rw e ((h, leaf_differs path e), tt)
  ]

  wipe_opened-Spares :
      (opens : Bool) (r : List Call × Bool)
      → All Spares r.0
      → All Spares (wipe_opened config opens r).0
  unfolding wipe_opened
  wipe_opened-Spares true r h = h
  wipe_opened-Spares false r h = tt

  treated-Spares :
      (t : Treatment) (wiping : Bool → List Call × Bool)
      → (t ≢ untouched → (removed : Bool) → All Spares (wiping removed).0)
      → All Spares (treated t wiping).0
  unfolding treated
  treated-Spares untouched wiping h = tt
  treated-Spares wiped wiping h = h (λ u. cc) true
  treated-Spares emptied wiping h = h (λ u. cc) false

  module _ (some_only : config.backup_all ≡ false) where
    untouched_child :
        (path name : Bytes)
        → special_of (child path name) skip_paths ≡ some no_touch
        → treatment config path name ≡ untouched
    unfolding treatment treat
    untouched_child path name e = elim (Bool-cases (is_left_out name)) [
      | inl left ↦ rw left refl
      | inr kept ↦ rw (kept, e, some_only) refl
    ]

    child-IsOutside :
        (path name : Bytes)
        → NoSlash name
        → IsOutside path
        → treatment config path name ≢ untouched
        → IsOutside (child path name)
    child-IsOutside path name h out t skip e =
        within-child skip path name h (out skip e)
          (elim (Bool-cases (bytes_eq skip (child path name))) [
            | inl same ↦
                let at : skip ≡ child path name = (bytes_eq_iff skip (child path name)).0 same in
                absurd (
                  t (
                    untouched_child path name
                      (subst (λ p. special_of p skip_paths ≡ some no_touch) at e)))
            | inr differ ↦ differ
          ])

    mutual
      unfolding wipe_node wipe_entries IsNamedNode

      wipe_node-Spares :
          (path : Bytes) (removed : Bool) (n : Node)
          → IsNamedNode n
          → IsOutside path
          → All Spares (wipe_node config path removed n).0
      wipe_node-Spares path removed missing h out = tt
      wipe_node-Spares path removed (other st) h out = wipe_leaf-Spares path out
      wipe_node-Spares path removed (file st opens size content) h out = wipe_leaf-Spares path out
      wipe_node-Spares path removed (dir st opens nodes) h out =
          and_then-All Spares (wipe_opened config opens (wipe_entries config path nodes))
            (remove_dir path removed)
            (wipe_opened-Spares opens (wipe_entries config path nodes)
              (wipe_entries-Spares path nodes h out))
            (remove_dir-Spares path removed out)

      wipe_entries-Spares :
          (path : Bytes) (nodes : Forest)
          → IsNamed nodes
          → IsOutside path
          → All Spares (wipe_entries config path nodes).0
      wipe_entries-Spares path nil h out = tt
      wipe_entries-Spares path (cons name n nodes) h out =
          and_then-All Spares _ (wipe_entries config path nodes)
            (treated-Spares (treatment config path name)
              (λ removed. wipe_node config (child path name) removed n)
              (λ t removed.
                wipe_node-Spares (child path name) removed n h.1
                  (child-IsOutside path name h.0 out t)))
            (wipe_entries-Spares path nodes h.2 out)

    data_IsOutside : IsOutside (codes "/data")
    unfolding starts_with bytes_eq
    data_IsOutside skip e =
        special_of-All (λ p. is_within p (codes "/data") ≡ false) skip skip_paths
          (refl, (refl, (refl, (refl, tt)))) e

    -- Without the option -a, and where no name in a directory has a slash, whatever of the wiping fails,
    -- every call of wipe on /data removes a path that is not, and is not below, a no-touch path of the
    -- table, and no unlink is of the backup file.
    pub wipe-Spares :
        (opens : Bool) (nodes : Forest)
        → IsNamed nodes
        → All Spares (wipe config (codes "/data") opens nodes).0
    unfolding wipe
    wipe-Spares opens nodes h =
        wipe_opened-Spares opens (wipe_entries config (codes "/data") nodes)
          (wipe_entries-Spares (codes "/data") nodes h data_IsOutside)
