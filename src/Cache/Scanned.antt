-- ===== src/Cache/Scanned.antt =====
-- The trackers that freeCache finds are those of the uids, each with its own directories.
use cmds.Common.{
  ℕ, ◌≡◌, refl, sym, ap, ◌∙◌, Bool, true, false, List, [], ◌∷◌, ◌++◌, Bytes, ◌==◌, ==_iff,
  if◌then◌else◌, Bool-cases, arith, append-nil, append_assoc, inl, inr,
}
use cmds.Cache.Scan.{Ids, Found, Scanned, tracked_uid, new_tracker, add_path, scan}

-- The directories of the tracker of a uid.
pub paths_at : ℕ → List Scanned → List Bytes
paths_at uid [] = []
paths_at uid (t ∷ ts) = let rest = paths_at uid ts in if t.uid == uid then t.data_paths else rest

abbrev just_if : Bool → Bytes → List Bytes
just_if b path = if b then path ∷ [] else []

module _ (ids : Ids) (quotas : ℕ → ℕ) where
  -- The directories that belong to a uid, in the order they are found.
  pub belonging : ℕ → List Found → List Bytes
  belonging uid [] = []
  belonging uid (p ∷ found) =
      just_if (tracked_uid ids quotas p == uid) p.path ++ belonging uid found

  same_uid : (u v w : ℕ) → (u == v) ≡ true → (u == w) ≡ (v == w)
  same_uid u v w e = ground (arith, ==_iff u v)

  other_uid : (u v w : ℕ) → (u == v) ≡ false → (u == w) ≡ true → (v == w) ≡ false
  other_uid u v w e k = ground arith

  add_path-paths_at :
      (uid other : ℕ) (path : Bytes) (ts : List Scanned)
      → paths_at other (add_path ids quotas uid path ts)
        ≡ paths_at other ts ++ just_if (uid == other) path
  unfolding add_path paths_at new_tracker
  add_path-paths_at uid other path [] = refl
  add_path-paths_at uid other path (t ∷ ts) =
      let rest = add_path-paths_at uid other path ts in
      elim (Bool-cases (t.uid == uid)) [
        | inl e ↦ elim (Bool-cases (uid == other)) [
          | inl o ↦ rw (e, same_uid t.uid uid other e ∙ o, o) refl
          | inr o ↦ rw (e, same_uid t.uid uid other e ∙ o, o) (sym (append-nil (paths_at other ts)))
        ]
        | inr e ↦ elim (Bool-cases (t.uid == other)) [
          | inl k ↦
              let o : (uid == other) ≡ false = other_uid t.uid uid other e k in
              rw (e, k, o) (sym (append-nil t.data_paths))
          | inr k ↦ rw (e, k) rest
        ]
      ]

  scan-paths_at :
      (uid : ℕ) (found : List Found) (ts : List Scanned)
      → paths_at uid (scan ids quotas found ts) ≡ paths_at uid ts ++ belonging uid found
  unfolding scan belonging
  scan-paths_at uid [] ts = sym (append-nil (paths_at uid ts))
  scan-paths_at uid (p ∷ found) ts =
      scan-paths_at uid found (add_path ids quotas (tracked_uid ids quotas p) p.path ts)
      ∙ ap (λ ps. ps ++ belonging uid found)
          (add_path-paths_at (tracked_uid ids quotas p) uid p.path ts)
      ∙ append_assoc (paths_at uid ts) (just_if (tracked_uid ids quotas p == uid) p.path)
          (belonging uid found)

  -- The tracker of any uid has just the directories that belong to the uid, by their owner or, for
  -- shared storage, by their group, in the order they are found; where none do there is no tracker
  -- with a directory.
  scan-belonging :
      (uid : ℕ) (found : List Found) → paths_at uid (scan ids quotas found []) ≡ belonging uid found
  unfolding paths_at
  scan-belonging uid found = scan-paths_at uid found []
