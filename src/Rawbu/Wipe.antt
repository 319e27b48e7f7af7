-- ===== src/Rawbu/Wipe.antt =====
-- The wiping of /data in rawbu/backup.cpp, and the calls that it and the restoring make of the kernel.
-- Errors of unlink and rmdir are only reported.
use cmds.Common.{
  ℕ, Bool, true, false, List, [], ◌∷◌, ◌++◌, Bytes, bytes_eq, Option, none, some, if◌then◌else◌,
}
use cmds.Rawbu.{
  Node, missing, other, file, dir, Forest, nil, cons, Special, no_touch, no_backup, skip_paths,
  Config, is_left_out, child,
}

pub data Call : Type 0 where
  unlink rmdir create : Bytes → Call
  mkdir : Bytes → ℕ → Call
  write : Bytes → Bytes → Call
  chmod : Bytes → ℕ → Call
  chown : Bytes → ℕ → ℕ → Call
  utime : Bytes → ℕ → ℕ → Call

unfoldable pub special_of : Bytes → List (Bytes × Special) → Option Special
special_of path [] = none
special_of path ((p, special) ∷ paths) =
    if bytes_eq p path then some special else special_of path paths

-- What the loop does with an entry: nothing, all, or all but the removal of the directory itself.
pub data Treatment : Type 0 where
  untouched wiped emptied : Treatment

unfoldable pub treat : Bool → Option Special → Treatment
treat backup_all none = wiped
treat backup_all (some no_backup) = emptied
treat backup_all (some no_touch) = if backup_all then emptied else untouched

unfoldable pub treatment : Config → Bytes → Bytes → Treatment
treatment config path name =
    if is_left_out name
    then untouched
    else treat config.backup_all (special_of (child path name) skip_paths)

-- Goes on where the step before succeeded.
infixl 5 ◌and_then◌
abbrev pub ◌and_then◌ : List Call × Bool → List Call × Bool → List Call × Bool
(calls, false) and_then r = (calls, false)
(calls, true) and_then r = (calls ++ r.0, r.1)

unfoldable pub remove_dir : Bytes → Bool → List Call × Bool
remove_dir path true = (rmdir path ∷ [], true)
remove_dir path false = ([], true)

-- An entry under its treatment, given what wiping it does.
unfoldable pub treated : Treatment → (Bool → List Call × Bool) → List Call × Bool
treated untouched wiping = ([], true)
treated wiped wiping = wiping true
treated emptied wiping = wiping false

module _ (config : Config) where
  unfoldable pub wipe_leaf : Bytes → List Call × Bool
  wipe_leaf path = if bytes_eq config.backup_file path then ([], true) else (unlink path ∷ [], true)

  -- `opened` is what happens to a directory where it opens.
  unfoldable pub wipe_opened : Bool → List Call × Bool → List Call × Bool
  wipe_opened opens opened = if opens then opened else ([], false)

  unfoldable mutual
    pub wipe_node : Bytes → Bool → Node → List Call × Bool
    wipe_node path removed missing = ([], true)
    wipe_node path removed (other st) = wipe_leaf path
    wipe_node path removed (file st opens size content) = wipe_leaf path
    wipe_node path removed (dir st opens nodes) =
        wipe_opened opens (wipe_entries path nodes) and_then remove_dir path removed

    pub wipe_entries : Bytes → Forest → List Call × Bool
    wipe_entries path nil = ([], true)
    wipe_entries path (cons name n nodes) =
        treated (treatment config path name) (λ removed. wipe_node (child path name) removed n)
        and_then wipe_entries path nodes

  unfoldable pub wipe : Bytes → Bool → Forest → List Call × Bool
  wipe path opens nodes = wipe_opened opens (wipe_entries path nodes)
