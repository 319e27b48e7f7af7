-- ===== src/Cache/Scan.antt =====
-- How freeCache finds its trackers, and their stats: the first two steps of freeCache in
-- installd/InstalldNativeService.cpp, and loadStats of installd/CacheTracker.cpp. The numbers and
-- functions of cutils/multiuser.h are the argument Ids, and what the file system and the quotas of
-- the kernel report are arguments too.
use cmds.Common.{
  ℕ, ◌+◌, ◌-◌, ◌%◌, Bool, true, false, List, [], ◌∷◌, ◌++◌, Bytes, codes, Option, none, some, ◌==◌,
  if◌then◌else◌,
}
use cmds.CLib.{u32_mod}
use cmds.Cache.Tree.{Node, node_size}

-- `none` is the gid -1.
pub record Ids : Type 0 where
  pub user_id : ℕ → ℕ
  pub app_id : ℕ → ℕ
  pub media_rw : ℕ
  pub ext_gid_start : ℕ
  pub app_start : ℕ
  pub cache_gid : ℕ → ℕ → Option ℕ
  pub ext_cache_gid : ℕ → ℕ → Option ℕ

-- A directory of level 1 below the directories of a user.
pub record Found : Type 0 where
  pub path : Bytes
  pub uid : ℕ
  pub gid : ℕ

-- A tracker of the map, under its uid, before its stats are loaded.
pub record Scanned : Type 0 where
  pub uid : ℕ
  pub user_id : ℕ
  pub app_id : ℕ
  pub quota : ℕ
  pub data_paths : List Bytes

abbrev pub default_quota : ℕ
default_quota = 67108864

module _ (ids : Ids) (quotas : ℕ → ℕ) where
  -- In uid_t, which wraps around.
  unfoldable pub tracked_uid : Found → ℕ
  tracked_uid p =
      if ids.app_id p.uid == ids.media_rw
      then (ids.app_id p.gid + (u32_mod - ids.ext_gid_start) + ids.app_start) % u32_mod
      else p.uid

  -- mCacheQuotas[uid] is 0 where there is none.
  unfoldable pub new_tracker : ℕ → Bytes → Scanned
  new_tracker uid path = record {
    uid = uid;
    user_id = ids.user_id uid;
    app_id = ids.app_id uid;
    quota = if quotas uid == 0 then default_quota else quotas uid;
    data_paths = path ∷ [];
  }

  unfoldable pub add_path : ℕ → Bytes → List Scanned → List Scanned
  add_path uid path [] = new_tracker uid path ∷ []
  add_path uid path (t ∷ trackers) =
      if t.uid == uid
      then record t { data_paths = t.data_paths ++ path ∷ [] } ∷ trackers
      else t ∷ add_path uid path trackers

  unfoldable pub scan : List Found → List Scanned → List Scanned
  scan [] trackers = trackers
  scan (p ∷ found) trackers = scan found (add_path (tracked_uid p) p.path trackers)

-- loadQuotaStats: `none` is false. `space_of` is GetOccupiedSpaceForGid, with `none` for -1.
unfoldable pub sum_spaces : Option ℕ → Option ℕ → Option ℕ
sum_spaces none b = none
sum_spaces (some a) none = none
sum_spaces (some a) (some b) = some (a + b)

unfoldable pub load_quota_stats : Ids → Bool → (ℕ → Option ℕ) → Scanned → Option ℕ
load_quota_stats ids false space_of t = none
load_quota_stats ids true space_of t = elim (ids.cache_gid t.user_id t.app_id) [
  | none ↦ none
  | some cache ↦ elim (ids.ext_cache_gid t.user_id t.app_id) [
    | none ↦ none
    | some ext ↦ sum_spaces (space_of cache) (space_of ext)
  ]
]

-- calculate_tree_size with no gid included or excluded: `none` is a path that cannot be opened.
unfoldable pub calculate_tree_size : Option Node → ℕ
calculate_tree_size none = 0
calculate_tree_size (some n) = node_size n

-- `inode_path` is read_path_inode, and `tree_at` what fts finds at a path.
module _ (inode_path : Bytes → Bytes → Bytes) (tree_at : Bytes → Option Node) where
  unfoldable pub tree_stats : List Bytes → ℕ
  tree_stats [] = 0
  tree_stats (path ∷ paths) =
      calculate_tree_size (tree_at (inode_path path (codes "cache")))
      + calculate_tree_size (tree_at (inode_path path (codes "code_cache")))
      + tree_stats paths

  -- What loadStats leaves in cacheUsed.
  unfoldable pub load_stats : Ids → Bool → (ℕ → Option ℕ) → Scanned → ℕ
  load_stats ids supported space_of t = elim (load_quota_stats ids supported space_of t) [
    | some used ↦ used
    | none ↦ tree_stats t.data_paths
  ]
