-- ===== src/Cache/Tree.antt =====
-- What fts finds below a directory, and what installd makes of it: the items of loadItemsFrom
-- (installd/CacheTracker.cpp) and the calls of purge (installd/CacheItem.cpp). Entries that fts reports
-- as errors are left out, and times are not negative.
use cmds.Common.{
  ℕ, suc, ◌+◌, ◌*◌, Bool, true, false, ◌||◌, List, [], ◌∷◌, ◌++◌, Bytes, ltb, if◌then◌else◌,
}
use cmds.Cache.{Item}

-- `is_regular` tells FTS_F from FTS_SL, FTS_SLNONE and FTS_DEFAULT.
pub record Stat : Type 0 where
  pub name : Bytes
  pub is_regular : Bool
  pub blocks : ℕ
  pub mtime : ℕ

-- A directory has two attributes, kXattrCacheGroup and kXattrCacheTombstone, or not.
mutual
  pub data Node : Type 0 where
    leaf : Stat → Node
    dir : Stat → Bool → Bool → Forest → Node

  pub data Forest : Type 0 where
    nil : Forest
    cons : Node → Forest → Forest

-- std::max
unfoldable pub latest : ℕ → ℕ → ℕ
latest a b = if ltb a b then b else a

abbrev pub child_path : Bytes → Stat → Bytes
child_path parent s = parent ++ b'/' ∷ s.name

-- What the inner loop for a group adds to its size, and the latest time in it.
unfoldable mutual
  pub node_size : Node → ℕ
  node_size (leaf s) = s.blocks * 512
  node_size (dir s group tombstone nodes) = s.blocks * 512 + forest_size nodes

  pub forest_size : Forest → ℕ
  forest_size nil = 0
  forest_size (cons n nodes) = node_size n + forest_size nodes

unfoldable mutual
  pub node_latest : ℕ → Node → ℕ
  node_latest at (leaf s) = latest at s.mtime
  node_latest at (dir s group tombstone nodes) = forest_latest (latest at s.mtime) nodes

  pub forest_latest : ℕ → Forest → ℕ
  forest_latest at nil = at
  forest_latest at (cons n nodes) = forest_latest (node_latest at n) nodes

-- The item of an entry below a directory with these attributes: CacheItem's constructor.
abbrev pub new_item : Bytes → Bool → Bool → ℕ → Bool → Stat → Item
new_item parent group tombstone level directory s = record {
  path = child_path parent s;
  level = level;
  directory = directory;
  group = group;
  tombstone = tombstone;
  size = s.blocks * 512;
  modified = s.mtime;
}

-- The items of an entry, its own first; its own has the time that is bubbled up to the parent.
unfoldable mutual
  pub load_node : Bytes → Bool → Bool → ℕ → Node → Item × List Item
  load_node parent group tombstone level (leaf s) =
      (new_item parent group tombstone level false s, [])
  load_node parent group tombstone level (dir s has_group has_tombstone nodes) =
      let item = new_item parent (group || has_group) (tombstone || has_tombstone) level true s in
      let below = load_forest item.path item.group item.tombstone (suc level) item.modified nodes in
      if item.group
      then (
        record item {
          size = item.size + forest_size nodes;
          modified = forest_latest item.modified nodes;
        },
        [],
      )
      else (record item { modified = below.0 }, below.1)

  -- The time of the parent after its entries, and their items.
  pub load_forest : Bytes → Bool → Bool → ℕ → ℕ → Forest → ℕ × List Item
  load_forest parent group tombstone level modified nil = (modified, [])
  load_forest parent group tombstone level modified (cons n nodes) =
      let (item, below) = load_node parent group tombstone level n in
      let (time, rest) =
        load_forest parent group tombstone level (latest modified item.modified) nodes in
      (time, item ∷ (below ++ rest))

-- What a path holds: the entries of level 0 make no items, and the time of the path is not kept.
unfoldable pub load_items_from : Bytes → Forest → List Item
load_items_from path nodes = (load_forest path false false 1 0 nodes).1

pub data Call : Type 0 where
  truncate unlink rmdir : Bytes → Call

unfoldable pub purge_leaf : Bool → Bytes → Bool → Call
purge_leaf tombstone path is_regular =
    if is_regular then (if tombstone then truncate path else unlink path) else unlink path

-- `tombstone` is fts_number of the parent.
unfoldable mutual
  pub purge_node : Bool → Bytes → Node → List Call
  purge_node tombstone parent (leaf s) =
      purge_leaf tombstone (child_path parent s) s.is_regular ∷ []
  purge_node tombstone parent (dir s has_group has_tombstone nodes) =
      purge_forest (tombstone || has_tombstone) (child_path parent s) nodes
      ++ rmdir (child_path parent s) ∷ []

  pub purge_forest : Bool → Bytes → Forest → List Call
  purge_forest tombstone path nil = []
  purge_forest tombstone path (cons n nodes) =
      purge_node tombstone path n ++ purge_forest tombstone path nodes

-- The calls of purge on an item, given what fts finds below its path.
unfoldable pub purge : Item → Forest → List Call
purge item nodes =
    if item.directory
    then purge_forest item.tombstone item.path nodes ++ rmdir item.path ∷ []
    else (if item.tombstone then truncate item.path else unlink item.path) ∷ []
