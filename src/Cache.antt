-- ===== src/Cache.antt =====
-- The caches of apps: CacheTracker and CacheItem of installd, and freeCache of
-- installd/InstalldNativeService.cpp. Sizes, quotas and the bytes asked for are not negative; what a
-- tracker still uses may become so. The vector of items is the list from its back.
pub mod Free
pub mod Moves
pub mod Queue
pub mod Ends
pub mod Kept
pub mod Cleared
pub mod Answers
pub mod Tree
pub mod Loaded
pub mod Purge
pub mod Scan
pub mod Scanned
pub mod Order
pub mod Tests
use cmds.Common.{
  ℕ, ◌+◌, ◌-◌, ◌*◌, ◌/◌, Bool, true, false, not, ◌&&◌, List, [], ◌∷◌, ◌++◌, Bytes, Option, none,
  some, ◌==◌, ltb, leb, if◌then◌else◌, ℤ, pos, negsuc, sub_nat, less, of_word,
}
use cmds.CLib.{low_word}

pub record Item : Type 0 where
  pub path : Bytes
  pub level : ℕ
  pub directory : Bool
  pub group : Bool
  pub tombstone : Bool
  pub size : ℕ
  pub modified : ℕ

-- `found` is what loadItems finds and sorts.
pub record Tracker : Type 0 where
  pub uid : ℕ
  pub cache_used : ℤ
  pub cache_quota : ℕ
  pub items : List Item
  pub items_loaded : Bool
  pub found : List Item

unfoldable pub ensure_items : Tracker → Tracker
ensure_items t = if t.items_loaded then t else record t { items = t.found; items_loaded = true }

-- (cacheUsed * 10000) / cacheQuota, rounded towards 0, as an int. The product is one of 64 bits with a
-- sign: from 2 ^ 63 / 10000 bytes on, which is more than 900 TB, the code overflows, what is not defined.
unfoldable pub scaled : ℤ → ℕ → ℤ
scaled (pos n) quota = of_word (low_word false (n * 10000 / quota))
scaled (negsuc n) quota = of_word (low_word true ((n + 1) * 10000 / quota))

unfoldable pub get_cache_ratio : Tracker → ℤ
get_cache_ratio t = if t.cache_quota == 0 then pos 0 else scaled t.cache_used t.cache_quota

-- The comparison of the items by which loadItems sorts.
unfoldable pub item_before : Item → Item → Bool
item_before left right =
    if not (left.modified == right.modified)
    then ltb right.modified left.modified
    else if not (left.level == right.level)
    then ltb left.level right.level
    else left.directory

-- The greatest of a queue and the others; of several greatest ones, some.
unfoldable pub pick_from : Tracker → List Tracker → Tracker × List Tracker
pick_from t [] = (t, [])
pick_from t (u ∷ queue) =
    let (best, rest) = pick_from u queue in
    if less (get_cache_ratio t) (get_cache_ratio best) then (best, t ∷ rest) else (t, best ∷ rest)
