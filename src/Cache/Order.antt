-- ===== src/Cache/Order.antt =====
-- The order in which loadItems of installd/CacheTracker.cpp sorts the items of a tracker.
use cmds.Common.{◌≤◌, ◌<◌, ◌≡◌, true, false, arith}
use cmds.Cache.{Item, item_before}

-- An item that is not older than another and stands nearer to the root comes before it.
pub item_before-parent :
    (parent item : Item)
    → item.modified ≤ parent.modified
    → parent.level < item.level
    → (item_before parent item ≡ true) × (item_before item parent ≡ false)
unfolding item_before
item_before-parent parent item m l = ground arith
