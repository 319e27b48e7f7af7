-- ===== src/Cache/Free.antt =====
-- freeCache of installd/InstalldNativeService.cpp: its loop over the trackers.
use cmds.Common.{
  ℕ, zero, suc, ◌+◌, ◌-◌, ◌*◌, ◌^◌, Bool, true, false, not, ◌&&◌, List, [], ◌∷◌, ◌++◌, Option, none,
  some, ◌==◌, ltb, leb, if◌then◌else◌, ℤ, pos, negsuc, sub_nat, less, bit_and, length,
}
use cmds.Cache.{Item, Tracker, ensure_items, get_cache_ratio, pick_from}

-- What the loop is asked for, with the sum of what the trackers use at its start.
pub record Request : Type 0 where
  pub target_free : ℕ
  pub cache_reserved : ℕ
  pub cache_total : ℕ
  pub noop : Bool
  pub defy_quota : Bool

-- An item on its way out, with the ratio of its tracker before: what is logged.
pub record Purge : Type 0 where
  pub ratio : ℤ
  pub item : Item

-- `purged` are the items whose files were purged, which none is under FLAG_FREE_CACHE_NOOP.
-- `needed` stops at 0, for it is only compared with 0, and measured anew then.
pub record Bounce : Type 0 where
  pub active : Option Tracker
  pub queue : List Tracker
  pub needed : ℕ
  pub cleared : ℕ
  pub log : List Purge
  pub purged : List Item

pub data Turn : Type 0 where
  stop : Bounce → Turn
  next : Bounce → Turn

-- queue.top(), queue.pop() and ensureItems.
unfoldable pub activate : Bounce → Tracker × List Tracker → Bounce
activate s (best, rest) = record s { active = some (ensure_items best); queue = rest }

unfoldable pub is_under_quota : Tracker → Bool
is_under_quota a = less (get_cache_ratio a) (pos 10000)

unfoldable pub is_reserved : Request → Bounce → Bool
is_reserved r s = ltb 0 r.cache_reserved && leb r.cache_total (s.cleared + r.cache_reserved)

-- data_disk_free, given what was purged; `none` is its failure, -1.
module _ (disk_free : List Item → Option ℕ) (r : Request) where
  unfoldable pub measure : List Item → ℕ
  measure purged = elim (disk_free purged) [
    | none ↦ r.target_free + 1
    | some free ↦ r.target_free - free
  ]

  unfoldable pub check_needed : Bounce → Turn
  check_needed s =
      if not (s.needed == 0)
      then next s
      else let needed = measure s.purged in
        if needed == 0
        then stop (record s { needed = needed })
        else next (record s { needed = needed })

  unfoldable pub purge_item : Bounce → Tracker → Item → List Item → Bounce
  purge_item s a item rest = record s {
    active = some (record a { items = rest; cache_used = sub_nat a.cache_used item.size });
    needed = s.needed - item.size;
    cleared = s.cleared + item.size;
    log = s.log ++ record { ratio = get_cache_ratio a; item = item } ∷ [];
    purged = if r.noop then s.purged else s.purged ++ item ∷ [];
  }

  unfoldable pub work : Bounce → Tracker → List Item → Turn
  work s a [] = next (record s { active = none })
  work s a (item ∷ rest) = check_needed (purge_item s a item rest)

  -- The turn of an active tracker.
  unfoldable pub turn_active : Bounce → Tracker → List Tracker → Turn
  turn_active s a [] = work s a a.items
  turn_active s a (t ∷ queue) =
      if less (get_cache_ratio a) (get_cache_ratio (pick_from t queue).0)
      then next (activate s (pick_from a (t ∷ queue)))
      else work s a a.items

  -- One turn of the loop.
  unfoldable pub turn : Option Tracker → List Tracker → Bounce → Turn
  turn none [] s = stop s
  turn none (t ∷ queue) s =
      if is_reserved r s then stop s else next (activate s (pick_from t queue))
  turn (some a) queue s =
      if is_under_quota a && not r.defy_quota
      then stop s
      else if is_reserved r s
      then stop s
      else turn_active s a queue

  -- `none` when the fuel runs out.
  unfoldable pub bounce : ℕ → Bounce → Option Bounce
  bounce zero s = none
  bounce (suc fuel) s = elim (turn s.active s.queue s) [ stop t ↦ some t | next t ↦ bounce fuel t ]

unfoldable pub has_flag : ℕ → ℕ → Bool
has_flag flags flag = not (bit_and flags flag == 0)

abbrev pub flag_free_cache_v2 : ℕ
flag_free_cache_v2 = 2 ^ 8

abbrev pub flag_free_cache_v2_defy_quota : ℕ
flag_free_cache_v2_defy_quota = 2 ^ 9

abbrev pub flag_free_cache_noop : ℕ
flag_free_cache_noop = 2 ^ 10

-- The sum of the bytes used, as loadStats finds them.
unfoldable pub total_used : List Tracker → ℕ
total_used [] = 0
total_used (t ∷ ts) = elim t.cache_used [ pos n ↦ n | negsuc n ↦ 0 ] + total_used ts

-- Two turns for each item and tracker, and two more.
unfoldable pub work_left : List Tracker → ℕ
work_left [] = 0
work_left (t ∷ ts) = suc (length (if t.items_loaded then t.items else t.found)) + work_left ts

unfoldable pub enough : List Tracker → ℕ
enough trackers = 2 * work_left trackers + 2

abbrev pub begin : List Tracker → ℕ → Bounce
begin trackers needed = record {
  active = none;
  queue = trackers;
  needed = needed;
  cleared = 0;
  log = [];
  purged = [];
}

unfoldable pub is_enough : Option ℕ → ℕ → Bool
is_enough none target = false
is_enough (some free) target = leb target free

-- Whether freeCache answers ok, and the state that its loop ends in; the trackers have their stats
-- loaded. No item is purged where the loop is not entered.
module _ (disk_free : List Item → Option ℕ) where
  unfoldable pub free_more : ℕ → ℕ → ℕ → List Tracker → ℕ → Option (Bool × Bounce)
  free_more target_free cache_reserved flags trackers free =
      let r : Request = record {
        target_free = target_free;
        cache_reserved = cache_reserved;
        cache_total = total_used trackers;
        noop = has_flag flags flag_free_cache_noop;
        defy_quota = has_flag flags flag_free_cache_v2_defy_quota;
      } in
      if leb target_free free
      then some (true, begin trackers 0)
      else if not (has_flag flags flag_free_cache_v2)
      then some (false, begin trackers (target_free - free))
      else elim (bounce disk_free r (enough trackers) (begin trackers (target_free - free))) [
        | none ↦ none
        | some s ↦ some (is_enough (disk_free s.purged) target_free, s)
      ]

  unfoldable pub free_cache : ℕ → ℕ → ℕ → List Tracker → Option (Bool × Bounce)
  free_cache target_free cache_reserved flags trackers = elim (disk_free []) [
    | none ↦ some (false, begin trackers 0)
    | some free ↦ free_more target_free cache_reserved flags trackers free
  ]
