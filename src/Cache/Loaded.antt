-- ===== src/Cache/Loaded.antt =====
-- The items that loadItemsFrom of installd/CacheTracker.cpp makes.
use cmds.Common.{
  ℕ, suc, ◌≤◌, ◌≡◌, refl, Bool, true, false, ◌||◌, List, Bytes, Bool-cases, arith, inl, inr, All,
  All-append, All-weaken,
}
use cmds.Cache.{Item, item_before}
use cmds.Cache.Tree.{Node, leaf, dir, Forest, nil, cons, latest, child_path, load_node, load_forest}
use cmds.Cache.Order.{item_before-parent}

latest_least : (a b : ℕ) → (a ≤ latest a b) × (b ≤ latest a b)
unfolding latest
latest_least a b = ground arith

abbrev Under : ℕ → ℕ → Item → Type 0
Under level time i = (level ≤ i.level) × (i.modified ≤ time)

Under-weaken :
    (k l s t : ℕ) (items : List Item)
    → k ≤ l
    → s ≤ t
    → All (Under l s) items
    → All (Under k t) items
Under-weaken k l s t items h h' =
    All-weaken (Under l s) (Under k t) (λ i u. (omega (arith, h, u.0), omega (arith, h', u.1)))
      items

mutual
  unfolding load_node load_forest

  load_node-Under :
      (parent : Bytes) (group tombstone : Bool) (level : ℕ) (n : Node)
      → ((load_node parent group tombstone level n).0.level ≡ level)
        × All
            (Under (suc level) (load_node parent group tombstone level n).0.modified)
            (load_node parent group tombstone level n).1
  load_node-Under parent group tombstone level (leaf s) = (refl, tt)
  load_node-Under parent group tombstone level (dir s g t nodes) = elim (Bool-cases (group || g)) [
    | inl e ↦ rw e (refl, tt)
    | inr e ↦ rw e (
      refl,
      (load_forest-Under (child_path parent s) false (tombstone || t) (suc level) s.mtime nodes).1,
    )
  ]

  load_forest-Under :
      (parent : Bytes) (group tombstone : Bool) (level modified : ℕ) (nodes : Forest)
      → (modified ≤ (load_forest parent group tombstone level modified nodes).0)
        × All
            (Under level (load_forest parent group tombstone level modified nodes).0)
            (load_forest parent group tombstone level modified nodes).1
  load_forest-Under parent group tombstone level modified nil = (omega arith, tt)
  load_forest-Under parent group tombstone level modified (cons n nodes) =
      let (at, below) = load_node-Under parent group tombstone level n in
      let item = (load_node parent group tombstone level n).0 in
      let (up, rest) =
        load_forest-Under parent group tombstone level (latest modified item.modified) nodes in
      let (before, mine) = latest_least modified item.modified in
      (
        omega (arith, up, before),
        (
          (omega (arith, at), omega (arith, up, mine)),
          All-append _ (load_node parent group tombstone level n).1 _
              (Under-weaken _ _ _ _ _ (omega arith) (omega (arith, up, mine)) below) rest,
        ),
      )

-- The item of a directory comes before all items that are made for what is below it, and none of
-- them before it, in the order by which loadItems sorts: whatever the times of the files, since the
-- latest one is bubbled up.
pub load_node-before :
    (parent : Bytes) (group tombstone : Bool) (level : ℕ) (n : Node)
    → All
        (λ i.
          (item_before (load_node parent group tombstone level n).0 i ≡ true)
          × (item_before i (load_node parent group tombstone level n).0 ≡ false))
        (load_node parent group tombstone level n).1
load_node-before parent group tombstone level n =
    let (at, below) = load_node-Under parent group tombstone level n in
    let item = (load_node parent group tombstone level n).0 in
    All-weaken (Under (suc level) item.modified) _
      (λ i u. item_before-parent item i u.1 (omega (arith, u.0, at)))
      (load_node parent group tombstone level n).1 below
