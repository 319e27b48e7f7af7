-- ===== src/Cache/Cleared.antt =====
-- What the loop of freeCache has taken, item by item, when it ends.
use cmds.Common.{
  ℕ, ◌+◌, ◌++◌, map, Bool, false, if◌then◌else◌, ◌≡◌, refl, sym, ap, subst, ◌∙◌, true, List, [],
  ◌∷◌, Option, none, some, ◌==◌, sub_nat, Bool-cases, Option-cases, arith, ◌⊎◌, inl, inr,
}
use cmds.Cache.{Item, Tracker, get_cache_ratio, pick_from}
use cmds.Cache.Free.{
  Request, Purge, Bounce, Turn, stop, next, activate, is_reserved, check_needed, measure,
  purge_item, turn, bounce, begin, is_enough,
}
use cmds.Cache.Moves.{
  Move, no_more, under_quota, reserved, first, better, empty, purging, turn-Move,
}
use cmds.Cache.Queue.{
  count, count-append, items_left, items_left-nil, items_left-cons, items_left-ready,
  ensure_items-left, pick_from-items_left,
}
use cmds.Cache.Ends.{active_list, IsReady, ensure_items-ready}
use cmds.Cache.Kept.{state, check_needed_elim, bounce-invariant}

-- The items that were taken, in order.
pub taken : List Purge → List Item
taken log = map (λ (p : Purge). p.item) log

taken-append : (log more : List Purge) → taken (log ++ more) ≡ taken log ++ taken more
unfolding taken
taken-append [] more = refl
taken-append (p ∷ log) more = ap (λ (l : List Item). p.item ∷ l) (taken-append log more)

-- What is purged of what is taken.
pub purged_of : Bool → List Purge → List Item
purged_of true log = []
purged_of false log = taken log

pub purged_of-if :
    (noop : Bool) (log : List Purge) → purged_of noop log ≡ (if noop then [] else taken log)
unfolding purged_of
purged_of-if true log = refl
purged_of-if false log = refl

-- Items are taken from the trackers, none twice, and all of them are purged, or none with `noop`.
abbrev Counted : (Item → Bool) → Bool → ℕ → Option Tracker → List Tracker → Bounce → Type 0
Counted test noop total o queue s =
    (count test (taken s.log) + items_left test (active_list o) + items_left test queue ≡ total)
    × (s.purged ≡ purged_of noop s.log)
    × IsReady o

abbrev IsCounted : (Item → Bool) → Bool → ℕ → Bounce → Type 0
IsCounted test noop total s = Counted test noop total s.active s.queue s

activate-IsCounted :
    (test : Item → Bool) (noop : Bool) (s : Bounce) (t : Tracker) (queue : List Tracker) (total : ℕ)
    → count test (taken s.log) + items_left test (t ∷ queue) ≡ total
    → s.purged ≡ purged_of noop s.log
    → IsCounted test noop total (activate s (pick_from t queue))
unfolding activate
activate-IsCounted test noop s t queue total h k =
    let best = (pick_from t queue).0 in
    (
      omega (
        arith,
        h,
        pick_from-items_left test t queue,
        items_left-cons test best (pick_from t queue).1,
        ensure_items-left test best,
      ),
      k,
      ensure_items-ready best,
    )

module _ (disk_free : List Item → Option ℕ) (r : Request) (test : Item → Bool) where
  purged_after :
      (noop : Bool) (purged : List Item) (log : List Purge) (p : Purge)
      → purged ≡ purged_of noop log
      → (if noop then purged else purged ++ p.item ∷ []) ≡ purged_of noop (log ++ p ∷ [])
  unfolding taken purged_of
  purged_after true purged log p h = h
  purged_after false purged log p h =
      ap (λ (l : List Item). l ++ p.item ∷ []) h ∙ sym (taken-append log (p ∷ []))

  purge_item-IsCounted :
      (s : Bounce) (a : Tracker) (item : Item) (rest : List Item) (total : ℕ)
      → Counted test r.noop total (some a) s.queue s
      → a.items ≡ item ∷ rest
      → IsCounted test r.noop total (purge_item disk_free r s a item rest)
  unfolding purge_item taken count
  purge_item-IsCounted s a item rest total h e =
      let b : Tracker = record a { items = rest; cache_used = sub_nat a.cache_used item.size } in
      let p : Purge = record { ratio = get_cache_ratio a; item = item } in
      (
        omega (
          arith,
          h.0,
          items_left-ready test a h.2,
          items_left-ready test b h.2,
          ap (λ (l : List Item). count test l) e,
          ap (λ (l : List Item). count test l) (taken-append s.log (p ∷ [])),
          count-append test (taken s.log) (item ∷ []),
        ),
        purged_after r.noop s.purged s.log p h.1,
        h.2,
      )

  Move-IsCounted :
      (total : ℕ) (o : Option Tracker) (queue : List Tracker) (s : Bounce) (t : Turn)
      → s.active ≡ o
      → s.queue ≡ queue
      → Counted test r.noop total o queue s
      → Move disk_free r o queue s t
      → IsCounted test r.noop total (state t)
  unfolding count
  Move-IsCounted total o queue s t a q h no_more = rw (a, q) h
  Move-IsCounted total o queue s t a q h (under_quota e) = rw (a, q) h
  Move-IsCounted total o queue s t a q h (reserved e) = rw (a, q) h
  Move-IsCounted total none (t ∷ queue) s u a q h first =
      activate-IsCounted test r.noop s t queue total (omega (arith, h.0, items_left-nil test)) (h.1)
  Move-IsCounted total (some b) (t ∷ queue) s u a q h (better e) =
      activate-IsCounted test r.noop s b (t ∷ queue) total
        (omega (arith, h.0, items_left-cons test b (t ∷ queue))) (h.1)
  Move-IsCounted total (some b) queue s u a q h (empty e) = (
    omega (
      arith,
      h.0,
      items_left-nil test,
      items_left-ready test b h.2,
      ap (λ (l : List Item). count test l) e,
      ap (λ (l : List Tracker). items_left test l) q,
    ),
    h.1,
    tt,
  )
  Move-IsCounted total (some b) queue s u a q h (purging {item = item} {rest = rest} e over kept) =
      let p = purge_item-IsCounted s b item rest total (rw q h.0, h.1, h.2) e in
      check_needed_elim disk_free r (IsCounted test r.noop total)
        (purge_item disk_free r s b item rest) (λ n. p)

  measure-IsEnough :
      (purged : List Item)
      → measure disk_free r purged ≡ 0
      → is_enough (disk_free purged) r.target_free ≡ true
  unfolding measure is_enough
  measure-IsEnough purged e = elim (Option-cases (disk_free purged)) [
    | inl n ↦ ground (arith, e, n)
    | inr (free, n) ↦ ground (arith, e, n)
  ]

  check_needed-stop :
      (s t : Bounce)
      → check_needed disk_free r s ≡ stop t
      → is_enough (disk_free t.purged) r.target_free ≡ true
  unfolding check_needed
  check_needed-stop s t e = elim (Bool-cases (s.needed == 0)) [
    | inr n ↦ let made : check_needed disk_free r s ≡ next s = rw n refl in cc (made, e)
    | inl n ↦ elim (Bool-cases (measure disk_free r s.purged == 0)) [
      | inr m ↦
          let made : check_needed disk_free r s
              ≡ next (record s { needed = measure disk_free r s.purged }) =
            rw (n, m) refl in
          cc (made, e)
      | inl m ↦
          let made : check_needed disk_free r s
              ≡ stop (record s { needed = measure disk_free r s.purged }) =
            rw (n, m) refl in
          subst (λ v. is_enough (disk_free (state v).purged) r.target_free ≡ true) (sym made ∙ e)
            (measure-IsEnough s.purged (ground (arith, m)))
    ]
  ]

  abbrev pub AllTaken : ℕ → Bounce → Type 0
  AllTaken total s = (count test (taken s.log) ≡ total) × (s.purged ≡ purged_of r.noop s.log)

  stopped :
      (total : ℕ) (o : Option Tracker) (queue : List Tracker) (s t : Bounce) (u : Turn)
      → r.defy_quota ≡ true
      → r.cache_reserved ≡ 0
      → Counted test r.noop total o queue s
      → u ≡ stop t
      → Move disk_free r o queue s u
      → (is_enough (disk_free t.purged) r.target_free ≡ true) ⊎ AllTaken total t
  unfolding is_reserved
  stopped total o queue s t u defy free h e no_more =
      inr (subst (λ v. AllTaken total (state v)) e (omega (arith, h.0, items_left-nil test), h.1))
  stopped total o queue s t u defy free h e (under_quota d) = cc
  stopped total o queue s t u defy free h e (reserved k) = ground (arith, k, free)
  stopped total o queue s t u defy free h e first = cc
  stopped total o queue s t u defy free h e (better l) = cc
  stopped total o queue s t u defy free h e (empty i) = cc
  stopped total o queue s t u defy free h e
        (purging {a = a} {item = item} {rest = rest} i over kept) =
      inl (check_needed-stop (purge_item disk_free r s a item rest) t e)

  begun : [] ≡ purged_of r.noop []
  unfolding taken purged_of
  begun = elim (Bool-cases r.noop) [ inl e ↦ rw e refl | inr e ↦ rw e refl ]

  -- Where the quotas are defied and no bytes are reserved, the loop over any trackers ends with as
  -- many free bytes as asked for, or with the items of all trackers taken, each as often as it is there,
  -- and purged.
  pub bounce-cleared :
      (trackers : List Tracker) (needed fuel : ℕ) (s : Bounce)
      → r.defy_quota ≡ true
      → r.cache_reserved ≡ 0
      → bounce disk_free r fuel (begin trackers needed) ≡ some s
      → (is_enough (disk_free s.purged) r.target_free ≡ true)
        ⊎ AllTaken (items_left test trackers) s
  unfolding count taken
  bounce-cleared trackers needed fuel s defy free e =
      let total = items_left test trackers in
      let keeps = λ (v : Bounce). λ (h : IsCounted test r.noop total v).
        Move-IsCounted total v.active v.queue v (turn disk_free r v.active v.queue v) refl refl h
          (turn-Move disk_free r v.active v.queue v) in
      let (u, h, last) =
        bounce-invariant disk_free r (IsCounted test r.noop total) keeps fuel
          (begin trackers needed) s (omega (arith, items_left-nil test), begun, tt) e in
      stopped total u.active u.queue u s (turn disk_free r u.active u.queue u) defy free h last
        (turn-Move disk_free r u.active u.queue u)
