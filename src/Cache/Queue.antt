-- ===== src/Cache/Queue.antt =====
-- The queue of trackers: the one that is picked is the greatest, and nothing is lost.
use cmds.Common.{
  ℕ, ◌+◌, ◌≡◌, refl, Bool, true, false, List, ◌++◌, [], ◌∷◌, if◌then◌else◌, less, ℤ, pos, negsuc,
  Bool-cases, arith, inl, inr, All,
}
use cmds.Cache.{Item, Tracker, ensure_items, get_cache_ratio, pick_from}
use cmds.Cache.Free.{work_left}

less-asym : (x y : ℤ) → less x y ≡ true → less y x ≡ false
unfolding less
less-asym (pos a) (pos b) h = ground arith
less-asym (pos a) (negsuc b) h = cc
less-asym (negsuc a) (pos b) h = refl
less-asym (negsuc a) (negsuc b) h = ground arith

not_less_trans : (x y z : ℤ) → less x y ≡ false → less y z ≡ false → less x z ≡ false
unfolding less
not_less_trans (pos a) (pos b) (pos c) h k = ground arith
not_less_trans (pos a) y (negsuc c) h k = refl
not_less_trans (pos a) (negsuc b) (pos c) h k = cc
not_less_trans (negsuc a) (pos b) z h k = cc
not_less_trans (negsuc a) (negsuc b) (pos c) h k = cc
not_less_trans (negsuc a) (negsuc b) (negsuc c) h k = ground arith

abbrev pub NotOver : Tracker → Tracker → Type 0
NotOver best u = less (get_cache_ratio best) (get_cache_ratio u) ≡ false

All-NotOver :
    (a b : Tracker) (us : List Tracker) → NotOver a b → All (NotOver b) us → All (NotOver a) us
All-NotOver a b [] h k = tt
All-NotOver a b (u ∷ us) h k = (
  not_less_trans (get_cache_ratio a) (get_cache_ratio b) (get_cache_ratio u) h k.0,
  All-NotOver a b us h k.1,
)

-- No other tracker has a greater ratio than the one that is picked.
pub pick_from-greatest :
    (t : Tracker) (queue : List Tracker) → All (NotOver (pick_from t queue).0) (pick_from t queue).1
unfolding pick_from
pick_from-greatest t [] = tt
pick_from-greatest t (u ∷ queue) =
    let best = (pick_from u queue).0 in
    let rest = pick_from-greatest u queue in
    elim (Bool-cases (less (get_cache_ratio t) (get_cache_ratio best))) [
      | inl e ↦ rw e (less-asym (get_cache_ratio t) (get_cache_ratio best) e, rest)
      | inr e ↦ rw e (e, All-NotOver t best (pick_from u queue).1 e rest)
    ]

-- What holds of all trackers of a queue holds of the one that is picked.
pub pick_from-All {ℓ} :
    (P : Tracker → Type ℓ) (t : Tracker) (queue : List Tracker)
    → P t
    → All P queue
    → P (pick_from t queue).0
unfolding pick_from
pick_from-All P t [] h k = h
pick_from-All P t (u ∷ queue) h k =
    elim (Bool-cases (less (get_cache_ratio t) (get_cache_ratio (pick_from u queue).0))) [
      | inl e ↦ rw e (pick_from-All P u queue k.0 k.1)
      | inr e ↦ rw e h
    ]

pub pick_from-work_left :
    (t : Tracker) (queue : List Tracker)
    → work_left ((pick_from t queue).0 ∷ (pick_from t queue).1) ≡ work_left (t ∷ queue)
unfolding pick_from work_left
pick_from-work_left t [] = refl
pick_from-work_left t (u ∷ queue) =
    let more = pick_from-work_left u queue in
    elim (Bool-cases (less (get_cache_ratio t) (get_cache_ratio (pick_from u queue).0))) [
      | inl e ↦ rw e (omega (arith, more))
      | inr e ↦ rw e (omega (arith, more))
    ]

unfoldable pub count : (Item → Bool) → List Item → ℕ
count test [] = 0
count test (item ∷ items) = (if test item then 1 else 0) + count test items

pub count-append :
    (test : Item → Bool) (items more : List Item)
    → count test (items ++ more) ≡ count test items + count test more
unfolding count
count-append test [] more = omega arith
count-append test (item ∷ items) more = omega (arith, count-append test items more)

-- How many items of all trackers pass a test.
pub items_left : (Item → Bool) → List Tracker → ℕ
items_left test [] = 0
items_left test (t ∷ ts) =
    count test (if t.items_loaded then t.items else t.found) + items_left test ts

module _ (test : Item → Bool) where
  pub items_left-nil : items_left test [] ≡ 0
  unfolding items_left
  items_left-nil = refl

  pub items_left-cons :
      (t : Tracker) (ts : List Tracker)
      → items_left test (t ∷ ts) ≡ items_left test (t ∷ []) + items_left test ts
  unfolding items_left
  items_left-cons t ts = omega arith

  pub items_left-ready :
      (t : Tracker) → t.items_loaded ≡ true → items_left test (t ∷ []) ≡ count test t.items
  unfolding items_left
  items_left-ready t e = rw e (omega arith)

  pub ensure_items-left :
      (t : Tracker) → items_left test (ensure_items t ∷ []) ≡ items_left test (t ∷ [])
  unfolding ensure_items items_left
  ensure_items-left t = elim (Bool-cases t.items_loaded) [ inl e ↦ rw e refl | inr e ↦ rw e refl ]

  pub pick_from-items_left :
      (t : Tracker) (queue : List Tracker)
      → items_left test ((pick_from t queue).0 ∷ (pick_from t queue).1)
        ≡ items_left test (t ∷ queue)
  unfolding pick_from items_left
  pick_from-items_left t [] = refl
  pick_from-items_left t (u ∷ queue) =
      let more = pick_from-items_left u queue in
      elim (Bool-cases (less (get_cache_ratio t) (get_cache_ratio (pick_from u queue).0))) [
        | inl e ↦ rw e (omega (arith, more))
        | inr e ↦ rw e (omega (arith, more))
      ]
