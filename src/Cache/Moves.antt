-- ===== src/Cache/Moves.antt =====
-- The turns of freeCache's loop as a relation: why it stops, and what it does otherwise.
use cmds.Common.{
  ℕ, ◌≡◌, refl, true, false, not, ◌&&◌, List, [], ◌∷◌, Option, none, some, ◌⊎◌, inl, inr, less,
  Bool-cases, arith,
}
use cmds.Cache.{Item, Tracker, get_cache_ratio, pick_from}
use cmds.Cache.Free.{
  Request, Bounce, Turn, stop, next, activate, is_under_quota, is_reserved, check_needed,
  purge_item, work, turn_active, turn,
}

module _ (disk_free : List Item → Option ℕ) (r : Request) where
  pub data Move : Option Tracker → List Tracker → Bounce → Turn → Type 0 where
    no_more : {s : Bounce} → Move none [] s (stop s)
    under_quota :
        {a : Tracker} {queue : List Tracker} {s : Bounce}
        → r.defy_quota ≡ false
        → Move (some a) queue s (stop s)
    reserved :
        {o : Option Tracker} {queue : List Tracker} {s : Bounce}
        → is_reserved r s ≡ true
        → Move o queue s (stop s)
    first :
        {t : Tracker} {queue : List Tracker} {s : Bounce}
        → Move none (t ∷ queue) s (next (activate s (pick_from t queue)))
    better :
        {a t : Tracker} {queue : List Tracker} {s : Bounce}
        → less (get_cache_ratio a) (get_cache_ratio (pick_from t queue).0) ≡ true
        → Move (some a) (t ∷ queue) s (next (activate s (pick_from a (t ∷ queue))))
    empty :
        {a : Tracker} {queue : List Tracker} {s : Bounce}
        → a.items ≡ []
        → Move (some a) queue s (next (record s { active = none }))
    purging :
        {a : Tracker} {queue : List Tracker} {s : Bounce} {item : Item} {rest : List Item}
        → a.items ≡ item ∷ rest
        → (r.defy_quota ≡ true) ⊎ (is_under_quota a ≡ false)
        → is_reserved r s ≡ false
        → Move (some a) queue s (check_needed disk_free r (purge_item disk_free r s a item rest))

  work-Move :
      (s : Bounce) (a : Tracker) (queue : List Tracker) (items : List Item)
      → a.items ≡ items
      → (r.defy_quota ≡ true) ⊎ (is_under_quota a ≡ false)
      → is_reserved r s ≡ false
      → Move (some a) queue s (work disk_free r s a items)
  unfolding work
  work-Move s a queue [] e over kept = empty e
  work-Move s a queue (item ∷ rest) e over kept = purging e over kept

  turn_active-Move :
      (s : Bounce) (a : Tracker) (queue : List Tracker)
      → (r.defy_quota ≡ true) ⊎ (is_under_quota a ≡ false)
      → is_reserved r s ≡ false
      → Move (some a) queue s (turn_active disk_free r s a queue)
  unfolding turn_active
  turn_active-Move s a [] over kept = work-Move s a [] a.items refl over kept
  turn_active-Move s a (t ∷ queue) over kept =
      elim (Bool-cases (less (get_cache_ratio a) (get_cache_ratio (pick_from t queue).0))) [
        | inl e ↦ rw e (better e)
        | inr e ↦ rw e (work-Move s a (t ∷ queue) a.items refl over kept)
      ]

  quota_cases :
      (a : Tracker)
      → ((is_under_quota a && not r.defy_quota) ≡ false)
      → (r.defy_quota ≡ true) ⊎ (is_under_quota a ≡ false)
  quota_cases a h = elim (Bool-cases (is_under_quota a)) [
    | inr e ↦ inr e
    | inl e ↦ elim (Bool-cases r.defy_quota) [ inl d ↦ inl d | inr d ↦ ground (arith, h, e, d) ]
  ]

  -- Every turn is one of the relation.
  pub turn-Move :
      (o : Option Tracker) (queue : List Tracker) (s : Bounce)
      → Move o queue s (turn disk_free r o queue s)
  unfolding turn
  turn-Move none [] s = no_more
  turn-Move none (t ∷ queue) s = elim (Bool-cases (is_reserved r s)) [
    | inl e ↦ rw e (reserved e)
    | inr e ↦ rw e first
  ]
  turn-Move (some a) queue s = elim (Bool-cases (is_under_quota a && not r.defy_quota)) [
    | inl e ↦ rw e (under_quota (ground (arith, e)))
    | inr e ↦ elim (Bool-cases (is_reserved r s)) [
      | inl k ↦ rw (e, k) (reserved k)
      | inr k ↦ rw (e, k) (turn_active-Move s a queue (quota_cases a e) k)
    ]
  ]
