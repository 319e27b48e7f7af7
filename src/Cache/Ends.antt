-- ===== src/Cache/Ends.antt =====
-- The loop of freeCache ends: every turn that goes on takes an item or a tracker away, or makes the
-- active tracker the greatest one.
use cmds.Common.{
  ℕ, zero, suc, ◌+◌, ◌*◌, ◌<◌, ◌≤◌, ◌≡◌, refl, sym, subst, ◌∙◌, true, List, [], ◌∷◌, Option, none,
  some, ◌==◌, if◌then◌else◌, less, sub_nat, Bool-cases, arith, ◌⊎◌, inl, inr, All,
}
use cmds.Cache.{Item, Tracker, ensure_items, get_cache_ratio, pick_from}
use cmds.Cache.Free.{
  Request, Bounce, Turn, stop, next, activate, check_needed, measure, purge_item, turn, bounce,
  work_left, enough, begin,
}
use cmds.Cache.Moves.{
  Move, no_more, under_quota, reserved, first, better, empty, purging, turn-Move,
}
use cmds.Cache.Queue.{NotOver, pick_from-greatest, pick_from-All, pick_from-work_left}

-- Whether the turn may swap the active tracker for another.
pub unsettled : Option Tracker → List Tracker → ℕ
unsettled none queue = 1
unsettled (some a) [] = 0
unsettled (some a) (t ∷ queue) =
    if less (get_cache_ratio a) (get_cache_ratio (pick_from t queue).0) then 1 else 0

abbrev pub active_list : Option Tracker → List Tracker
active_list none = []
active_list (some a) = a ∷ []

abbrev pub left_over : Option Tracker → List Tracker → ℕ
left_over o queue = 2 * (work_left (active_list o) + work_left queue) + unsettled o queue

-- The active tracker has its items.
abbrev pub IsReady : Option Tracker → Type 0
IsReady none = Unit
IsReady (some a) = a.items_loaded ≡ true

unsettled_most : (o : Option Tracker) (queue : List Tracker) → unsettled o queue ≤ 1
unfolding unsettled
unsettled_most none queue = omega arith
unsettled_most (some a) [] = omega arith
unsettled_most (some a) (t ∷ queue) = ground arith

settled :
    (a : Tracker) (queue : List Tracker) → All (NotOver a) queue → unsettled (some a) queue ≡ 0
unfolding unsettled
settled a [] h = refl
settled a (t ∷ queue) h = rw (pick_from-All (NotOver a) t queue h.0 h.1) refl

pub ensure_items-ready : (t : Tracker) → (ensure_items t).items_loaded ≡ true
unfolding ensure_items
ensure_items-ready t = elim (Bool-cases t.items_loaded) [ inl e ↦ rw e refl | inr e ↦ rw e refl ]

ensure_items-work :
    (t : Tracker) (queue : List Tracker)
    → work_left (ensure_items t ∷ queue) ≡ work_left (t ∷ queue)
unfolding ensure_items work_left
ensure_items-work t queue = elim (Bool-cases t.items_loaded) [
  | inl e ↦ rw e refl
  | inr e ↦ rw e refl
]

ensure_items-NotOver :
    (t : Tracker) (us : List Tracker) → All (NotOver t) us → All (NotOver (ensure_items t)) us
unfolding ensure_items get_cache_ratio
ensure_items-NotOver t us h = elim (Bool-cases t.items_loaded) [ inl e ↦ rw e h | inr e ↦ rw e h ]

abbrev Progress : ℕ → Turn → Type 0
Progress n (stop s) = Unit
Progress n (next s) = (left_over s.active s.queue < n) × IsReady s.active

check_needed-Progress :
    (disk_free : List Item → Option ℕ) (r : Request) (s : Bounce) (n : ℕ)
    → left_over s.active s.queue < n
    → IsReady s.active
    → Progress n (check_needed disk_free r s)
unfolding check_needed
check_needed-Progress disk_free r s n h k = elim (Bool-cases (s.needed == 0)) [
  | inr e ↦ rw e (h, k)
  | inl e ↦ elim (Bool-cases (measure disk_free r s.purged == 0)) [
    | inl d ↦ rw (e, d) tt
    | inr d ↦ rw (e, d) (h, k)
  ]
]

activate-Progress :
    (s : Bounce) (t : Tracker) (queue : List Tracker) (n : ℕ)
    → 2 * work_left (t ∷ queue) < n
    → Progress n (next (activate s (pick_from t queue)))
unfolding activate work_left
activate-Progress s t queue n h =
    let best = (pick_from t queue).0 in
    let rest = (pick_from t queue).1 in
    (
      omega (
        arith,
        h,
        pick_from-work_left t queue,
        ensure_items-work best [],
        settled (ensure_items best) rest
            (ensure_items-NotOver best rest (pick_from-greatest t queue)),
      ),
      ensure_items-ready best,
    )

less_left :
    (a b : Tracker) (queue : List Tracker)
    → work_left (b ∷ []) + 1 ≤ work_left (a ∷ [])
    → left_over (some b) queue < left_over (some a) queue
less_left a b queue h = omega (arith, unsettled_most (some b) queue)

Move-Progress :
    (disk_free : List Item → Option ℕ) (r : Request) (o : Option Tracker) (queue : List Tracker)
    (s : Bounce) (t : Turn)
    → s.queue ≡ queue
    → IsReady o
    → Move disk_free r o queue s t
    → Progress (left_over o queue) t
unfolding work_left unsettled purge_item
Move-Progress disk_free r none [] s t q ready no_more = tt
Move-Progress disk_free r o queue s t q ready (reserved e) = tt
Move-Progress disk_free r (some a) queue s t q ready (under_quota e) = tt
Move-Progress disk_free r none (t ∷ queue) s u q ready first =
    activate-Progress s t queue (left_over none (t ∷ queue)) (omega arith)
Move-Progress disk_free r (some a) (t ∷ queue) s u q ready (better e) =
    activate-Progress s a (t ∷ queue) (left_over (some a) (t ∷ queue)) (rw e (omega arith))
Move-Progress disk_free r (some a) queue s t q ready (empty e) =
    (rw (q, ready, e) (omega arith), tt)
Move-Progress disk_free r (some a) queue s t q ready
      (purging {item = item} {rest = rest} e over kept) =
    check_needed-Progress disk_free r (purge_item disk_free r s a item rest)
      (left_over (some a) queue)
      (rw q (
        less_left a (record a { items = rest; cache_used = sub_nat a.cache_used item.size }) queue
          (rw (ready, e) (omega arith))))
      ready

pub turn_cases : (t : Turn) → ((s : Bounce) × (t ≡ stop s)) ⊎ ((s : Bounce) × (t ≡ next s))
turn_cases (stop s) = inl (s, refl)
turn_cases (next s) = inr (s, refl)

module _ (disk_free : List Item → Option ℕ) (r : Request) where
  pub bounce-stop :
      (fuel : ℕ) (s t : Bounce)
      → turn disk_free r s.active s.queue s ≡ stop t
      → bounce disk_free r (suc fuel) s ≡ some t
  unfolding bounce
  bounce-stop fuel s t e = rw (e, bounce) refl

  pub bounce-next :
      (fuel : ℕ) (s t : Bounce)
      → turn disk_free r s.active s.queue s ≡ next t
      → bounce disk_free r (suc fuel) s ≡ bounce disk_free r fuel t
  unfolding bounce
  bounce-next fuel s t e = rw (e, bounce) refl

  pub bounce-zero : (s : Bounce) → bounce disk_free r 0 s ≡ none
  unfolding bounce
  bounce-zero s = refl

bounce_ends :
    (disk_free : List Item → Option ℕ) (r : Request) (fuel : ℕ) (s : Bounce)
    → left_over s.active s.queue < fuel
    → IsReady s.active
    → (t : Bounce) × (bounce disk_free r fuel s ≡ some t)
bounce_ends disk_free r zero s h ready = absurd (omega arith)
bounce_ends disk_free r (suc fuel) s h ready =
    let p =
      Move-Progress disk_free r s.active s.queue s (turn disk_free r s.active s.queue s) refl ready
        (turn-Move disk_free r s.active s.queue s) in
    elim (turn_cases (turn disk_free r s.active s.queue s)) [
      | inl (t, e) ↦ (t, bounce-stop disk_free r fuel s t e)
      | inr (u, e) ↦
          let (now, later) : Progress (left_over s.active s.queue) (next u) =
            subst (Progress (left_over s.active s.queue)) e p in
          let (t, run) = bounce_ends disk_free r fuel u (omega (arith, now)) later in
          (t, bounce-next disk_free r fuel s u e ∙ run)
    ]

bounce_more :
    (disk_free : List Item → Option ℕ) (r : Request) (fuel more : ℕ) (s t : Bounce)
    → fuel ≤ more
    → bounce disk_free r fuel s ≡ some t
    → bounce disk_free r more s ≡ some t
bounce_more disk_free r zero more s t h e = cc (e, bounce-zero disk_free r s)
bounce_more disk_free r (suc fuel) zero s t h e = absurd (omega arith)
bounce_more disk_free r (suc fuel) (suc more) s t h e =
    elim (turn_cases (turn disk_free r s.active s.queue s)) [
      | inl (u, k) ↦
          bounce-stop disk_free r more s u k ∙ sym (bounce-stop disk_free r fuel s u k) ∙ e
      | inr (u, k) ↦
          bounce-next disk_free r more s u k
          ∙ bounce_more disk_free r fuel more u t (omega arith)
              (sym (bounce-next disk_free r fuel s u k) ∙ e)
    ]

-- The fuel of free_cache is enough: the loop over any trackers ends within two turns for each item
-- and each tracker and two more, whatever the disk reports, and any further fuel changes nothing.
pub bounce-enough :
    (disk_free : List Item → Option ℕ) (r : Request) (trackers : List Tracker) (needed : ℕ)
    → (s : Bounce) × ((fuel : ℕ)
        → enough trackers ≤ fuel
        → bounce disk_free r fuel (begin trackers needed) ≡ some s)
unfolding enough unsettled work_left
bounce-enough disk_free r trackers needed =
    let (s, e) =
      bounce_ends disk_free r (enough trackers) (begin trackers needed) (omega arith) tt in
    (s, λ fuel h. bounce_more disk_free r (enough trackers) fuel (begin trackers needed) s h e)
