-- ===== src/Cache/Kept.antt =====
-- What the loop of freeCache takes away, and what it leaves.
use cmds.Common.{
  ℕ, zero, suc, ◌+◌, ◌≡◌, refl, sym, ap, subst, ◌∙◌, true, false, ◌&&◌, List, [], ◌∷◌, ◌++◌, Option,
  none, some, ◌==◌, ltb, leb, less, pos, Bool-cases, arith, ◌⊎◌, inl, inr, All, All-append,
}
use cmds.Cache.{Item, Tracker, get_cache_ratio}
use cmds.Cache.Free.{
  Request, Purge, Bounce, Turn, stop, next, activate, is_under_quota, is_reserved, check_needed,
  measure, purge_item, turn, bounce, begin,
}
use cmds.Cache.Moves.{
  Move, no_more, under_quota, reserved, first, better, empty, purging, turn-Move,
}
use cmds.Cache.Ends.{bounce-stop, bounce-next, bounce-zero, turn_cases}

abbrev pub state : Turn → Bounce
state (stop s) = s
state (next s) = s

pub sizes : List Purge → ℕ
sizes [] = 0
sizes (p ∷ log) = p.item.size + sizes log

-- Each purge began while the bytes cleared before it, `before` at the first, and the reserved ones
-- were less than the bytes used at the start, where bytes are reserved.
pub Unreserved : Request → ℕ → List Purge → Type 0
Unreserved r before [] = Unit
Unreserved r before (p ∷ log) =
    ((ltb 0 r.cache_reserved && leb r.cache_total (before + r.cache_reserved)) ≡ false)
    × Unreserved r (before + p.item.size) log

abbrev pub OverQuota : Request → Purge → Type 0
OverQuota r p = (r.defy_quota ≡ true) ⊎ (less p.ratio (pos 10000) ≡ false)

abbrev pub Fair : Request → Bounce → Type 0
Fair r s = (s.cleared ≡ sizes s.log) × Unreserved r 0 s.log × All (OverQuota r) s.log

sizes-append : (xs ys : List Purge) → sizes (xs ++ ys) ≡ sizes xs + sizes ys
unfolding sizes
sizes-append [] ys = omega arith
sizes-append (x ∷ xs) ys = omega (arith, sizes-append xs ys)

Unreserved-append :
    (r : Request) (before : ℕ) (xs ys : List Purge)
    → Unreserved r before xs
    → Unreserved r (before + sizes xs) ys
    → Unreserved r before (xs ++ ys)
unfolding Unreserved sizes
Unreserved-append r before [] ys h k =
    subst (λ n. Unreserved r n ys) (let e : before + 0 ≡ before = omega arith in e) k
Unreserved-append r before (x ∷ xs) ys h k = (
  h.0,
  Unreserved-append r (before + x.item.size) xs ys h.1 (
      subst (λ n. Unreserved r n ys)
        (let e : before + (x.item.size + sizes xs) ≡ before + x.item.size + sizes xs =
            omega arith in
          e)
        k),
)

module _ (disk_free : List Item → Option ℕ) (r : Request) where
  -- What a turn leaves does not depend on the bytes that are still needed.
  pub check_needed_elim {ℓ} :
      (P : Bounce → Type ℓ) (s : Bounce)
      → ((n : ℕ) → P (record s { needed = n }))
      → P (state (check_needed disk_free r s))
  unfolding check_needed
  check_needed_elim P s h = elim (Bool-cases (s.needed == 0)) [
    | inr e ↦ rw e (h s.needed)
    | inl e ↦ elim (Bool-cases (measure disk_free r s.purged == 0)) [
      | inl d ↦ rw (e, d) (h (measure disk_free r s.purged))
      | inr d ↦ rw (e, d) (h (measure disk_free r s.purged))
    ]
  ]

  Move-Fair :
      (o : Option Tracker) (queue : List Tracker) (s : Bounce) (t : Turn)
      → Fair r s
      → Move disk_free r o queue s t
      → Fair r (state t)
  unfolding activate purge_item is_under_quota is_reserved sizes Unreserved
  Move-Fair o queue s t h no_more = h
  Move-Fair o queue s t h (under_quota e) = h
  Move-Fair o queue s t h (reserved e) = h
  Move-Fair o queue s t h first = h
  Move-Fair o queue s t h (better e) = h
  Move-Fair o queue s t h (empty e) = h
  Move-Fair (some a) queue s t h (purging {item = item} {rest = rest} e over kept) =
      let at : s.cleared ≡ 0 + sizes s.log = omega (arith, h.0) in
      let p : Purge = record { ratio = get_cache_ratio a; item = item } in
      let fair : ((s.cleared + item.size) ≡ sizes (s.log ++ p ∷ []))
          × Unreserved r 0 (s.log ++ p ∷ [])
          × All (OverQuota r) (s.log ++ p ∷ []) =
        (
          omega (arith, h.0, sizes-append s.log (p ∷ [])),
          Unreserved-append r 0 s.log (p ∷ []) h.1 (
            subst
                (λ n. (ltb 0 r.cache_reserved && leb r.cache_total (n + r.cache_reserved)) ≡ false)
                at kept,
            tt,
          ),
          All-append (OverQuota r) s.log (p ∷ []) h.2 (over, tt),
        ) in
      check_needed_elim (Fair r) (purge_item disk_free r s a item rest) (λ n. fair)

  -- An invariant of the turns holds where the loop ends.
  pub bounce-invariant {ℓ} :
      (P : Bounce → Type ℓ)
      → ((s : Bounce) → P s → P (state (turn disk_free r s.active s.queue s)))
      → (fuel : ℕ) (s t : Bounce) → P s
      → bounce disk_free r fuel s ≡ some t
      → (u : Bounce) × P u × (turn disk_free r u.active u.queue u ≡ stop t)
  bounce-invariant P keeps zero s t h e = cc (e, bounce-zero disk_free r s)
  bounce-invariant P keeps (suc fuel) s t h e =
      elim (turn_cases (turn disk_free r s.active s.queue s)) [
        | inl (u, k) ↦
            let same : stop u ≡ stop t =
              ap (λ o. elim o [ none ↦ stop s | some v ↦ stop v ])
                (sym (bounce-stop disk_free r fuel s u k) ∙ e) in
            (s, h, k ∙ same)
        | inr (u, k) ↦
            bounce-invariant P keeps fuel u t (subst (λ v. P (state v)) k (keeps s h))
              (sym (bounce-next disk_free r fuel s u k) ∙ e)
      ]

  -- Where the loop over any trackers ends, the bytes cleared are the sizes of the items in the log;
  -- each item was taken when the bytes cleared before it and the reserved ones were less than the
  -- bytes used at the start, where bytes are reserved; and each was taken from a tracker with a
  -- ratio of at least 10000 at that time, unless FLAG_FREE_CACHE_V2_DEFY_QUOTA is given.
  pub bounce-Fair :
      (trackers : List Tracker) (needed fuel : ℕ) (s : Bounce)
      → bounce disk_free r fuel (begin trackers needed) ≡ some s
      → Fair r s
  unfolding sizes Unreserved
  bounce-Fair trackers needed fuel s e =
      let keeps = λ (v : Bounce). λ (h : Fair r v).
        Move-Fair v.active v.queue v (turn disk_free r v.active v.queue v) h
          (turn-Move disk_free r v.active v.queue v) in
      let (u, fair, last) =
        bounce-invariant (Fair r) keeps fuel (begin trackers needed) s (refl, tt, tt) e in
      subst (λ v. Fair r (state v)) last (keeps u fair)
