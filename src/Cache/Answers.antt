-- ===== src/Cache/Answers.antt =====
-- The answers of freeCache.
use cmds.Common.{
  ℕ, ◌-◌, ◌≡◌, refl, sym, ap, subst, ◌∙◌, true, false, List, [], Option, none, some, leb,
  Bool-cases, Option-cases, arith, inl, inr, if◌then◌else◌, Bool,
}
use cmds.Cache.{Item, Tracker}
use cmds.Cache.Free.{
  Request, Bounce, bounce, enough, begin, is_enough, has_flag, total_used, free_more, free_cache,
  flag_free_cache_v2, flag_free_cache_v2_defy_quota, flag_free_cache_noop,
}
use cmds.Cache.Queue.{count, items_left}
use cmds.Cache.Ends.{bounce-enough}
use cmds.Cache.Cleared.{taken, purged_of-if, AllTaken, bounce-cleared}

abbrev request : ℕ → ℕ → ℕ → List Tracker → Request
request target_free cache_reserved flags trackers = record {
  target_free = target_free;
  cache_reserved = cache_reserved;
  cache_total = total_used trackers;
  noop = has_flag flags flag_free_cache_noop;
  defy_quota = has_flag flags flag_free_cache_v2_defy_quota;
}

module _ (disk_free : List Item → Option ℕ) (target_free cache_reserved flags : ℕ)
    (trackers : List Tracker) where
  bounced : (needed : ℕ) → Option Bounce
  bounced needed =
      bounce disk_free (request target_free cache_reserved flags trackers) (enough trackers)
        (begin trackers needed)

  bounced-some : (needed : ℕ) → (s : Bounce) × (bounced needed ≡ some s)
  unfolding bounced
  bounced-some needed =
      let (s, e) =
        bounce-enough disk_free (request target_free cache_reserved flags trackers) trackers
          needed in
      (s, e (enough trackers) (omega arith))

  free_cache-none :
      disk_free [] ≡ none
      → free_cache disk_free target_free cache_reserved flags trackers
        ≡ some (false, begin trackers 0)
  unfolding free_cache
  free_cache-none e = rw (e, free_cache) refl

  free_cache-some :
      (free : ℕ)
      → disk_free [] ≡ some free
      → free_cache disk_free target_free cache_reserved flags trackers
        ≡ free_more disk_free target_free cache_reserved flags trackers free
  unfolding free_cache
  free_cache-some free e = rw (e, free_cache) refl

  free_more-bounced :
      (free : ℕ) (s : Bounce)
      → leb target_free free ≡ false
      → has_flag flags flag_free_cache_v2 ≡ true
      → bounced (target_free - free) ≡ some s
      → free_more disk_free target_free cache_reserved flags trackers free
        ≡ some (is_enough (disk_free s.purged) target_free, s)
  unfolding free_more bounced
  free_more-bounced free s k v run = rw (k, v, run) refl

  free_more-enough :
      (free : ℕ)
      → leb target_free free ≡ true
      → free_more disk_free target_free cache_reserved flags trackers free
        ≡ some (true, begin trackers 0)
  unfolding free_more
  free_more-enough free k = rw k refl

  more_answers :
      (free : ℕ)
      → disk_free [] ≡ some free
      → (s : Bounce) × (free_more disk_free target_free cache_reserved flags trackers free
          ≡ some (is_enough (disk_free s.purged) target_free, s))
  unfolding free_more is_enough
  more_answers free e = elim (Bool-cases (leb target_free free)) [
    | inl k ↦ (begin trackers 0, rw (k, e, k) refl)
    | inr k ↦ elim (Bool-cases (has_flag flags flag_free_cache_v2)) [
      | inr v ↦ (begin trackers (target_free - free), rw (k, v, e, k) refl)
      | inl v ↦
          let (s, run) = bounced-some (target_free - free) in (s, free_more-bounced free s k v run)
    ]
  ]

  -- Whatever the disk reports, freeCache answers: ok if what data_disk_free reports after the items
  -- that were purged is at least what was asked for, and otherwise an error, as also where
  -- data_disk_free fails.
  pub free_cache-answers :
      (s : Bounce) × (free_cache disk_free target_free cache_reserved flags trackers
        ≡ some (is_enough (disk_free s.purged) target_free, s))
  unfolding is_enough
  free_cache-answers = elim (Option-cases (disk_free [])) [
    | inl e ↦ (begin trackers 0, free_cache-none e ∙ rw e refl)
    | inr (free, e) ↦ let (s, more) = more_answers free e in (s, free_cache-some free e ∙ more)
  ]

  -- With the flag that defies quotas and no bytes reserved, an answer of freeCache under
  -- FLAG_FREE_CACHE_V2 that is an error, where the disk could be measured at the start, means that
  -- the items of all trackers were taken, for of those that pass any test as many are logged as there
  -- are in the trackers, and that all that were taken are purged, in that order, or with
  -- FLAG_FREE_CACHE_NOOP none.
  pub free_cache-exhausted :
      (test : Item → Bool) (free : ℕ) (s : Bounce)
      → disk_free [] ≡ some free
      → has_flag flags flag_free_cache_v2 ≡ true
      → has_flag flags flag_free_cache_v2_defy_quota ≡ true
      → cache_reserved ≡ 0
      → free_cache disk_free target_free cache_reserved flags trackers ≡ some (false, s)
      → (count test (taken s.log) ≡ items_left test trackers)
        × (s.purged ≡ (if has_flag flags flag_free_cache_noop then [] else taken s.log))
  unfolding bounced
  free_cache-exhausted test free s e v d z answer =
      let more : free_more disk_free target_free cache_reserved flags trackers free
          ≡ some (false, s) =
        sym (free_cache-some free e) ∙ answer in
      elim (Bool-cases (leb target_free free)) [
        | inl k ↦ cc (sym more ∙ free_more-enough free k)
        | inr k ↦
            let (u, run) = bounced-some (target_free - free) in
            let same : some (is_enough (disk_free u.purged) target_free, u) ≡ some (false, s) =
              sym (free_more-bounced free u k v run) ∙ more in
            let answers : is_enough (disk_free u.purged) target_free ≡ false =
              ap (λ o. elim o [ none ↦ false | some p ↦ p.0 ]) same in
            let states : u ≡ s = ap (λ o. elim o [ none ↦ u | some p ↦ p.1 ]) same in
            elim (bounce-cleared disk_free (request target_free cache_reserved flags trackers) test
              trackers (target_free - free) (enough trackers) u d z run) [
                | inl y ↦ cc (y, answers)
                | inr n ↦
                    let all =
                      subst
                        (AllTaken disk_free (request target_free cache_reserved flags trackers) test
                          (items_left test trackers))
                        states n in
                    (all.0, all.1 ∙ purged_of-if (has_flag flags flag_free_cache_noop) s.log)
              ]
      ]
