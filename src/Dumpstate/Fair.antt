-- ===== src/Dumpstate/Fair.antt =====
-- What UpdateProgress of dumpstate/utils.cpp tells of the progress.
use cmds.Common.{
  ℕ, ◌+◌, ◌*◌, ◌/◌, ◌%◌, ◌≤◌, ◌<◌, ◌≡◌, refl, ap, ◌∙◌, Bool, false, not, ◌&&◌, List, [], ◌∷◌, ℤ,
  pos, less, of_word, arith, All, All-append, Bool-cases, inl, inr, if_elim, ltb,
}
use native.Mathlib.Nat.{div-le_of_le-mul}
use cmds.CLib.{u32_mod}
use cmds.Dumpstate.Progress.{
  Progress, Floats, with_progress, inc, Notice, max_progress_updated, socket, progress_updated,
  on_progress, quotient, percent_of, Settings, Updates, is_too_early, tell_max, tell_socket,
  tell_listener, tell, tell_all, update_progress, update_all,
}

-- The progress of which 100 times fits in an int.
abbrev pub limit : ℕ
limit = 21474836

abbrev pub total : List ℕ → ℕ
total [] = 0
total (n ∷ ns) = n + total ns

abbrev pub IsSane : Progress → Type 0
IsSane p = (0 < p.max) × (p.progress ≤ p.max) × (p.max < 2147483648)

abbrev pub IsPercent : ℤ → Type 0
IsPercent z = (n : ℕ) × (z ≡ pos n) × (n ≤ 100)

abbrev pub IsFair : Notice → Type 0
IsFair (max_progress_updated max) = 0 < max
IsFair (socket progress max) = progress ≤ max
IsFair (progress_updated progress) = progress ≤ limit
IsFair (on_progress percent) = IsPercent percent

of_word-pos : (n : ℕ) → n < 2147483648 → of_word n ≡ pos n
unfolding of_word
of_word-pos n h = ground arith

not_negative : (n : ℕ) → less (pos n) (pos 0) ≡ false
unfolding less
not_negative n = ground arith

share_bound : (p m : ℕ) → 0 < m → p ≤ m → (100 * p) / m ≤ 100
share_bound p m h k = div-le_of_le-mul m (omega arith)

percent_of-IsPercent :
    (p m : ℕ) → p ≤ limit → 0 < m → p ≤ m → m < 2147483648 → IsPercent (percent_of p m)
unfolding percent_of quotient
percent_of-IsPercent p m small h k fits =
    let low : (100 * p) % u32_mod ≡ 100 * p = omega arith in
    (
      (100 * p) / m,
      rw (low, of_word-pos (100 * p) (omega arith), of_word-pos m fits) refl,
      share_bound p m h k,
    )

module _ (floats : Floats)
    (grows : (p : ℕ) → p ≤ limit → (p ≤ floats.grown p) × (floats.grown p < 2147483648)) where
  with_progress-IsSane :
      (progress : ℕ) (p : Progress)
      → progress ≤ limit
      → IsSane p
      → IsSane (with_progress floats progress p).0
        × ((with_progress floats progress p).0.progress ≡ progress)
  unfolding with_progress less
  with_progress-IsSane progress p small (h, k, fits) =
      rw (of_word-pos p.max fits, of_word-pos progress (omega arith))
        (elim (Bool-cases (ltb p.max progress)) [
          | inl e ↦
              let (above, below) = grows progress small in rw e ((ground arith, above, below), refl)
          | inr e ↦ rw e ((h, ground arith, fits), refl)
        ])

  inc-IsSane :
      (delta : ℕ) (p : Progress)
      → p.progress + delta ≤ limit
      → IsSane p
      → IsSane (inc floats delta p).0 × ((inc floats delta p).0.progress ≡ p.progress + delta)
  unfolding inc
  inc-IsSane delta p small h =
      let low : (p.progress + delta) % u32_mod ≡ p.progress + delta = omega arith in
      rw (of_word-pos delta (omega arith), low, not_negative delta)
        (with_progress-IsSane (p.progress + delta) p small h)

  module _ (settings : Settings) where
    tell_max-IsFair : (b : Bool) (p : Progress) → IsSane p → All IsFair (tell_max settings b p)
    unfolding tell_max
    tell_max-IsFair b p (h, k, fits) = if_elim (All IsFair) (b && settings.has_listener) (h, tt) tt

    tell_socket-IsFair : (p : Progress) → IsSane p → All IsFair (tell_socket settings p)
    unfolding tell_socket
    tell_socket-IsFair p (h, k, fits) = if_elim (All IsFair) settings.has_socket (k, tt) tt

    tell_listener-IsFair :
        (p : Progress) → p.progress ≤ limit → IsSane p → All IsFair (tell_listener settings p)
    unfolding tell_listener
    tell_listener-IsFair p small (h, k, fits) =
        if_elim (All IsFair) settings.has_listener
          (small, (percent_of-IsPercent p.progress p.max small h k fits, tt)) tt

    -- The progress and the notices.
    abbrev Leaves : Progress → Updates × List Notice → Type 0
    Leaves p (u, told) = (u.stats ≡ p) × All IsFair told

    tell-Leaves :
        (last : ℕ) (p : Progress) → p.progress ≤ limit → IsSane p → Leaves p (tell settings last p)
    unfolding tell
    tell-Leaves last p small h =
        if_elim (Leaves p) (is_too_early settings p.progress last) (refl, tt)
          (
            refl,
            All-append IsFair (tell_socket settings p) (tell_listener settings p)
                (tell_socket-IsFair p h) (tell_listener-IsFair p small h),
          )

    tell_all-Leaves :
        (last : ℕ) (p : Progress) (b : Bool)
        → p.progress ≤ limit
        → IsSane p
        → Leaves p (tell_all settings last (p, b))
    unfolding tell_all
    tell_all-Leaves last p b small h =
        let (same, fair) = tell-Leaves last p small h in
        if_elim (Leaves p) (not settings.do_progress_updates) (refl, tt)
          (
            same,
            All-append IsFair (tell_max settings b p) (tell settings last p).1
                (tell_max-IsFair b p h) fair,
          )

    -- Where the progress and the estimates of all the sections come to no more than 21474836, of which 100
    -- times fits in an int, and the maximum is positive and no less than the progress, then however
    -- the updates are told, every section is counted, the maximum is still no less than the
    -- progress, and what is told is right: no progress is above its maximum, and the
    -- percentages are from 0 to 100.
    pub update_all-IsFair :
        (deltas : List ℕ) (u : Updates)
        → u.stats.progress + total deltas ≤ limit
        → IsSane u.stats
        → ((update_all settings floats deltas u).0.stats.progress ≡ u.stats.progress + total deltas)
          × IsSane (update_all settings floats deltas u).0.stats
          × All IsFair (update_all settings floats deltas u).1
    unfolding update_all update_progress
    update_all-IsFair [] u small h = (omega arith, h, tt)
    update_all-IsFair (delta ∷ deltas) u small h =
        let (sane, counted) = inc-IsSane delta u.stats (omega arith) h in
        let p = inc floats delta u.stats in
        let (same, fair) =
          tell_all-Leaves u.last_updated_progress p.0 p.1 (rw counted (omega arith)) sane in
        let next = update_progress settings floats delta u in
        let now : next.0.stats.progress ≡ u.stats.progress + delta =
          ap (λ q. q.progress) same ∙ counted in
        let (sum, still, rest) =
          update_all-IsFair deltas next.0 (rw now (omega arith)) (rw same sane) in
        (
          sum ∙ (rw now (omega arith)),
          still,
          All-append IsFair next.1 (update_all settings floats deltas next.0).1 fair rest,
        )
