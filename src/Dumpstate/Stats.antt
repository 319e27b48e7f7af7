-- ===== src/Dumpstate/Stats.antt =====
-- The stats of dumpstate/utils.cpp from one run to the next.
use cmds.Common.{
  ℕ, ◌+◌, ◌*◌, ◌%◌, ◌<◌, ◌≤◌, ◌≡◌, refl, ap, ◌∙◌, false, [], ◌∷◌, ◌++◌, Bytes, some, pos, of_word,
  ltb, if◌then◌else◌, arith, append-nil, less,
}
use cmds.CLib.{digit_value, read_digits, saturate, low_word, strtol, u32_mod}
use cmds.CLib.Decimal.{decimal, decimal-first, read_digits-decimal, strtol-decimal, signed_decimal}
use cmds.CLib.Prefix.{IsEnd, strtol-prefix, strtol-space}
use cmds.Dumpsys.{word_of}
use cmds.Dumpstate.Progress.{
  Progress, Floats, default_max, first_line, are_valid, with_stats, read_average, load, save,
}

-- No digit ends a line.
first_line-digits :
    (acc n : ℕ) (s t : Bytes)
    → read_digits 10 acc s ≡ (n, [])
    → first_line (s ++ t) ≡ s ++ first_line t
unfolding first_line read_digits digit_value
first_line-digits acc n [] t h = refl
first_line-digits acc n (c ∷ s) t h =
    ground (arith, first_line-digits (acc * 10 + digit_value c) n s t)

first_line-decimal : (n : ℕ) (t : Bytes) → first_line (decimal n ++ t) ≡ decimal n ++ first_line t
first_line-decimal n t = first_line-digits 0 n (decimal n) t (read_digits-decimal n)

of_word_small : (n : ℕ) → n < 2147483648 → of_word n ≡ pos n
unfolding of_word
of_word_small n h = ground arith

low_word_small : (n : ℕ) → n < 2147483648 → low_word false (saturate false n) ≡ n
unfolding low_word saturate
low_word_small n h = omega arith

printed : (n : ℕ) → n < 2147483648 → signed_decimal (of_word n) ≡ decimal n
unfolding signed_decimal
printed n h = rw (of_word_small n h) refl

-- The line of the stats, without its end.
abbrev line : ℕ → ℕ → Bytes
line runs average = decimal runs ++ b' ' ∷ decimal average

abbrev written : ℕ → ℕ → Bytes
written runs average = decimal runs ++ b' ' ∷ (decimal average ++ 10 ∷ [])

first_line-written : (runs average : ℕ) → first_line (written runs average) ≡ line runs average
unfolding first_line
first_line-written runs average =
    first_line-decimal runs (b' ' ∷ (decimal average ++ 10 ∷ []))
    ∙ ap (λ s. decimal runs ++ s)
        (after_space (decimal average ++ 10 ∷ [])
          ∙ ap (λ s. b' ' ∷ s)
              (first_line-decimal average (10 ∷ [])
                ∙ ap (λ s. decimal average ++ s) ended
                ∙ append-nil (decimal average)))
  where
    after_space : (s : Bytes) → first_line (b' ' ∷ s) ≡ b' ' ∷ first_line s
    after_space s = refl

    ended : first_line (10 ∷ []) ≡ []
    ended = refl

word_of-prefix :
    (n d : ℕ) (t : Bytes)
    → 0 < n
    → n < 2147483648
    → IsEnd d
    → word_of (decimal n ++ d ∷ t) (strtol 10 (decimal n ++ d ∷ t)) ≡ (n, d ∷ t)
unfolding word_of
word_of-prefix n d t h fits end =
    rw (strtol-prefix n d t h end) (ap (λ m. (m, d ∷ t)) (low_word_small n fits))

word_of-space :
    (n : ℕ) → n < 2147483648 → (word_of (b' ' ∷ decimal n) (strtol 10 (b' ' ∷ decimal n))).0 ≡ n
unfolding word_of
word_of-space n fits = rw (strtol-space (decimal n), (strtol-decimal n).1) (low_word_small n fits)

space-IsEnd : IsEnd b' '
unfolding digit_value
space-IsEnd = refl

load_nonempty :
    (content : Bytes) (c : ℕ) (s : Bytes) (q : Progress)
    → content ≡ c ∷ s
    → load (some content) q
      ≡ read_average (word_of (first_line content) (strtol 10 (first_line content))) q
unfolding load
load_nonempty content c s q e = rw e refl

load-written :
    (runs average : ℕ) (q : Progress)
    → 0 < runs
    → runs < 2147483648
    → average < 2147483648
    → load (some (written runs average)) q ≡ with_stats runs average q
unfolding read_average
load-written runs average q positive fits small =
    let (c, s, e, lo, hi) = decimal-first runs positive in
    load_nonempty (written runs average) c (s ++ b' ' ∷ (decimal average ++ 10 ∷ [])) q (rw e refl)
    ∙ rw
        (
          first_line-written runs average,
          word_of-prefix runs b' ' (decimal average) positive fits space-IsEnd,
          word_of-space average small,
        )
        refl

save-written :
    (floats : Floats) (p : Progress)
    → p.n_runs < 2147483647
    → floats.mean ((p.n_runs * p.average_max + p.progress) % u32_mod) (p.n_runs + 1) < 2147483648
    → save floats p
      ≡ written
          (p.n_runs + 1)
          (floats.mean ((p.n_runs * p.average_max + p.progress) % u32_mod) (p.n_runs + 1))
unfolding save
save-written floats p fits small =
    let low : (p.n_runs + 1) % u32_mod ≡ p.n_runs + 1 = omega arith in
    rw (low, printed (p.n_runs + 1) (omega arith), printed _ small) refl

with_stats_max :
    (runs average : ℕ) (q : Progress)
    → 0 < runs
    → runs < 2147483648
    → 0 < average
    → average ≤ 100000
    → (with_stats runs average q).max ≡ (if ltb 1000 runs then default_max else average)
unfolding with_stats are_valid less
with_stats_max runs average q h fits k small =
    rw (of_word_small runs fits, of_word_small average (omega arith)) (ground arith)

-- Where the average of a run is from 1 to 100000, what Save writes is read back by the next run: the number
-- of runs with this one, the average, and as the estimate of the maximum the average, but with
-- more than 1000 runs the default.
pub load-save :
    (floats : Floats) (p q : Progress) (average : ℕ)
    → p.n_runs < 2147483647
    → floats.mean ((p.n_runs * p.average_max + p.progress) % u32_mod) (p.n_runs + 1) ≡ average
    → 0 < average
    → average ≤ 100000
    → ((load (some (save floats p)) q).n_runs ≡ p.n_runs + 1)
      × ((load (some (save floats p)) q).average_max ≡ average)
      × ((load (some (save floats p)) q).max ≡ (if ltb p.n_runs 1000 then average else default_max))
unfolding with_stats
load-save floats p q average fits e h small =
    let text = save-written floats p fits (rw e (omega arith)) in
    rw (text, e, load-written (p.n_runs + 1) average q (omega arith) (omega arith) (omega arith))
      (
        refl,
        refl,
        with_stats_max (p.n_runs + 1) average q (omega arith) (omega arith) h small ∙ ground arith,
      )
