-- ===== src/Dumpstate/Progress.antt =====
-- Progress and UpdateProgress of dumpstate/utils.cpp. An int32_t is the number of its bits. What the sources
-- compute in floating point is the argument Floats.
use cmds.Common.{
  ℕ, ◌+◌, ◌-◌, ◌*◌, ◌/◌, ◌%◌, Bool, true, false, not, ◌&&◌, ◌||◌, List, [], ◌∷◌, ◌++◌, Bytes, codes,
  Option, none, some, ◌==◌, if◌then◌else◌, ℤ, pos, negsuc, less, of_word,
}
use cmds.CLib.{strtol, u32_mod}
use cmds.CLib.Decimal.{signed_decimal}
use cmds.Dumpsys.{word_of}

pub record Progress : Type 0 where
  pub initial_max : ℕ
  pub progress : ℕ
  pub max : ℕ
  pub n_runs : ℕ
  pub average_max : ℕ

-- floor((float)progress * growth_factor_), and floor(((float)total) / runs)
pub record Floats : Type 0 where
  pub grown : ℕ → ℕ
  pub mean : ℕ → ℕ → ℕ

abbrev pub default_max : ℕ
default_max = 5000

abbrev pub stats_max_n_runs : ℕ
stats_max_n_runs = 1000

abbrev pub stats_max_average : ℕ
stats_max_average = 100000

-- The progress without stats.
abbrev pub new_progress : ℕ → Progress
new_progress initial_max = record {
  initial_max = initial_max;
  progress = 0;
  max = initial_max;
  n_runs = 0;
  average_max = 0;
}

-- android::base::Split(content, "\n")[0]
unfoldable pub first_line : Bytes → Bytes
first_line [] = []
first_line (c ∷ s) = let rest = first_line s in if c == 10 then [] else c ∷ rest

unfoldable pub are_valid : ℤ → ℤ → Bool
are_valid n_runs average_max = not (
    not (less (pos 0) n_runs)
    || not (less (pos 0) average_max)
    || less (pos stats_max_n_runs) n_runs
    || less (pos stats_max_average) average_max)

unfoldable pub with_stats : ℕ → ℕ → Progress → Progress
with_stats n_runs average_max p =
    let initial_max =
      if are_valid (of_word n_runs) (of_word average_max) then average_max else default_max in
    record {
      initial_max = initial_max;
      progress = p.progress;
      max = initial_max;
      n_runs = n_runs;
      average_max = average_max;
    }

-- What follows the number that n_runs_ is read from, on to average_max_.
unfoldable pub read_average : ℕ × Bytes → Progress → Progress
read_average (n_runs, ptr) p = with_stats n_runs (word_of ptr (strtol 10 ptr)).0 p

-- A file that cannot be read is `none`.
unfoldable pub load : Option Bytes → Progress → Progress
load none p = p
load (some []) p = p
load (some (c ∷ s)) p =
    let line = first_line (c ∷ s) in read_average (word_of line (strtol 10 line)) p

module _ (floats : Floats) where
  -- What is written to the file.
  unfoldable pub save : Progress → Bytes
  save p =
      let total = (p.n_runs * p.average_max + p.progress) % u32_mod in
      let runs = (p.n_runs + 1) % u32_mod in
      signed_decimal (of_word runs)
      ++ (codes " " ++ (signed_decimal (of_word (floats.mean total runs)) ++ codes "\n"))

  unfoldable pub with_progress : ℕ → Progress → Progress × Bool
  with_progress progress p =
      if less (of_word p.max) (of_word progress)
      then (record p { progress = progress; max = floats.grown progress }, true)
      else (record p { progress = progress }, false)

  -- The bool is whether the maximum has changed.
  unfoldable pub inc : ℕ → Progress → Progress × Bool
  inc delta_sec p =
      if less (of_word delta_sec) (pos 0)
      then (p, false)
      else with_progress ((p.progress + delta_sec) % u32_mod) p

-- What UpdateProgress writes to the control socket and tells the listener.
pub data Notice : Type 0 where
  max_progress_updated : ℕ → Notice
  socket : ℕ → ℕ → Notice
  progress_updated : ℕ → Notice
  on_progress : ℤ → Notice

-- The quotient is rounded towards zero.
unfoldable pub quotient : ℤ → ℤ → ℤ
quotient (pos m) (pos n) = pos (m / n)
quotient (pos m) (negsuc n) = if m / (n + 1) == 0 then pos 0 else negsuc (m / (n + 1) - 1)
quotient (negsuc m) (pos n) = if (m + 1) / n == 0 then pos 0 else negsuc ((m + 1) / n - 1)
quotient (negsuc m) (negsuc n) = pos ((m + 1) / (n + 1))

unfoldable pub percent_of : ℕ → ℕ → ℤ
percent_of progress max = quotient (of_word (100 * progress % u32_mod)) (of_word max)

-- Where the progress goes, and how often: the fields of Dumpstate that UpdateProgress reads.
pub record Settings : Type 0 where
  pub do_progress_updates : Bool
  pub has_listener : Bool
  pub has_socket : Bool
  pub update_progress_threshold : ℕ

pub record Updates : Type 0 where
  pub stats : Progress
  pub last_updated_progress : ℕ

module _ (settings : Settings) where
  unfoldable pub tell_max : Bool → Progress → List Notice
  tell_max max_changed p =
      if max_changed && settings.has_listener then max_progress_updated p.max ∷ [] else []

  unfoldable pub is_too_early : ℕ → ℕ → Bool
  is_too_early progress last_updated_progress =
      less (pos 0) (of_word last_updated_progress)
      && less (of_word ((progress + (u32_mod - last_updated_progress)) % u32_mod))
          (of_word settings.update_progress_threshold)

  unfoldable pub tell_socket : Progress → List Notice
  tell_socket p = if settings.has_socket then socket p.progress p.max ∷ [] else []

  unfoldable pub tell_listener : Progress → List Notice
  tell_listener p =
      if settings.has_listener
      then progress_updated p.progress ∷ on_progress (percent_of p.progress p.max) ∷ []
      else []

  unfoldable pub tell : ℕ → Progress → Updates × List Notice
  tell last_updated_progress p =
      if is_too_early p.progress last_updated_progress
      then (record { stats = p; last_updated_progress = last_updated_progress }, [])
      else (
        record { stats = p; last_updated_progress = p.progress },
        tell_socket p ++ tell_listener p,
      )

  unfoldable pub tell_all : ℕ → Progress × Bool → Updates × List Notice
  tell_all last_updated_progress (p, max_changed) =
      if not settings.do_progress_updates
      then (record { stats = p; last_updated_progress = last_updated_progress }, [])
      else let (after, told) = tell last_updated_progress p in
        (after, tell_max max_changed p ++ told)

  -- progress_ is set.
  unfoldable pub update_progress : Floats → ℕ → Updates → Updates × List Notice
  update_progress floats delta_sec u =
      tell_all u.last_updated_progress (inc floats delta_sec u.stats)

  -- The sections of a report in turn.
  unfoldable pub update_all : Floats → List ℕ → Updates → Updates × List Notice
  update_all floats [] u = (u, [])
  update_all floats (delta_sec ∷ deltas) u =
      let (next, told) = update_progress floats delta_sec u in
      let (last, rest) = update_all floats deltas next in (last, told ++ rest)
