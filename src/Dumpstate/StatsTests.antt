-- ===== src/Dumpstate/StatsTests.antt =====
-- The theorems on Progress and UpdateProgress at small numbers. The floats are taken in whole numbers.
use cmds.Common.{
  ℕ, ◌*◌, ◌/◌, ◌≤◌, ◌<◌, ◌≡◌, refl, true, List, [], ◌∷◌, codes, some, pos, less, of_word, arith,
  All,
}
use cmds.CLib.{
  digit_value, is_space, read_digits, skip_spaces, starts_digit, strtol_digits, strtol_prefix,
  strtol_signed, strtol, low_word, saturate,
}
use cmds.CLib.Decimal.{decimal, push_digits, signed_decimal}
use cmds.Dumpsys.{word_of}
use cmds.Dumpstate.Progress.{
  Progress, Floats, new_progress, first_line, are_valid, with_stats, read_average, load, save,
  with_progress, inc, max_progress_updated, socket, progress_updated, on_progress, quotient,
  percent_of, Settings, Updates, tell_max, is_too_early, tell_socket, tell_listener, tell, tell_all,
  update_progress, update_all,
}
use cmds.Dumpstate.Fair.{limit, IsFair, IsSane, update_all-IsFair}
use cmds.Dumpstate.Stats.{load-save}

abbrev floats : Floats
floats = record { grown = λ p. p * 11 / 10; mean = λ total runs. total / runs }

floats_grow : (p : ℕ) → p ≤ limit → (p ≤ floats.grown p) × (floats.grown p < 2147483648)
floats_grow p h = (omega arith, omega arith)

abbrev settings : Settings
settings = record {
  do_progress_updates = true;
  has_listener = true;
  has_socket = true;
  update_progress_threshold = 100;
}

abbrev start : Updates
start = record { stats = new_progress 100; last_updated_progress = 0 }

abbrev sections : List ℕ
sections = 50 ∷ 40 ∷ 70 ∷ []

-- The second section is too early to tell, and the third is above the maximum.
told :
    (update_all settings floats sections start).1
    ≡ socket 50 100
      ∷ progress_updated 50
      ∷ on_progress (pos 50)
      ∷ max_progress_updated 176
      ∷ socket 160 176
      ∷ progress_updated 160
      ∷ on_progress (pos 90)
      ∷ []
unfolding update_all update_progress tell_all tell tell_listener tell_socket is_too_early tell_max
    percent_of quotient inc with_progress less of_word
told = refl

update_all-IsFair_example :
    ((update_all settings floats sections start).0.stats.progress ≡ 160)
    × IsSane (update_all settings floats sections start).0.stats
    × All IsFair (update_all settings floats sections start).1
update_all-IsFair_example =
    update_all-IsFair floats floats_grow settings sections start (omega arith)
      (omega arith, omega arith, omega arith)

abbrev earlier : Progress
earlier = record {
  initial_max = 5000;
  progress = 4000;
  max = 5000;
  n_runs = 1000;
  average_max = 4000;
}

saved : save floats earlier ≡ codes "1001 4000\n"
unfolding save signed_decimal decimal push_digits of_word
saved = refl

loaded : (load (some (codes "2 4700\nrest")) (new_progress 5000)).max ≡ 4700
unfolding load read_average with_stats are_valid first_line less of_word word_of low_word saturate
    strtol strtol_signed strtol_prefix strtol_digits starts_digit skip_spaces is_space digit_value
    read_digits
loaded = refl

load-save_example :
    ((load (some (save floats earlier)) (new_progress 5000)).n_runs ≡ 1001)
    × ((load (some (save floats earlier)) (new_progress 5000)).average_max ≡ 4000)
    × ((load (some (save floats earlier)) (new_progress 5000)).max ≡ 5000)
load-save_example =
    load-save floats earlier (new_progress 5000) 4000 (omega arith) refl (omega arith) (omega arith)
