-- ===== src/Dumpsys/Tests.antt =====
-- The theorems on dumpsys at work.
use cmds.Common.{
  ℕ, ◌≡◌, refl, true, false, List, [], ◌∷◌, Bytes, codes, some, arith, ◌⊎◌, ◌==◌, All,
  if◌then◌else◌,
}
use cmds.CLib.Decimal.{decimal}
use cmds.Dumpsys.{
  Platform, Options, Words, is_skipped, set_service_args, run_words, read_timeout, read_timeout_ms,
}
use cmds.Dumpsys.Timeout.{read_timeout-decimal}
use cmds.Dumpsys.Choice.{run_words-All}

read_timeout-decimal_example :
    (read_timeout_ms (decimal 500) ≡ some 500)
    × (read_timeout_ms (decimal 4294967796) ≡ some 500)
    × (read_timeout (decimal 30) ≡ some 30000)
read_timeout-decimal_example =
    read_timeout-decimal 500 30 (omega arith) (omega arith) (omega arith) (omega arith)

abbrev platform : Platform
platform = record {
  flag_critical = 1;
  flag_high = 2;
  flag_normal = 4;
  flag_default = 8;
  flag_all = 15;
  flag_proto = 16;
  arg_priority = codes "--dump-priority";
  arg_critical = codes "CRITICAL";
  arg_high = codes "HIGH";
  arg_normal = codes "NORMAL";
  arg_proto = codes "--proto";
}

abbrev registered : ℕ → List Bytes
registered flags =
    if flags == 16 then codes "power" ∷ [] else codes "wifi" ∷ codes "power" ∷ codes "alarm" ∷ []

abbrev all_as_proto : Options
all_as_proto = record {
  show_list_only = false;
  skip_services = true;
  as_proto = true;
  timeout_arg_ms = 10000;
  priority_flags = 15;
}

abbrev without_alarm : Words
without_alarm = record { services = []; args = []; skipped = codes "alarm" ∷ [] }

abbrev NotEmpty : Bytes → Type 0
NotEmpty s = (c : ℕ) × (rest : Bytes) × (s ≡ c ∷ rest)

run_words-All_example :
    All
      (λ d.
        (NotEmpty d.service × ((true ≡ false) ⊎ (d.service ≡ codes "power")))
        × (is_skipped (codes "alarm" ∷ []) d.service ≡ false)
        × (d.args ≡ set_service_args platform [] true 15))
      (run_words platform registered all_as_proto without_alarm).1
run_words-All_example =
    run_words-All platform registered NotEmpty (λ s. s ≡ codes "power") all_as_proto without_alarm
      refl ((_, _, refl), ((_, _, refl), ((_, _, refl), tt))) (refl, tt)
