-- ===== src/Dumpsys/Timeout.antt =====
-- The timeouts that dumpsys reads.
use cmds.Common.{ℕ, ◌+◌, ◌*◌, ◌<◌, ◌≡◌, refl, [], some, pos, of_word, arith, ◌∙◌}
use cmds.CLib.{low_word, saturate}
use cmds.CLib.Decimal.{decimal, strtol-decimal}
use cmds.Dumpsys.{word_of, positive, read_timeout_ms, read_timeout}

of_word-small : (n : ℕ) → n < 2147483648 → of_word n ≡ pos n
unfolding of_word
of_word-small n h = ground arith

positive-some : (n : ℕ) → 0 < n → positive (pos n) [] ≡ some n
unfolding positive
positive-some n h = ground arith

low_bits : (n m : ℕ) → n ≡ m → m < 2147483648 → positive (of_word n) [] ≡ positive (pos m) []
low_bits n m e h = rw (e, of_word-small m h) refl

-- -T with the decimal text of a number from 1 to 2147483647 is that many milliseconds; with
-- the text of a number that is 4294967296 greater it is the same, and no error. -t with
-- the text of a number from 1 to 2147483 is as many seconds.
pub read_timeout-decimal :
    (ms seconds : ℕ)
    → 0 < ms
    → ms < 2147483648
    → 0 < seconds
    → seconds < 2147484
    → (read_timeout_ms (decimal ms) ≡ some ms)
      × (read_timeout_ms (decimal (4294967296 + ms)) ≡ some ms)
      × (read_timeout (decimal seconds) ≡ some (seconds * 1000))
unfolding read_timeout_ms read_timeout word_of low_word saturate
read_timeout-decimal ms seconds lo hi lo' hi' =
    let all = positive-some ms lo in
    (
      rw (strtol-decimal ms).1 (low_bits _ ms (omega arith) hi ∙ all),
      rw (strtol-decimal (4294967296 + ms)).1 (low_bits _ ms (omega arith) hi ∙ all),
      rw (strtol-decimal seconds).1 (
          low_bits _ (seconds * 1000) (omega arith) (omega arith)
          ∙ positive-some (seconds * 1000) (omega arith)),
    )
