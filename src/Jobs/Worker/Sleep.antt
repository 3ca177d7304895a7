-- ===== src/Jobs/Worker/Sleep.antt =====
-- The pause of a worker that found no rows (`getRandomSleepDuration` of jobs/jobmanager.go).
mod Bounds
mod Tests
use alya.Prelude.{ℕ, Option, some, none}
use alya.Prelude.Int.{ℤ, pos, negsuc, int64, times, quotient, is_zero, nonpositive, ◌+ℤ◌, ◌-ℤ◌}
use alya.Prelude.{if◌then◌else◌}

-- `ALYA_POLLING_INTERVAL_SEC`
abbrev pub alya_polling_interval_sec : ℤ
alya_polling_interval_sec = pos 45

abbrev pub base_interval : ℤ → ℤ
base_interval polling_interval_sec =
    if is_zero polling_interval_sec then alya_polling_interval_sec else polling_interval_sec

abbrev pub min_interval : ℤ → ℤ
min_interval base = quotient (int64 (times base 2)) 3

abbrev pub max_interval : ℤ → ℤ
max_interval base = quotient (int64 (times base 4)) 3

abbrev pub random_range : ℤ → ℤ
random_range base = int64 (int64 (max_interval base -ℤ min_interval base) +ℤ pos 1)

-- `rand.Intn`, which panics at 0 and below; `intn` is what it draws above.
abbrev pub draw : (ℕ → ℕ) → ℤ → Option ℤ
draw intn (pos n) = if is_zero (pos n) then none else some (pos (intn n))
draw intn (negsuc n) = none

-- The duration in nanoseconds; `none` is a panic.
unfoldable pub get_random_sleep_duration : (ℕ → ℕ) → ℤ → Option ℤ
get_random_sleep_duration intn polling_interval_sec =
    let base = base_interval polling_interval_sec in
    elim (draw intn (random_range base)) [
      | none ↦ none
      | some r ↦ some (int64 (times (int64 (r +ℤ min_interval base)) 1000000000))
    ]
