-- ===== src/Jobs/Worker/Sleep/Tests.antt =====
-- Pauses with the interval that is the default.
use alya.Prelude.{ℕ, ◌*◌, ◌/◌, ◌≤◌, some, ◌≡◌, refl, arith}
use alya.Prelude.Int.{pos}
use alya.Jobs.Worker.Sleep.{get_random_sleep_duration}
use alya.Jobs.Worker.Sleep.Bounds.{get_random_sleep_duration_within}

abbrev lowest : ℕ → ℕ
lowest n = 0

get_random_sleep_duration_within_example :
    (d : ℕ) × (get_random_sleep_duration lowest (pos 0) ≡ some (pos (d * 1000000000)))
    × (45 * 2 / 3 ≤ d)
    × (d ≤ 45 * 4 / 3)
get_random_sleep_duration_within_example =
    get_random_sleep_duration_within lowest 0 45 (λ m h. h) refl (omega arith)
