-- ===== src/Jobs/Worker/Sleep/Bounds.antt =====
-- How long a worker pauses.
use alya.Prelude.{ℕ, zero, suc, ◌+◌, ◌-◌, ◌*◌, ◌/◌, ◌<◌, ◌≤◌, some, none, ◌≡◌, ap, ◌∙◌, arith}
use alya.Prelude.Int.{pos, int64, int64-pos, times, quotient, ◌+ℤ◌, ◌-ℤ◌}
use alya.Jobs.Worker.Sleep.{
  base_interval, min_interval, max_interval, random_range, draw, get_random_sleep_duration,
}

minus-pos : (a b : ℕ) → b ≤ a → pos a -ℤ pos b ≡ pos (a - b)
minus-pos a zero h = ground arith
minus-pos a (suc b) h = ground arith

module _ (b : ℕ) (small : b < 2147483648) where
  min_interval-pos : min_interval (pos b) ≡ pos (b * 2 / 3)
  min_interval-pos = ap (λ x. quotient x 3) (int64-pos (b * 2) (omega arith))

  max_interval-pos : max_interval (pos b) ≡ pos (b * 4 / 3)
  max_interval-pos = ap (λ x. quotient x 3) (int64-pos (b * 4) (omega arith))

  random_range-pos : random_range (pos b) ≡ pos (b * 4 / 3 - b * 2 / 3 + 1)
  random_range-pos =
      ap (λ x. int64 (int64 (x -ℤ min_interval (pos b)) +ℤ pos 1)) max_interval-pos
      ∙ ap (λ x. int64 (int64 (pos (b * 4 / 3) -ℤ x) +ℤ pos 1)) min_interval-pos
      ∙ ap (λ x. int64 (int64 x +ℤ pos 1)) (minus-pos (b * 4 / 3) (b * 2 / 3) (omega arith))
      ∙ ap (λ x. int64 (x +ℤ pos 1)) (int64-pos (b * 4 / 3 - b * 2 / 3) (omega arith))
      ∙ int64-pos (b * 4 / 3 - b * 2 / 3 + 1) (omega arith)

  draw-random_range :
      (intn : ℕ → ℕ)
      → draw intn (random_range (pos b)) ≡ some (pos (intn (b * 4 / 3 - b * 2 / 3 + 1)))
  draw-random_range intn = ap (draw intn) random_range-pos ∙ ground arith

-- With an interval of `b` seconds, the configured one or else 45, below 2^31, a worker pauses for a
-- whole number of seconds between two thirds and four thirds of it, and does not panic; `rand.Intn`
-- of a positive number is below it.
pub get_random_sleep_duration_within :
    (intn : ℕ → ℕ) (n b : ℕ)
    → ((m : ℕ) → 0 < m → intn m < m)
    → base_interval (pos n) ≡ pos b
    → b < 2147483648
    → (d : ℕ) × (get_random_sleep_duration intn (pos n) ≡ some (pos (d * 1000000000)))
      × (b * 2 / 3 ≤ d)
      × (d ≤ b * 4 / 3)
unfolding get_random_sleep_duration
get_random_sleep_duration_within intn n b k base small =
    let range = b * 4 / 3 - b * 2 / 3 + 1 in
    let d = intn range + b * 2 / 3 in
    let drawn : intn range < range = k range (omega arith) in
    (
      d,
      ap
            (λ x. elim (draw intn (random_range x)) [
              | none ↦ none
              | some r ↦ some (int64 (times (int64 (r +ℤ min_interval x)) 1000000000))
            ])
            base
          ∙ ap
              (λ o. elim o [
                | none ↦ none
                | some r ↦ some (int64 (times (int64 (r +ℤ min_interval (pos b))) 1000000000))
              ])
              (draw-random_range b small intn)
          ∙ ap (λ x. some (int64 (times (int64 (pos (intn range) +ℤ x)) 1000000000)))
              (min_interval-pos b small)
          ∙ ap (λ x. some (int64 (times x 1000000000))) (int64-pos d (omega arith))
          ∙ ap some (int64-pos (d * 1000000000) (omega arith)),
      omega arith,
      omega arith,
    )
