-- ===== src/Jobs/Worker/Iteration/Rounds.antt =====
-- The panics of an iteration, and the supervisor's circuit breaker (jobs/jobmanager.go).
use alya.Prelude.{
  ℕ, zero, suc, ◌≤◌, Option, some, none, List, [], ◌∷◌, String, Bool, true, false, ◌≡◌, refl, ap,
  ◌∙◌, arith, if◌then◌else◌,
}
use alya.Prelude.Int.{ℤ}
use alya.Jobs.Worker.Sleep.{get_random_sleep_duration}
use alya.Jobs.Queries.{FetchBlockOfRowsRow}
use alya.Jobs.Machine.{
  Env, World, M, Error, Result, ok, err, panicked, ◌>>=◌, Total, Total-bind, pure-Total,
  log_error-Total, machine,
}
use alya.Jobs.Completed.{summarize_completed_batches}
use alya.Jobs.Worker.Claim.{claim_block}
use alya.Jobs.Worker.Errors.Block.{process_rows-Total}
use alya.Jobs.Worker.Iteration.{
  batch_set, track_rows, close_init_blocks, after_summaries, summarize_block, work_on_block,
  false_on_panic, run_one_iteration, after_iteration, run_rounds,
}

-- `m` returns no error, but it may panic.
record OnlyPanics {A : Type 0} (m : M A) : Type 0 where
  only : (w : World) (e : Error) → (m w).0 ≡ err e → e ≡ panicked

module _ {A B : Type 0} where
  bind-only :
      (f : A → M B) (r : Result A) (w : World) (e : Error)
      → ((x : Error) → r ≡ err x → ⊥)
      → ((a : A) → OnlyPanics (f a))
      → (elim r as (λ _. Result B × World) [ ok a ↦ f a w | err e ↦ (err e, w) ]).0 ≡ err e
      → e ≡ panicked
  bind-only f (ok a) w e p q h = (q a).only w e h
  bind-only f (err x) w e p q h = absurd (p x refl)

  OnlyPanics-bind :
      {m : M A} {f : A → M B} → Total m → ((a : A) → OnlyPanics (f a)) → OnlyPanics (m >>= f)
  unfolding machine
  OnlyPanics-bind {m} {f} p q = record {
    only = λ w e h. bind-only f (m w).0 (m w).1 e (p.returns w) q h;
  }

recovered_result :
    (r : Result Bool) (e : Error)
    → ((x : Error) → r ≡ err x → x ≡ panicked)
    → false_on_panic r ≡ err e
    → ⊥
recovered_result (ok b) e k h = cc
recovered_result (err x) e k h = ground (arith, k x refl)

-- After an iteration that returns, at most one panic is counted, that of the sleep.
round_goes_on :
    (pause : Option ℤ) (consecutive : ℕ) (r : Result Bool) (next : ℕ → M ℕ) (w w' : World)
    → ((e : Error) → r ≡ err e → ⊥)
    → ((c : ℕ) → c ≤ 1 → (d : ℕ) × (next c w ≡ (ok d, w')) × (d ≤ 1))
    → (d : ℕ) × (after_iteration pause consecutive r next w ≡ (ok d, w')) × (d ≤ 1)
round_goes_on pause consecutive (ok true) next w w' k h = h 0 (omega arith)
round_goes_on none consecutive (ok false) next w w' k h = h 1 (omega arith)
round_goes_on (some t) consecutive (ok false) next w w' k h = h 0 (omega arith)
round_goes_on pause consecutive (err e) next w w' k h = absurd (k e refl)

module _ (env : Env) where
  track_rows-Total :
      (instance_id : String) (rows : List FetchBlockOfRowsRow)
      → Total (track_rows env instance_id rows)
  unfolding track_rows
  track_rows-Total instance_id [] = pure-Total tt
  track_rows-Total instance_id (row ∷ rows) =
      Total-bind (log_error-Total _) λ _. track_rows-Total instance_id rows

  after_summaries-OnlyPanics : (r : Result (Unit {0})) → OnlyPanics (after_summaries env r)
  unfolding machine close_init_blocks
  after_summaries-OnlyPanics (ok a) = record { only = λ w e h. ground arith }
  after_summaries-OnlyPanics (err x) = record { only = λ w e h. ground arith }

module _ (env : Env) (error_text : Error → String) (ctx_done locked : ℕ → Bool)
    (map_order : List ℕ → List ℕ) (instance_id : String) where
  summarize_block-OnlyPanics :
      (rows : List FetchBlockOfRowsRow)
      → OnlyPanics (summarize_block env error_text ctx_done locked map_order instance_id rows)
  unfolding summarize_block
  summarize_block-OnlyPanics rows = record {
    only = λ w e h.
        let (r, w') = summarize_completed_batches env ctx_done (map_order (batch_set rows)) w in
        go (ctx_done w.calls) w e r w' h;
  }
    where
      go :
          (done : Bool) (w : World) (e : Error) (r : Result (Unit {0})) (w' : World)
          → (if done then (ok true, w) else after_summaries env r w').0 ≡ err e
          → e ≡ panicked
      go true w e r w' h = cc
      go false w e r w' h = (after_summaries-OnlyPanics env r).only w' e h

  work_on_block-OnlyPanics :
      (rows : List FetchBlockOfRowsRow)
      → OnlyPanics (work_on_block env error_text ctx_done locked map_order instance_id rows)
  unfolding work_on_block
  work_on_block-OnlyPanics rows = OnlyPanics-bind (track_rows-Total env instance_id rows) λ _.
      OnlyPanics-bind (process_rows-Total env error_text instance_id rows [])
        λ _. summarize_block-OnlyPanics rows

  pub run_one_iteration-Total :
      (n : ℕ) → Total (run_one_iteration env error_text ctx_done locked map_order instance_id n)
  unfolding run_one_iteration
  run_one_iteration-Total n = record {
    returns = λ w e h. let (r, w1) = claim_block env ctx_done locked n w in go r w1 e h;
  }
    where
      go :
          (r : Result (List FetchBlockOfRowsRow)) (w1 : World) (e : Error)
          → (elim r as (λ _. Result Bool × World) [
            | err e ↦ (ok false, w1)
            | ok rows ↦
                let (r, w2) =
                  work_on_block env error_text ctx_done locked map_order instance_id rows w1 in
                (false_on_panic r, w2)
          ]).0
            ≡ err e
          → ⊥
      go (err x) w1 e h = cc
      go (ok rows) w1 e h =
          recovered_result
            (work_on_block env error_text ctx_done locked map_order instance_id rows w1).0 e
            ((work_on_block-OnlyPanics rows).only w1) h

  -- The world after so many iterations.
  abbrev pub after_iterations : ℕ → ℕ → World → World
  after_iterations n zero w = w
  after_iterations n (suc k) w =
      after_iterations n k
        (run_one_iteration env error_text ctx_done locked map_order instance_id n w).1

  rounds_run :
      (polling : ℤ) (intn : ℕ → ℕ → ℕ) (n rounds consecutive : ℕ) (w : World)
      → ((m : ℕ) → ctx_done m ≡ false)
      → consecutive ≤ 1
      → (d : ℕ) × (run_rounds env error_text ctx_done locked map_order instance_id polling intn n
            rounds consecutive w
          ≡ (ok d, after_iterations n rounds w))
        × (d ≤ 1)
  unfolding run_rounds
  rounds_run polling intn n zero consecutive w k h = (consecutive, refl, h)
  rounds_run polling intn n (suc rounds) consecutive w k h =
      let (r, w') = run_one_iteration env error_text ctx_done locked map_order instance_id n w in
      let next : ℕ → M ℕ =
        run_rounds env error_text ctx_done locked map_order instance_id polling intn n rounds in
      let pause = get_random_sleep_duration (intn w'.calls) polling in
      let (d, run, le) =
        round_goes_on pause consecutive r next w' (after_iterations n rounds w')
          ((run_one_iteration-Total n).returns w)
          (λ c small. rounds_run polling intn n rounds c w' k small) in
      (
        d,
        ap
              (λ (b : Bool).
                if b then (ok consecutive, w) else after_iteration pause consecutive r next w')
              (k w.calls)
            ∙ run,
        le,
      )

  -- Where the context is never done, as that of `Run`, the supervisor's rounds are so many
  -- iterations, whatever panics and failures there are in them and in the sleeps between them: there
  -- is never more than one consecutive panic, and the circuit breaker, which waits for three, does
  -- not trip.
  pub run_rounds-run :
      (polling : ℤ) (intn : ℕ → ℕ → ℕ) (n rounds : ℕ) (w : World)
      → ((m : ℕ) → ctx_done m ≡ false)
      → (d : ℕ) × (run_rounds env error_text ctx_done locked map_order instance_id polling intn n
            rounds 0 w
          ≡ (ok d, after_iterations n rounds w))
        × (d ≤ 1)
  run_rounds-run polling intn n rounds w k = rounds_run polling intn n rounds 0 w k (omega arith)
