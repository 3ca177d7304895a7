-- ===== src/Jobs/Worker/Process/Steps.antt =====
-- How the steps of the processing of a row end: in an error with the tables as they were, or with
-- a value.
use mathlib.Core.Path.{subst}
use alya.Prelude.{
  ℕ, Option, some, none, String, Bool, true, false, ◌≡◌, ◌⊎◌, inl, inr, refl, sym, ap, ◌∙◌, arith,
  Bool-cases,
}
use alya.Jobs.Types.{Outcome, panics, fails, returns}
use alya.Jobs.Db.{Db}
use alya.Jobs.Machine.{
  Env, World, M, Error, Result, ok, err, ◌>>=◌, pure, or_throw, guard, exec, now, machine,
  processing, panicked, db_error,
}
use alya.Jobs.Summary.{init_block_for}
use alya.Jobs.Worker.Process.{recover, recovered, run_processor}

-- From the tables `d`: an error, with the tables as they are, or a value as `P` says.
unfoldable pub Settles {ℓ} : {A : Type ℓ} → Db → (A → World → Type 0) → M A → World → Type ℓ
Settles {A = A} d P m w =
    ((e : Error) × ((m w).0 ≡ err e) × ((m w).1.db ≡ d))
    ⊎ ((a : A) × ((m w).0 ≡ ok a) × P a (m w).1)

result_cases : {A : Type 0} (r : Result A) → ((a : A) × (r ≡ ok a)) ⊎ ((e : Error) × (r ≡ err e))
result_cases (ok a) = inl (a, refl)
result_cases (err e) = inr (e, refl)

module _ {ℓ κ} {A : Type ℓ} {B : Type κ} (d : Db) (Q : A → World → Type 0)
    (P : B → World → Type 0) where
  pub bind-Settles :
      (m : M A) (f : A → M B) (w : World)
      → Settles d Q m w
      → ((a : A) (w' : World) → Q a w' → Settles d P (f a) w')
      → Settles d P (m >>= f) w
  unfolding Settles machine
  bind-Settles m f w (inl (e, failed, same)) next = inl (e, ground arith, ground arith)
  bind-Settles m f w (inr (a, done, q)) next = elim (next a (m w).1 q) [
    | inl (e, failed, same) ↦ inl (e, ground arith, ground arith)
    | inr (b, done', p) ↦
        let run : (m >>= f) w ≡ f a (m w).1 = ground arith in
        inr (b, ap (λ x. x.0) run ∙ done', subst (λ x. P b x.1) (sym run) p)
  ]

module _ (env : Env) (d : Db) where
  pub guard-Settles :
      (b : Bool) (e : Error) (w : World)
      → w.db ≡ d
      → Settles d (λ u w'. (w'.db ≡ d) × (b ≡ true)) (guard b e) w
  unfolding Settles machine
  guard-Settles true e w same = inr (tt, refl, (same, refl))
  guard-Settles false e w same = inl (e, refl, same)

  pub or_throw-Settles :
      {A : Type 0} (o : Option A) (e : Error) (w : World)
      → w.db ≡ d
      → Settles d (λ a w'. (w'.db ≡ d) × (o ≡ some a)) (or_throw o e) w
  unfolding Settles machine
  or_throw-Settles none e w same = inl (e, refl, same)
  or_throw-Settles (some a) e w same = inr (a, refl, (same, refl))

  pub init_block_for-Settles :
      (app : String) (w : World)
      → w.db ≡ d
      → Settles d (λ u w'. w'.db ≡ d) (init_block_for env app) w
  unfolding Settles init_block_for
  init_block_for-Settles app w same = elim (result_cases (init_block_for env app w).0) [
    | inl (u, done) ↦ inr (u, done, ground arith)
    | inr (e, failed) ↦ inl (e, failed, ground arith)
  ]

  pub run_processor-Settles :
      (outcome : ℕ → Outcome) (w : World)
      → w.db ≡ d
      → Settles d
          (λ r w'. (w'.db ≡ d) × (outcome w.calls ≡ returns r))
          (run_processor env outcome)
          w
  unfolding Settles run_processor
  run_processor-Settles outcome w same = ran (outcome w.calls) refl
    where
      ran :
          (o : Outcome)
          → outcome w.calls ≡ o
          → Settles d
              (λ r w'. (w'.db ≡ d) × (outcome w.calls ≡ returns r))
              (run_processor env outcome)
              w
      ran panics e = inl (panicked, ground arith, same)
      ran fails e = inl (processing, ground arith, same)
      ran (returns r) e = inr (r, ground arith, (same, e))

  pub exec-Settles :
      (f : Db → Db) (w : World) → w.db ≡ d → Settles d (λ u w'. w'.db ≡ f d) (exec env f) w
  unfolding Settles machine
  exec-Settles f w same = elim (Bool-cases (env.fails w.calls)) [
    | inl fails_now ↦ inl (db_error, ground arith, ground arith)
    | inr works ↦ inr (tt, ground arith, ground (arith, ap f same))
  ]

  pub now-Settles : (w : World) → w.db ≡ d → Settles d (λ t w'. w'.db ≡ d) (now env) w
  unfolding Settles machine
  now-Settles w same = inr (env.clock w.calls, refl, same)

  pub pure-Settles :
      {A : Type 0} (P : A → World → Type 0) (a : A) (w : World) → P a w → Settles d P (pure a) w
  unfolding Settles machine
  pure-Settles P a w p = inr (a, refl, p)

  -- A value with less said of it.
  pub map-Settles :
      {A : Type 0} (Q P : A → World → Type 0) (m : M A) (w : World)
      → Settles d Q m w
      → ((a : A) (w' : World) → Q a w' → P a w')
      → Settles d P m w
  unfolding Settles
  map-Settles Q P m w (inl failed) weaker = inl failed
  map-Settles Q P m w (inr (a, done, q)) weaker = inr (a, done, weaker a (m w).1 q)

pub recovered-Settles :
    {A : Type 0} (d : Db) (P : A → World → Type 0) (m : M A) (w : World)
    → Settles d P m w
    → Settles d P (recover m) w
unfolding Settles recover
recovered-Settles d P m w (inl (e, failed, same)) = inl (recovered e, ground arith, ground arith)
recovered-Settles d P m w (inr (a, done, p)) =
    let run : recover m w ≡ (ok a, (m w).1) = ground arith in
    inr (a, ap (λ x. x.0) run, subst (λ x. P a x.1) (sym run) p)
