-- ===== src/Jobs/Machine/Effects.antt =====
-- Rules for two properties of a function of the service: that it leaves the committed tables alone,
-- and that it leaves them alone when it fails.
use alya.Prelude.{
  ℕ, List, [], Option, some, none, Bool, true, false, String, ◌≡◌, refl, ◌∙◌, arith, if◌then◌else◌,
}
use alya.Jobs.Db.{Db}
use alya.Jobs.Machine.Defs.{
  Env, World, M, Result, ok, err, Error, Key, ◌>>=◌, pure, throw, or_throw, guard, with_rollback,
  log_error, nil_on_error, begin, commit, tx_exec, tx_query, tx_insert, query, now, redis_set,
  redis_get, machine,
}

pub record Keeps {ℓ} {A : Type ℓ} (m : M A) : Type 0 where
  pub kept : (w : World) → (m w).1.db ≡ w.db

pub record Atomic {ℓ} {A : Type ℓ} (m : M A) : Type ℓ where
  pub undone : (w : World) (e : Error) → (m w).0 ≡ err e → (m w).1.db ≡ w.db

-- `m` returns a value whatever the calls do.
pub record Total {ℓ} {A : Type ℓ} (m : M A) : Type ℓ where
  pub returns : (w : World) (e : Error) → (m w).0 ≡ err e → ⊥

module _ {ℓ κ} {A : Type ℓ} {B : Type κ} where
  bind-Keeps :
      (d : Db) (f : A → M B) (r : Result A) (w : World)
      → w.db ≡ d
      → ((a : A) → Keeps (f a))
      → (elim r as (λ _. Result B × World) [ ok a ↦ f a w | err e ↦ (err e, w) ]).1.db ≡ d
  bind-Keeps d f (ok a) w p q = (q a).kept w ∙ p
  bind-Keeps d f (err e) w p q = p

  bind-Atomic :
      (d : Db) (f : A → M B) (r : Result A) (w : World) (e : Error)
      → w.db ≡ d
      → ((a : A) → Atomic (f a))
      → (elim r as (λ _. Result B × World) [ ok a ↦ f a w | err e ↦ (err e, w) ]).0 ≡ err e
      → (elim r as (λ _. Result B × World) [ ok a ↦ f a w | err e ↦ (err e, w) ]).1.db ≡ d
  bind-Atomic d f (ok a) w e p q h = (q a).undone w e h ∙ p
  bind-Atomic d f (err x) w e p q h = p

  bind-Total :
      (d : Db) (f : A → M B) (r : Result A) (w : World) (e : Error)
      → ((x : Error) → r ≡ err x → w.db ≡ d)
      → ((a : A) → Total (f a))
      → (elim r as (λ _. Result B × World) [ ok a ↦ f a w | err e ↦ (err e, w) ]).0 ≡ err e
      → (elim r as (λ _. Result B × World) [ ok a ↦ f a w | err e ↦ (err e, w) ]).1.db ≡ d
  bind-Total d f (ok a) w e p q h = absurd ((q a).returns w e h)
  bind-Total d f (err x) w e p q h = p x refl

  pub Keeps-bind : {m : M A} {f : A → M B} → Keeps m → ((a : A) → Keeps (f a)) → Keeps (m >>= f)
  unfolding machine
  Keeps-bind {m} {f} p q = record { kept = λ w. bind-Keeps w.db f (m w).0 (m w).1 (p.kept w) q }

  -- What stands before the commit keeps the tables.
  pub Atomic-bind : {m : M A} {f : A → M B} → Keeps m → ((a : A) → Atomic (f a)) → Atomic (m >>= f)
  unfolding machine
  Atomic-bind {m} {f} p q = record {
    undone = λ w e h. bind-Atomic w.db f (m w).0 (m w).1 e (p.kept w) q h;
  }

  -- What stands after the commit does not fail.
  pub Atomic-bind-Total :
      {m : M A} {f : A → M B} → Atomic m → ((a : A) → Total (f a)) → Atomic (m >>= f)
  unfolding machine
  Atomic-bind-Total {m} {f} p q = record {
    undone = λ w e h. bind-Total w.db f (m w).0 (m w).1 e (p.undone w) q h;
  }

  bind-returns :
      (f : A → M B) (r : Result A) (w : World) (e : Error)
      → ((x : Error) → r ≡ err x → ⊥)
      → ((a : A) → Total (f a))
      → (elim r as (λ _. Result B × World) [ ok a ↦ f a w | err e ↦ (err e, w) ]).0 ≡ err e
      → ⊥
  bind-returns f (ok a) w e p q h = (q a).returns w e h
  bind-returns f (err x) w e p q h = p x refl

  pub Total-bind : {m : M A} {f : A → M B} → Total m → ((a : A) → Total (f a)) → Total (m >>= f)
  unfolding machine
  Total-bind {m} {f} p q = record {
    returns = λ w e h. bind-returns f (m w).0 (m w).1 e (p.returns w) q h;
  }

module _ {ℓ} {A : Type ℓ} where
  pub pure-Keeps : (a : A) → Keeps (pure a)
  unfolding machine
  pure-Keeps a = record { kept = λ w. refl }

  pub pure-Total : (a : A) → Total (pure a)
  unfolding machine
  pure-Total a = record { returns = λ w e h. cc }

  pub throw-Keeps : (x : Error) → Keeps (throw {A = A} x)
  unfolding machine
  throw-Keeps x = record { kept = λ w. refl }

  pub or_throw-Keeps : (o : Option A) (x : Error) → Keeps (or_throw o x)
  unfolding machine
  or_throw-Keeps none x = record { kept = λ w. refl }
  or_throw-Keeps (some a) x = record { kept = λ w. refl }

  pub Atomic-of_Keeps : {m : M A} → Keeps m → Atomic m
  unfolding machine
  Atomic-of_Keeps p = record { undone = λ w e h. p.kept w }

  pub with_rollback-Atomic : {m : M A} → Atomic m → Atomic (with_rollback m)
  unfolding machine
  with_rollback-Atomic p = record { undone = λ w e h. p.undone w e h }

  pub with_rollback-Keeps : {m : M A} → Keeps m → Keeps (with_rollback m)
  unfolding machine
  with_rollback-Keeps p = record { kept = λ w. p.kept w }

  pub log_error-Keeps : {m : M A} → Keeps m → Keeps (log_error m)
  unfolding machine
  log_error-Keeps p = record { kept = λ w. p.kept w }

  pub log_error-Total : (m : M A) → Total (log_error m)
  unfolding machine
  log_error-Total m = record { returns = λ w e h. cc }

  pub if-Atomic : (b : Bool) {m n : M A} → Atomic m → Atomic n → Atomic (if b then m else n)
  unfolding machine
  if-Atomic true p q = p
  if-Atomic false p q = q

  pub if-Keeps : (b : Bool) {m n : M A} → Keeps m → Keeps n → Keeps (if b then m else n)
  unfolding machine
  if-Keeps true p q = p
  if-Keeps false p q = q

  nil_keeps :
      (d : Db) (r : Result (List A)) (w : World)
      → w.db ≡ d
      → (elim r as (λ _. Result (List A) × World) [ ok xs ↦ (ok xs, w) | err e ↦ (ok [], w) ]).1.db
        ≡ d
  nil_keeps d (ok xs) w p = p
  nil_keeps d (err e) w p = p

  pub nil_on_error-Keeps : {m : M (List A)} → Keeps m → Keeps (nil_on_error m)
  unfolding machine
  nil_on_error-Keeps {m} p = record { kept = λ w. nil_keeps w.db (m w).0 (m w).1 (p.kept w) }

pub guard-Keeps : (b : Bool) (x : Error) → Keeps (guard b x)
unfolding machine
guard-Keeps true x = record { kept = λ w. refl }
guard-Keeps false x = record { kept = λ w. refl }

module _ (env : Env) where
  pub begin-Keeps : Keeps (begin env)
  unfolding machine
  begin-Keeps = record { kept = λ w. ground arith }

  pub now-Keeps : Keeps (now env)
  unfolding machine
  now-Keeps = record { kept = λ w. refl }

  pub query-Keeps {ℓ} : {A : Type ℓ} (f : Db → A) → Keeps (query env f)
  unfolding machine
  query-Keeps f = record { kept = λ w. ground arith }

  pub tx_query-Keeps {ℓ} : {A : Type ℓ} (f : Db → A) → Keeps (tx_query env f)
  unfolding machine
  tx_query-Keeps f = record { kept = λ w. ground arith }

  pub tx_exec-Keeps : (f : Db → Db) → Keeps (tx_exec env f)
  unfolding machine
  tx_exec-Keeps f = record { kept = λ w. ground arith }

  pub tx_insert-Keeps : (f : Db → Option Db) → Keeps (tx_insert env f)
  unfolding machine
  tx_insert-Keeps f = record { kept = λ w. ground arith }

  pub redis_set-Keeps : (k : Key) (v : String) (ttl : ℕ) → Keeps (redis_set env k v ttl)
  unfolding machine
  redis_set-Keeps k v ttl = record { kept = λ w. ground arith }

  pub redis_get-Keeps : (k : Key) → Keeps (redis_get env k)
  unfolding machine
  redis_get-Keeps k = record { kept = λ w. ground arith }

  pub commit-Atomic : Atomic (commit env)
  unfolding machine
  commit-Atomic = record { undone = λ w e h. ground arith }

-- `search` proves that a function is atomic by these.
pub ruleset keeps_rules = (
  Keeps-bind, pure-Keeps, throw-Keeps, or_throw-Keeps, with_rollback-Keeps, log_error-Keeps,
  if-Keeps, nil_on_error-Keeps, guard-Keeps, begin-Keeps, now-Keeps, query-Keeps, tx_query-Keeps,
  tx_exec-Keeps, tx_insert-Keeps, redis_set-Keeps, redis_get-Keeps,
)

pub ruleset atomic_rules = (
  Atomic-bind, Atomic-bind-Total, Atomic-of_Keeps, with_rollback-Atomic, if-Atomic, commit-Atomic,
  pure-Total, log_error-Total, Total-bind, keeps_rules,
)
