-- ===== src/Jobs/Machine/Untouched.antt =====
-- A function that leaves the tables, the open transaction and the number of transactions alone: it
-- then keeps any property of them.
use alya.Prelude.{
  ℕ, Option, some, none, Bool, true, false, String, ◌≡◌, refl, sym, ◌∙◌, arith, if◌then◌else◌,
}
use mathlib.Core.Path.{subst}
use alya.Jobs.Db.{Db}
use alya.Jobs.Machine.Defs.{
  Env, World, M, Result, ok, err, Error, Key, ◌>>=◌, pure, throw, or_throw, guard, log_error, call,
  now, query, tx_query, redis_set, redis_get, machine,
}
use alya.Jobs.Machine.Invariants.{Preserves}
use alya.Jobs.Machine.Within.{Stays, Stays-of}

abbrev Same : World → World → Type 0
Same w w' = (w'.db ≡ w.db) × (w'.pending ≡ w.pending) × (w'.open_txs ≡ w.open_txs)

pub record Inert {ℓ} {A : Type ℓ} (m : M A) : Type 0 where
  pub same : (w : World) → Same w (m w).1

module _ {ℓ κ} {A : Type ℓ} {B : Type κ} where
  bind-Same :
      (f : A → M B) (r : Result A) (w w' : World)
      → Same w w'
      → ((a : A) → Inert (f a))
      → Same w (elim r as (λ _. Result B × World) [ ok a ↦ f a w' | err e ↦ (err e, w') ]).1
  bind-Same f (ok a) w w' p q = let s = (q a).same w' in (s.0 ∙ p.0, s.1 ∙ p.1, s.2 ∙ p.2)
  bind-Same f (err e) w w' p q = p

  pub Inert-bind : {m : M A} {f : A → M B} → Inert m → ((a : A) → Inert (f a)) → Inert (m >>= f)
  unfolding machine
  Inert-bind {m} {f} p q = record { same = λ w. bind-Same f (m w).0 w (m w).1 (p.same w) q }

module _ {ℓ} {A : Type ℓ} where
  pub pure-Inert : (a : A) → Inert (pure a)
  unfolding machine
  pure-Inert a = record { same = λ w. (refl, refl, refl) }

  pub throw-Inert : (x : Error) → Inert (throw {A = A} x)
  unfolding machine
  throw-Inert x = record { same = λ w. (refl, refl, refl) }

  pub or_throw-Inert : (o : Option A) (x : Error) → Inert (or_throw o x)
  unfolding machine
  or_throw-Inert none x = record { same = λ w. (refl, refl, refl) }
  or_throw-Inert (some a) x = record { same = λ w. (refl, refl, refl) }

  pub log_error-Inert : {m : M A} → Inert m → Inert (log_error m)
  unfolding machine
  log_error-Inert p = record { same = λ w. p.same w }

  pub if-Inert : (b : Bool) {m n : M A} → Inert m → Inert n → Inert (if b then m else n)
  if-Inert true p q = p
  if-Inert false p q = q

  pub Stays-of_Inert : {m : M A} → Inert m → Stays m
  Stays-of_Inert p = Stays-of (λ w. ((p.same w).0, (p.same w).2))

  pub Preserves-of_Inert : {P : Db → Type 0} {m : M A} → Inert m → Preserves P m
  Preserves-of_Inert {P} p = record {
    after = λ w h. record {
      committed = subst P (sym (p.same w).0) h.committed;
      uncommitted = λ d x. subst (λ f. P (f d)) (sym (p.same w).1) (h.uncommitted d x);
    };
  }

pub guard-Inert : (b : Bool) (x : Error) → Inert (guard b x)
unfolding machine
guard-Inert true x = record { same = λ w. (refl, refl, refl) }
guard-Inert false x = record { same = λ w. (refl, refl, refl) }

module _ (env : Env) where
  pub call-Inert : (e : Error) → Inert (call env e)
  unfolding machine
  call-Inert e = record { same = λ w. (refl, refl, refl) }

  pub redis_set-Inert : (k : Key) (v : String) (ttl : ℕ) → Inert (redis_set env k v ttl)
  unfolding redis_set
  redis_set-Inert k v ttl = Inert-bind (call-Inert _) λ _. record { same = λ w. (refl, refl, refl) }

  pub redis_get-Inert : (k : Key) → Inert (redis_get env k)
  unfolding redis_get
  redis_get-Inert k = Inert-bind (call-Inert _) λ _. record { same = λ w. ground arith }

  pub now-Inert : Inert (now env)
  unfolding machine
  now-Inert = record { same = λ w. (refl, refl, refl) }

  pub query-Inert {ℓ} : {A : Type ℓ} (f : Db → A) → Inert (query env f)
  unfolding query
  query-Inert f = Inert-bind (call-Inert _) λ _. record { same = λ w. (refl, refl, refl) }

  pub tx_query-Inert {ℓ} : {A : Type ℓ} (f : Db → A) → Inert (tx_query env f)
  unfolding tx_query
  tx_query-Inert f = Inert-bind (call-Inert _) λ _. record { same = λ w. (refl, refl, refl) }

pub ruleset inert_rules = (
  Inert-bind, pure-Inert, throw-Inert, or_throw-Inert, log_error-Inert, if-Inert, guard-Inert,
  call-Inert, redis_set-Inert, redis_get-Inert, now-Inert, query-Inert, tx_query-Inert,
)
