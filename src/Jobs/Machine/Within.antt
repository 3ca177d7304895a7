-- ===== src/Jobs/Machine/Within.antt =====
-- A function of the service moves from world to world within a relation that every call respects.
use alya.Prelude.{ℕ, Option, some, none, Bool, true, false, String, ◌≡◌, ◌∙◌, refl, if◌then◌else◌}
use alya.Jobs.Db.{Db}
use alya.Jobs.Machine.Defs.{
  Env, World, M, Result, ok, err, Error, Key, ◌>>=◌, pure, throw, or_throw, guard, log_error, call,
  tx_exec, tx_query, query, now, redis_set, machine,
}

-- The tables and the open transactions stay as they are.
pub record Stays {ℓ} {A : Type ℓ} (m : M A) : Type 0 where
  pub same_db : (w : World) → (m w).1.db ≡ w.db
  pub same_open : (w : World) → (m w).1.open_txs ≡ w.open_txs

abbrev Alike : World → World → Type 0
Alike w w' = (w'.db ≡ w.db) × (w'.open_txs ≡ w.open_txs)

pub both {ℓ} : {A : Type ℓ} {m : M A} → Stays m → (w : World) → Alike w (m w).1
both s w = (s.same_db w, s.same_open w)

pub Stays-of {ℓ} : {A : Type ℓ} {m : M A} → ((w : World) → Alike w (m w).1) → Stays m
Stays-of k = record { same_db = λ w. (k w).0; same_open = λ w. (k w).1 }

module _ {ℓ κ} {A : Type ℓ} {B : Type κ} where
  bind-Alike :
      (f : A → M B) (r : Result A) (w w' : World)
      → Alike w w'
      → ((a : A) → Stays (f a))
      → Alike w (elim r as (λ _. Result B × World) [ ok a ↦ f a w' | err e ↦ (err e, w') ]).1
  bind-Alike f (ok a) w w' p q = ((q a).same_db w' ∙ p.0, (q a).same_open w' ∙ p.1)
  bind-Alike f (err e) w w' p q = p

  pub Stays-bind : {m : M A} {f : A → M B} → Stays m → ((a : A) → Stays (f a)) → Stays (m >>= f)
  unfolding machine
  Stays-bind {m} {f} p q = Stays-of (λ w. bind-Alike f (m w).0 w (m w).1 (both p w) q)

module _ {ℓ} {A : Type ℓ} where
  pub pure-Stays : (a : A) → Stays (pure a)
  unfolding machine
  pure-Stays a = Stays-of (λ w. (refl, refl))

  pub throw-Stays : (x : Error) → Stays (throw {A = A} x)
  unfolding machine
  throw-Stays x = Stays-of (λ w. (refl, refl))

  pub or_throw-Stays : (o : Option A) (x : Error) → Stays (or_throw o x)
  unfolding machine
  or_throw-Stays none x = Stays-of (λ w. (refl, refl))
  or_throw-Stays (some a) x = Stays-of (λ w. (refl, refl))

  pub log_error-Stays : {m : M A} → Stays m → Stays (log_error m)
  unfolding machine
  log_error-Stays p = Stays-of (both p)

  pub if-Stays : (b : Bool) {m n : M A} → Stays m → Stays n → Stays (if b then m else n)
  if-Stays true p q = p
  if-Stays false p q = q

pub guard-Stays : (b : Bool) (x : Error) → Stays (guard b x)
unfolding machine
guard-Stays true x = Stays-of (λ w. (refl, refl))
guard-Stays false x = Stays-of (λ w. (refl, refl))

module _ (env : Env) where
  pub call-Stays : (e : Error) → Stays (call env e)
  unfolding machine
  call-Stays e = Stays-of (λ w. (refl, refl))

  pub now-Stays : Stays (now env)
  unfolding machine
  now-Stays = Stays-of (λ w. (refl, refl))

  pub tx_query-Stays {ℓ} : {A : Type ℓ} (f : Db → A) → Stays (tx_query env f)
  unfolding tx_query
  tx_query-Stays f = Stays-bind (call-Stays _) λ _. Stays-of (λ w. (refl, refl))

  pub query-Stays {ℓ} : {A : Type ℓ} (f : Db → A) → Stays (query env f)
  unfolding query
  query-Stays f = Stays-bind (call-Stays _) λ _. Stays-of (λ w. (refl, refl))

  pub tx_exec-Stays : (f : Db → Db) → Stays (tx_exec env f)
  unfolding tx_exec
  tx_exec-Stays f = Stays-bind (call-Stays _) λ _. Stays-of (λ w. (refl, refl))

  pub redis_set-Stays : (k : Key) (v : String) (ttl : ℕ) → Stays (redis_set env k v ttl)
  unfolding redis_set
  redis_set-Stays k v ttl = Stays-bind (call-Stays _) λ _. Stays-of (λ w. (refl, refl))

pub ruleset stays_rules = (
  Stays-bind, pure-Stays, throw-Stays, or_throw-Stays, log_error-Stays, if-Stays, guard-Stays,
  call-Stays, now-Stays, tx_query-Stays, query-Stays, tx_exec-Stays, redis_set-Stays,
)
