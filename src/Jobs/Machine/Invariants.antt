-- ===== src/Jobs/Machine/Invariants.antt =====
-- A property of the tables that every statement keeps holds after any function, whether its calls
-- fail or not: the rules that prove it from the code's shape.
use alya.Prelude.{
  ℕ, List, [], Option, some, none, Bool, true, false, String, ◌≡◌, refl, if◌then◌else◌,
}
use alya.Jobs.Db.{Db}
use alya.Jobs.Machine.Defs.{
  Env, World, M, Result, ok, err, Error, db_error, redis_nil, inserted, Key, ◌>>=◌, pure, throw,
  or_throw, guard, with_rollback, log_error, nil_on_error, call, begin, commit, rollback, exec,
  tx_exec, tx_query, tx_insert, query, now, redis_set, redis_get, machine,
}

-- The tables satisfy `P`, and so will they when the open transaction is committed.
pub record Holds (P : Db → Type 0) (w : World) : Type 0 where
  pub committed : P w.db
  pub uncommitted : (d : Db) → P d → P (w.pending d)

pub record Preserves {ℓ} (P : Db → Type 0) {A : Type ℓ} (m : M A) : Type 0 where
  pub after : (w : World) → Holds P w → Holds P (m w).1

module _ {ℓ κ} {P : Db → Type 0} {A : Type ℓ} {B : Type κ} where
  bind-Preserves :
      (f : A → M B) (r : Result A) (w : World)
      → Holds P w
      → ((a : A) → Preserves P (f a))
      → Holds P (elim r as (λ _. Result B × World) [ ok a ↦ f a w | err e ↦ (err e, w) ]).1
  bind-Preserves f (ok a) w p q = (q a).after w p
  bind-Preserves f (err e) w p q = p

  pub Preserves-bind :
      {m : M A} {f : A → M B}
      → Preserves P m
      → ((a : A) → Preserves P (f a))
      → Preserves P (m >>= f)
  unfolding machine
  Preserves-bind {m} {f} p q = record {
    after = λ w h. bind-Preserves f (m w).0 (m w).1 (p.after w h) q;
  }

module _ {ℓ} {P : Db → Type 0} {A : Type ℓ} where
  pub pure-Preserves : (a : A) → Preserves P (pure a)
  unfolding machine
  pure-Preserves a = record { after = λ w h. h }

  pub throw-Preserves : (x : Error) → Preserves P (throw {A = A} x)
  unfolding machine
  throw-Preserves x = record { after = λ w h. h }

  pub or_throw-Preserves : (o : Option A) (x : Error) → Preserves P (or_throw o x)
  unfolding machine
  or_throw-Preserves none x = record { after = λ w h. h }
  or_throw-Preserves (some a) x = record { after = λ w h. h }

  pub with_rollback-Preserves : {m : M A} → Preserves P m → Preserves P (with_rollback m)
  unfolding machine
  with_rollback-Preserves p = record {
    after = λ w h. record { committed = (p.after w h).committed; uncommitted = λ d x. x };
  }

  pub log_error-Preserves : {m : M A} → Preserves P m → Preserves P (log_error m)
  unfolding machine
  log_error-Preserves p = record { after = λ w h. p.after w h }

  pub if-Preserves :
      (b : Bool) {m n : M A} → Preserves P m → Preserves P n → Preserves P (if b then m else n)
  if-Preserves true p q = p
  if-Preserves false p q = q

  nil_preserves :
      (r : Result (List A)) (w : World)
      → Holds P w
      → Holds P
          (elim r as (λ _. Result (List A) × World) [ ok xs ↦ (ok xs, w) | err e ↦ (ok [], w) ]).1
  nil_preserves (ok xs) w p = p
  nil_preserves (err e) w p = p

  pub nil_on_error-Preserves : {m : M (List A)} → Preserves P m → Preserves P (nil_on_error m)
  unfolding machine
  nil_on_error-Preserves {m} p = record {
    after = λ w h. nil_preserves (m w).0 (m w).1 (p.after w h);
  }

module _ {P : Db → Type 0} where
  pub guard-Preserves : (b : Bool) (x : Error) → Preserves P (guard b x)
  unfolding machine
  guard-Preserves true x = record { after = λ w h. h }
  guard-Preserves false x = record { after = λ w h. h }

  -- A call leaves the tables and the transaction alone.
  call-Holds : (env : Env) (e : Error) (w : World) → Holds P w → Holds P (call env e w).1
  unfolding machine
  call-Holds env e w h = record { committed = h.committed; uncommitted = h.uncommitted }

  pub call-Preserves : (env : Env) (e : Error) → Preserves P (call env e)
  call-Preserves env e = record { after = call-Holds env e }

module _ {P : Db → Type 0} (env : Env) where
  pub now-Preserves : Preserves P (now env)
  unfolding machine
  now-Preserves = record { after = λ w h. h }

  pub query-Preserves {ℓ} : {A : Type ℓ} (f : Db → A) → Preserves P (query env f)
  unfolding query
  query-Preserves f = Preserves-bind (call-Preserves env _) λ _. record { after = λ w h. h }

  pub tx_query-Preserves {ℓ} : {A : Type ℓ} (f : Db → A) → Preserves P (tx_query env f)
  unfolding tx_query
  tx_query-Preserves f = Preserves-bind (call-Preserves env _) λ _. record { after = λ w h. h }

  pub begin-Preserves : Preserves P (begin env)
  unfolding begin
  begin-Preserves =
      Preserves-bind (call-Preserves env _)
        λ _. record { after = λ w h. record { committed = h.committed; uncommitted = λ d x. x } }

  commit_holds : (b : Bool) (w : World) → Holds P w → P (if b then w.db else w.pending w.db)
  commit_holds true w h = h.committed
  commit_holds false w h = h.uncommitted w.db h.committed

  pub commit-Preserves : Preserves P (commit env)
  unfolding commit
  commit-Preserves = record {
    after =
        λ w h. record { committed = commit_holds (env.fails w.calls) w h; uncommitted = λ d x. x };
  }

  pub rollback-Preserves : Preserves P rollback
  unfolding rollback
  rollback-Preserves = record {
    after = λ w h. record { committed = h.committed; uncommitted = λ d x. x };
  }

  pub exec-Preserves : (f : Db → Db) → ((d : Db) → P d → P (f d)) → Preserves P (exec env f)
  unfolding exec
  exec-Preserves f k = Preserves-bind (call-Preserves env _) λ _. record {
    after = λ w h. record { committed = k w.db h.committed; uncommitted = h.uncommitted };
  }

  pub tx_exec-Preserves : (f : Db → Db) → ((d : Db) → P d → P (f d)) → Preserves P (tx_exec env f)
  unfolding tx_exec
  tx_exec-Preserves f k = Preserves-bind (call-Preserves env _) λ _. record {
    after = λ w h. record {
      committed = h.committed;
      uncommitted = λ d x. k (w.pending d) (h.uncommitted d x);
    };
  }

  insert_holds :
      (f : Db → Option Db) (d : Db)
      → ((d' : Db) → f d ≡ some d' → P d → P d')
      → P d
      → P (inserted f d)
  insert_holds f d k p = go (f d) refl
    where
      go : (o : Option Db) → f d ≡ o → P (elim o [ none ↦ d | some e ↦ e ])
      go none e = p
      go (some d') e = k d' e p

  insert_result :
      (f : Db → Option Db) (o : Option Db) (w : World)
      → Holds P w
      → ((d d' : Db) → f d ≡ some d' → P d → P d')
      → Holds P
          (elim o as (λ _. Result (Unit {0}) × World) [
            | none ↦ (err db_error, w)
            | some d' ↦ (ok tt, record w { pending = λ d. inserted f (w.pending d) })
          ]).1
  insert_result f none w h k = h
  insert_result f (some d') w h k = record {
    committed = h.committed;
    uncommitted = λ d x. insert_holds f (w.pending d) (k (w.pending d)) (h.uncommitted d x);
  }

  pub tx_insert-Preserves :
      (f : Db → Option Db)
      → ((d d' : Db) → f d ≡ some d' → P d → P d')
      → Preserves P (tx_insert env f)
  unfolding tx_insert
  tx_insert-Preserves f k =
      Preserves-bind (call-Preserves env _)
        λ _. record { after = λ w h. insert_result f (f (w.pending w.db)) w h k }

  pub redis_set-Preserves : (k : Key) (v : String) (ttl : ℕ) → Preserves P (redis_set env k v ttl)
  unfolding redis_set
  redis_set-Preserves k v ttl =
      Preserves-bind (call-Preserves env _) λ _. record {
        after = λ w h. record { committed = h.committed; uncommitted = h.uncommitted };
      }

  get-Holds :
      (o : Option (String × ℕ)) (w : World)
      → Holds P w
      → Holds P
          (elim o as (λ _. Result String × World) [
            | none ↦ (err redis_nil, w)
            | some e ↦ (ok (e.0), w)
          ]).1
  get-Holds none w h = h
  get-Holds (some e) w h = h

  pub redis_get-Preserves : (k : Key) → Preserves P (redis_get env k)
  unfolding redis_get
  redis_get-Preserves k =
      Preserves-bind (call-Preserves env _)
        λ _. record { after = λ w h. get-Holds (w.redis.get k) w h }

-- The rules that leave nothing to show of the statements but what the writes do.
pub ruleset preserves_rules = (
  Preserves-bind, pure-Preserves, throw-Preserves, or_throw-Preserves, with_rollback-Preserves,
  log_error-Preserves, if-Preserves, nil_on_error-Preserves, guard-Preserves, now-Preserves,
  query-Preserves, tx_query-Preserves, begin-Preserves, commit-Preserves, rollback-Preserves,
  exec-Preserves, tx_exec-Preserves, tx_insert-Preserves, redis_set-Preserves, redis_get-Preserves,
)
