-- ===== src/Jobs/Machine/Defs.antt =====
-- How the service's functions run. A call of Postgres or Redis can fail; what is under a
-- transaction is kept apart until the commit. `Env` holds what the service takes from outside: the
-- calls that fail, the clock, fresh UUIDs, and the text functions of the standard library.
use alya.Prelude.{
  ℕ, ◌+◌, ◌-◌, Bool, true, false, Option, none, some, String, List, [], if◌then◌else◌, str_eq,
}
use alya.Jobs.Db.{Db}
use alya.Prelude.Int.{ℤ}
use alya.Jobs.Types.{
  JsonStr, JobResult, Outcome, Files, BatchSummary, BatchDetails, Blob, ErrorMessage,
}

-- What a function returns as its error. The text of a message is not kept.
pub data Error : Type 0 where
  db_error redis_error redis_nil no_rows invalid_id not_wait invalid_line no_pending_rows : Error
  io_error lock_not_acquired has_pending_rows bad_json final_status no_initializer init_failed :
      Error
  already_registered initializer_already_registered : Error
  processor_not_found invalid_processor_type cancelled processing panicked : Error

pub data Result {ℓ} (A : Type ℓ) : Type ℓ where
  ok : A → Result A
  err : Error → Result A

-- A key of Redis, by the function of jobs/rediskeys.go that writes it.
pub data Key : Type 0 where
  status_key result_key output_files_key summary_key heartbeat_key rows_key : String → Key
  registry_key : Key

-- Redis strings, each with its time to live in seconds, and Redis sets.
pub record Redis : Type 0 where
  pub get : Key → Option (String × ℕ)
  pub members : Key → List String

abbrev pub key_eq : Key → Key → Bool
key_eq (status_key s) (status_key t) = str_eq s t
key_eq (result_key s) (result_key t) = str_eq s t
key_eq (output_files_key s) (output_files_key t) = str_eq s t
key_eq (summary_key s) (summary_key t) = str_eq s t
key_eq (heartbeat_key s) (heartbeat_key t) = str_eq s t
key_eq (rows_key s) (rows_key t) = str_eq s t
key_eq registry_key registry_key = true
key_eq _ _ = false

-- `pending` is what the open transaction has written, and `open_txs` the number of transactions
-- begun and neither committed nor rolled back. `objects` is the object store, `blocks` the apps
-- with an init block, `marked` the details that `MarkDone` was given, the last one first, and
-- `calls` the number of calls made so far.
pub record World : Type 0 where
  pub db : Db
  pub pending : Db → Db
  pub open_txs : ℕ
  pub redis : Redis
  pub objects : Files
  pub blocks : List String
  pub marked : List BatchDetails
  pub calls : ℕ

-- A function of a number takes the number of calls made before.
pub record Env : Type 0 where
  pub fails : ℕ → Bool
  pub clock : ℕ → ℕ
  pub fresh_uuid : ℕ → ℕ
  pub parse_uuid : String → Option ℕ
  pub uuid_string : ℕ → String
  pub to_lower : String → String
  pub is_json : String → Bool
  pub fits_struct : String → Bool  -- JSON that a struct without public fields can be read from
  pub marshal_files : Files → Option String
  pub unmarshal_files : String → Option Files
  pub marshal_summary : BatchSummary → Option String
  pub unmarshal_summary : String → Option BatchSummary
  pub marshal_messages : List ErrorMessage → Option String
  pub unmarshal_blobs : String → Option (List (String × Blob))
  pub trim_space : String → String
  pub lock_granted : ℕ → Bool
  pub object_name : ℕ → String
  pub has_initializer : String → Bool
  pub init_ok : ℕ → Bool
  pub has_batch_processor : String → Bool
  pub has_slow_query_processor : String → Bool
  -- The error that a batch job returns is only logged; `none` is a panic.
  pub do_batch_job : String → JsonStr → ℤ → JsonStr → ℕ → Option JobResult
  pub do_slow_query : String → JsonStr → JsonStr → ℕ → Outcome
  pub mark_done_panics : ℕ → Bool
  pub close_panics : ℕ → Bool  -- `Close` of some init block
  pub format_int64 : ℕ → String
  pub parse_int64 : String → Option ℕ  -- on the texts of row ids
  pub cache_dur_sec : ℕ  -- `BatchStatusCacheDurSec` of the configuration

abbrev pub M {ℓ} : Type ℓ → Type ℓ
M A = World → Result A × World

infixl 5 ◌>>=◌ ◌>>◌
unfoldable pub ◌>>=◌ {ℓ κ} : {A : Type ℓ} {B : Type κ} → M A → (A → M B) → M B
◌>>=◌ m f w = let (r, w') = m w in elim r [ ok a ↦ f a w' | err e ↦ (err e, w') ]

abbrev pub ◌>>◌ {κ} : {B : Type κ} → M (Unit {0}) → M B → M B
m >> k = m >>= λ _. k

module _ {ℓ} {A : Type ℓ} where
  unfoldable pub pure : A → M A
  pure a w = (ok a, w)

  unfoldable pub throw : Error → M A
  throw e w = (err e, w)

  unfoldable pub or_throw : Option A → Error → M A
  or_throw (some a) e = pure a
  or_throw none e = throw e

  -- A deferred rollback: what was written and not committed is dropped on every way out.
  unfoldable pub with_rollback : M A → M A
  with_rollback m w =
      let (r, w') = m w in (r, record w' { pending = λ d. d; open_txs = w.open_txs })

  -- The error of a cache write is logged, and the function goes on.
  unfoldable pub log_error : M A → M (Unit {0})
  log_error m w = let (r, w') = m w in (ok tt, w')

-- A failed read that leaves its result empty.
unfoldable pub nil_on_error {ℓ} : {A : Type ℓ} → M (List A) → M (List A)
nil_on_error m w = let (r, w') = m w in elim r [ ok xs ↦ (ok xs, w') | err e ↦ (ok [], w') ]

unfoldable pub guard : Bool → Error → M (Unit {0})
guard b e = if b then pure tt else throw e

unfoldable pub rollback : M (Unit {0})
rollback w = (ok tt, record w { pending = λ d. d; open_txs = w.open_txs - 1 })

abbrev pub inserted : (Db → Option Db) → Db → Db
inserted f d = elim (f d) [ none ↦ d | some e ↦ e ]

module _ (env : Env) where
  -- One call of a server: it may fail.
  unfoldable pub call : Error → M (Unit {0})
  call e w = (if env.fails w.calls then err e else ok tt, record w { calls = w.calls + 1 })

  -- A statement on the pool: it takes effect at once.
  unfoldable pub exec : (Db → Db) → M (Unit {0})
  exec f = call db_error >> λ w. (ok tt, record w { db = f w.db })

  unfoldable pub query {ℓ} : {A : Type ℓ} → (Db → A) → M A
  query f = call db_error >> λ w. (ok (f w.db), w)

  -- A statement on the transaction: it sees and extends what the transaction has written.
  unfoldable pub tx_exec : (Db → Db) → M (Unit {0})
  tx_exec f = call db_error >> λ w. (ok tt, record w { pending = λ d. f (w.pending d) })

  -- An insert that a key of the table may refuse: the transaction then goes no further.
  unfoldable pub tx_insert : (Db → Option Db) → M (Unit {0})
  tx_insert f = call db_error >> λ w. elim (f (w.pending w.db)) [
    | none ↦ (err db_error, w)
    | some d' ↦ (ok tt, record w { pending = λ d. inserted f (w.pending d) })
  ]

  unfoldable pub tx_query {ℓ} : {A : Type ℓ} → (Db → A) → M A
  tx_query f = call db_error >> λ w. (ok (f (w.pending w.db)), w)

  unfoldable pub begin : M (Unit {0})
  begin = call db_error >> λ w. (ok tt, record w { pending = λ d. d; open_txs = w.open_txs + 1 })

  -- A transaction is closed by its commit, also by one that fails.
  unfoldable pub commit : M (Unit {0})
  commit w = (
    if env.fails w.calls then err db_error else ok tt,
    record w {
      db = if env.fails w.calls then w.db else w.pending w.db;
      pending = λ d. d;
      open_txs = w.open_txs - 1;
      calls = w.calls + 1;
    },
  )

  unfoldable pub now : M ℕ
  now w = (ok (env.clock w.calls), w)

  unfoldable pub redis_set : Key → String → ℕ → M (Unit {0})
  redis_set k v ttl = call redis_error >> λ w. (
    ok tt,
    record w {
      redis = record {
        get = λ j. if key_eq j k then some (v, ttl) else w.redis.get j;
        members = w.redis.members;
      };
    },
  )

  -- `Get(…).Result()`: `redis.Nil` where the key is absent.
  unfoldable pub redis_get : Key → M String
  redis_get k = call redis_error >> λ w. elim (w.redis.get k) [
    | none ↦ (err redis_nil, w)
    | some e ↦ (ok (e.0), w)
  ]

-- Named on an `unfolding` line, it opens all of the above.
unfoldable pub machine : Unit {0}
unfolding ◌>>=◌ pure throw or_throw with_rollback log_error nil_on_error guard call exec query
    tx_exec tx_insert tx_query begin commit rollback now redis_set redis_get
machine = tt
