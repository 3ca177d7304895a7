-- ===== src/Jobs/Machine/Sets.antt =====
-- The calls on Redis that only the workers' bookkeeping makes: sets, and keys that are deleted.
use alya.Prelude.{
  List, [], ◌∷◌, ◌++◌, some, none, String, Bool, true, false, not, str_eq, if◌then◌else◌, select,
  any_if,
}
use alya.Jobs.Machine.Defs.{Env, Redis, M, ◌>>◌, call, redis_error, Key, key_eq, ok}

abbrev pub put_members : Key → List String → Redis → Redis
put_members k xs r = record { get = r.get; members = λ j. if key_eq j k then xs else r.members j }

module _ (env : Env) where
  unfoldable pub smembers : Key → M (List String)
  smembers k = call env redis_error >> λ w. (ok (w.redis.members k), w)

  -- A member is added once.
  unfoldable pub sadd : Key → String → M (Unit {0})
  sadd k s = call env redis_error >> λ w. (
    ok tt,
    record w {
      redis =
          if any_if (str_eq s) (w.redis.members k)
          then w.redis
          else put_members k (w.redis.members k ++ s ∷ []) w.redis;
    },
  )

  unfoldable pub srem : Key → String → M (Unit {0})
  srem k s = call env redis_error >> λ w. (
    ok tt,
    record w { redis = put_members k (select (λ x. not (str_eq s x)) (w.redis.members k)) w.redis },
  )

  -- `EXISTS` on the key of a string.
  unfoldable pub key_exists : Key → M Bool
  key_exists k =
      call env redis_error >> λ w. (ok (elim (w.redis.get k) [ none ↦ false | some _ ↦ true ]), w)

  -- `DEL` removes a string or a set.
  unfoldable pub del : Key → M (Unit {0})
  del k = call env redis_error >> λ w. (
    ok tt,
    record w {
      redis = record {
        get = λ j. if key_eq j k then none else w.redis.get j;
        members = λ j. if key_eq j k then [] else w.redis.members j;
      };
    },
  )
