-- ===== src/Jobs/Recovery/Tests.antt =====
-- The recovery of a dead worker's rows at concrete tables.
use alya.Prelude.{[], ◌∷◌, some, none, refl, if◌then◌else◌}
use alya.Jobs.Status.{inprog}
use alya.Jobs.Machine.{World, Redis, rows_key, heartbeat_key, registry_key, key_eq}
use alya.Jobs.Fixture.{a_world, tables, an_env}
use alya.Jobs.Recovery.{recover_abandoned_rows}
use alya.Jobs.Recovery.Resets.{OnlyRequeues, recover_abandoned_rows-OnlyRequeues}

-- The worker `dead` was processing row 2, and the worker `live` has a heartbeat.
abbrev two_workers : Redis
two_workers = record {
  get = λ k. if key_eq k (heartbeat_key "live") then some ("alive", 60) else none;
  members = λ k.
      if key_eq k registry_key
      then "dead" ∷ "live" ∷ []
      else if key_eq k (rows_key "dead")
      then "2" ∷ []
      else [];
}

abbrev workers : World
workers = record (a_world (tables inprog inprog)) { redis = two_workers }

recover_abandoned_rows-OnlyRequeues_example :
    OnlyRequeues (tables inprog inprog) (recover_abandoned_rows an_env "live" workers).1.db
recover_abandoned_rows-OnlyRequeues_example =
    recover_abandoned_rows-OnlyRequeues an_env "live" workers (λ d. refl)
