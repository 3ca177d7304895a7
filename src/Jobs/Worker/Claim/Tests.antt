-- ===== src/Jobs/Worker/Claim/Tests.antt =====
-- The claim of a block at concrete tables.
use alya.Prelude.{◌≤◌, List, [], ◌∷◌, false, true, ◌≡◌, refl, All, length}
use alya.Prelude.Int.{pos}
use alya.Jobs.Status.{queued, inprog}
use alya.Jobs.Queries.{FetchBlockOfRowsRow, join_rows, row_in}
use alya.Jobs.Machine.{machine}
use alya.Jobs.Fixture.{a_world, tables, tables-IsValid, an_env}
use alya.Jobs.Worker.Claim.{claim_block, check_context, mark_batches, row_ids}
use alya.Jobs.Worker.Claim.Claimed.{is_claimable, claim_block_ok}

abbrev claimed : List FetchBlockOfRowsRow
claimed =
    record {
      app = "crm";
      status = queued;
      op = "load";
      context = "{}";
      batch = 7;
      rowid = 2;
      line = pos 2;
      input = "{}";
    }
    ∷ []

claim_block_ok_example :
    let w = a_world (tables queued queued) in
    let d = (claim_block an_env (λ n. false) (λ n. false) 10 w).1.db in
    (length claimed ≤ 10)
    × (d.batchrows ≡ (tables inprog inprog).batchrows)
    × All
        (λ r. row_in (row_ids claimed) r ≡ true → is_claimable (λ n. false) w.db.batches r ≡ true)
        w.db.batchrows
    × (d.batches ≡ (tables inprog inprog).batches)
unfolding claim_block check_context mark_batches join_rows machine
claim_block_ok_example =
    claim_block_ok an_env (λ n. false) (λ n. false) 10 (a_world (tables queued queued)) claimed
      (tables-IsValid queued queued) refl
