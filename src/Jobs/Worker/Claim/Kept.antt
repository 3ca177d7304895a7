-- ===== src/Jobs/Worker/Claim/Kept.antt =====
-- What the statements keep, the claim of a block keeps.
use alya.Prelude.{ℕ, List, Bool, refl}
use alya.Jobs.Db.{Db}
use alya.Jobs.Tables.Closed.{Closed}
use alya.Jobs.Machine.{Env, Inert, Preserves, Preserves-of_Inert, preserves_rules}
use alya.Jobs.Worker.Claim.{check_context, mark_batches, claim_block}

module _ {P : Db → Type 0} (c : Closed P) (env : Env) (ctx_done locked : ℕ → Bool) where
  check_context-Inert : Inert (check_context env ctx_done locked)
  unfolding check_context
  check_context-Inert = record { same = λ w. (refl, refl, refl) }

  mark_batches-Preserves : (ids : List ℕ) → Preserves P (mark_batches env ctx_done locked ids)
  unfolding mark_batches
  mark_batches-Preserves ids =
      search (preserves_rules, c.growing.update_batches-keeps, env) depth 40

  pub claim_block-Preserves : (n : ℕ) → Preserves P (claim_block env ctx_done locked n)
  unfolding claim_block
  claim_block-Preserves n =
      search
        (
          preserves_rules, c.update_batchrows-keeps, check_context-Inert, Preserves-of_Inert,
          mark_batches-Preserves, env,
        )
        depth 40
