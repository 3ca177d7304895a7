-- ===== src/DiGen/Gen/Written.antt =====
-- What a run of the generator has written.
use alya.Prelude.{List, ◌∷◌, some, String, ◌≡◌, ◌≢◌, if◌then◌else◌}
use alya.Prelude.Result.{Result, err, ok}
use alya.DiGen.Model.{ResolvedGraph}
use alya.DiGen.Resolve.Plan.{Runs}
use alya.DiGen.Emit.{BuildFile}
use alya.DiGen.Load.{Expr, Context, var_expr, load_package_context, LoadedGraph, empty_model}
use alya.DiGen.Load.Expansion.{Expands}
use alya.DiGen.Load.Refines.{ReadsTo}
use alya.DiGen.Gen.Defs.{write_failed, Flags, Tools, pattern_of, main, qualifier, emitted}

module _ {T W : Type 0} (tools : Tools T W) where
  abbrev pub target : String → String → String
  target dir out = if tools.is_abs out then out else tools.join dir out

  -- The package was loaded; the graph variable that the flags name has an expansion, which gives
  -- the model; the plan for the model can be run; and the text is the emission of that plan, for
  -- the path that the flags name.
  pub record IsGenerated (args : List String) (path text : String) : Type 0 where
    pub flags : Flags
    pub dir : String
    pub ctx : Context
    pub decl : Expr
    pub model : LoadedGraph
    pub plan : ResolvedGraph
    pub flags_read : tools.parse_flags args ≡ some flags
    pub in_dir : tools.working_directory ≡ some dir
    pub loaded :
        load_package_context (tools.load_packages dir (pattern_of tools flags.rest)) ≡ ok ctx
    pub declared : var_expr flags.graph_name ctx.var_exprs ≡ some decl
    pub read :
        ReadsTo ctx tools.info (Expands ctx tools.info decl) (empty_model ctx tools.info) model
    pub runs : Runs model.graph (qualifier tools) tools.decimal plan
    pub file : BuildFile
    pub made : emitted tools model plan ≡ some file
    pub rendered : tools.render_file file ≡ some text
    pub named : flags.out_path ≢ ""
    pub at : path ≡ target dir flags.out_path

  -- The file of a generation is written, and the run succeeds if it could be.
  abbrev pub Writes : List String → W → Type 0
  Writes args w =
      (rest : List String) × (path : String) × (text : String) × (args ≡ "gen" ∷ rest)
      × IsGenerated rest path text
      × (main tools args w ≡ (
        (if (tools.write_file path text w).0 then ok tt else err write_failed),
        (tools.write_file path text w).1,
      ))
