-- ===== src/DiGen/Gen/Defs.antt =====
-- The functions of cmd/alya-di/main.go. What stands outside of the generator is a parameter: the
-- flags, the working directory, the loading of packages, the parsing and rendering of Go code, and
-- the files.
use alya.Prelude.{
  ℕ, List, [], ◌∷◌, Option, none, some, String, Bool, str_eq, str_append, if◌then◌else◌,
}
use alya.Prelude.Result.{Result, err, ok, ◌>>=◌}
use alya.DiGen.Model.{ResolvedGraph}
use alya.DiGen.Resolve.{Res, ResolveError, resolve_graph}
use alya.DiGen.Names.Letters.{output_field_qualifier}
use alya.DiGen.Emit.{BuildFile, emit_build_file}
use alya.DiGen.Load.{
  Expr, Package, Info, LoadError, load_package_context, LoadedGraph, Stop, parse_graph,
  collect_imports,
}

pub data GenError : Type 0 where
  no_command unknown_command bad_flags out_required no_directory : GenError
  load_failed : (e : LoadError) → GenError
  graph_failed : (e : Stop) → GenError
  resolution_failed : (e : ResolveError) → GenError
  resolution_out_of_fuel emission_failed write_failed : GenError

-- What the flags and the arguments after them say.
pub record Flags : Type 0 where
  pub graph_name : String
  pub out_path : String
  pub rest : List String

-- The world of a run, on the state W of the files. `none` is an error.
pub record Tools (T W : Type 0) : Type 0 where
  pub info : Info T
  pub parse_flags : List String → Option Flags
  pub working_directory : Option String
  pub load_packages : String → String → Option (List Package)
  pub parse_expr : String → Option Expr
  pub decimal : ℕ → String
  pub to_lower : String → String
  pub render : List (String × String) → String → Option String
  pub render_file : BuildFile → Option String
  pub is_abs : String → Bool
  pub join : String → String → String
  pub write_file : String → String → W → Bool × W

abbrev pub required : {A : Type 0} → Option A → GenError → Result GenError A
required none e = err e
required (some a) e = ok a

abbrev pub failing_with : {A E : Type 0} → (E → GenError) → Result E A → Result GenError A
failing_with e (err reason) = err (e reason)
failing_with e (ok a) = ok a

abbrev pub resolved : {A : Type 0} → Res A → Result GenError A
resolved (Res.ok a) = ok a
resolved (Res.err e) = err (resolution_failed e)
resolved Res.out_of_fuel = err resolution_out_of_fuel

module _ {T W : Type 0} (tools : Tools T W) where
  abbrev pub pattern_of : List String → String
  pattern_of [] = "."
  pattern_of (p ∷ ps) = p

  abbrev pub qualifier : String → String
  qualifier = output_field_qualifier tools.parse_expr

  abbrev pub emitted : LoadedGraph → ResolvedGraph → Option BuildFile
  emitted model plan =
      let imports = collect_imports model.imports in
      emit_build_file (tools.render imports) (λ s n. str_append s (tools.decimal n)) tools.to_lower
        model.package_name model.graph plan imports

  -- Up to the writing: the path and the contents of the file.
  unfoldable pub generate : List String → Result GenError (String × String)
  generate args = do
    flags ← required (tools.parse_flags args) bad_flags
    out ← (if str_eq flags.out_path "" then err out_required else ok flags.out_path)
    dir ← required tools.working_directory no_directory
    ctx ←
        failing_with load_failed
          (load_package_context (tools.load_packages dir (pattern_of flags.rest)))
    model ← failing_with graph_failed (parse_graph ctx tools.info flags.graph_name)
    plan ← resolved (resolve_graph model.graph qualifier tools.decimal)
    file ← required (emitted model plan) emission_failed
    text ← required (tools.render_file file) emission_failed
    ok ((if tools.is_abs out then out else tools.join dir out), text)

  abbrev pub write_generated :
      Result GenError (String × String) → W → Result GenError (Unit {0}) × W
  write_generated (err e) w = (err e, w)
  write_generated (ok (path, text)) w =
      let (written, w') = tools.write_file path text w in
      ((if written then ok tt else err write_failed), w')

  unfoldable pub run_gen : List String → W → Result GenError (Unit {0}) × W
  run_gen args w = write_generated (generate args) w

  -- After the program's name. An error is the exit status 1.
  unfoldable pub main : List String → W → Result GenError (Unit {0}) × W
  unfolding run_gen
  main [] w = (err no_command, w)
  main (command ∷ args) w =
      if str_eq command "gen" then run_gen args w else (err unknown_command, w)
