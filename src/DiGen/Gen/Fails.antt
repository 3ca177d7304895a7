-- ===== src/DiGen/Gen/Fails.antt =====
-- The errors of a run of the generator.
use mathlib.Core.Path.{subst}
use alya.Prelude.{
  List, Option, none, some, String, ◌≡◌, ◌≢◌, inl, inr, refl, arith, str_eq, Bool-cases,
  if◌then◌else◌,
}
use alya.Prelude.Result.{Result, err, ok, ◌>>=◌}
use alya.DiGen.Resolve.{Res, resolve_graph}
use alya.DiGen.Resolve.Ends.{resolve_graph_ends}
use alya.DiGen.Load.{load_package_context, LoadedGraph, parse_graph, Stop, out_of_fuel}
use alya.DiGen.Load.Ends.{parse_graph-Ends}
use alya.DiGen.Gen.Defs.{
  GenError, Tools, required, failing_with, resolved, pattern_of, generate, qualifier, emitted,
  resolution_out_of_fuel, resolution_failed, emission_failed, bad_flags, no_directory, load_failed,
  graph_failed, out_required,
}

-- An error of the command, and not the end of the model's fuel.
abbrev pub IsGenuine : GenError → Type 0
IsGenuine (graph_failed out_of_fuel) = ⊥
IsGenuine resolution_out_of_fuel = ⊥
IsGenuine _ = Unit {0}

-- Every error is one of the command.
abbrev pub Fails : {A : Type 0} → Result GenError A → Type 0
Fails r = (e : GenError) → r ≡ err e → IsGenuine e

bind-Fails :
    {A B : Type 0} (m : Result GenError A) (next : A → Result GenError B)
    → Fails m
    → ((a : A) → m ≡ ok a → Fails (next a))
    → Fails (m >>= next)
bind-Fails (err reason) next first rest e h = first e (ground arith)
bind-Fails (ok a) next first rest e h = rest a refl e h

ok-Fails : {A : Type 0} (a : A) → Fails (ok a)
ok-Fails a e h = cc

required-Fails : {A : Type 0} (r : Option A) (e : GenError) → IsGenuine e → Fails (required r e)
required-Fails none e genuine e' h = subst IsGenuine (ground arith) genuine
required-Fails (some a) e genuine e' h = cc

failing_with-Fails :
    {A E : Type 0} (f : E → GenError) (r : Result E A)
    → ((e : E) → r ≡ err e → IsGenuine (f e))
    → Fails (failing_with f r)
failing_with-Fails f (err reason) genuine e h = subst IsGenuine (ground arith) (genuine reason refl)
failing_with-Fails f (ok a) genuine e h = cc

resolved-Fails : {A : Type 0} (r : Res A) → r ≢ Res.out_of_fuel → Fails (resolved r)
resolved-Fails (Res.ok a) ends e h = cc
resolved-Fails (Res.err reason) ends e h =
    let same : resolution_failed reason ≡ e = ground arith in subst IsGenuine same tt
resolved-Fails Res.out_of_fuel ends e h = absurd (ends refl)

parse-IsGenuine :
    (r : Result Stop LoadedGraph)
    → r ≢ err out_of_fuel
    → (e : Stop) → r ≡ err e
    → IsGenuine (graph_failed e)
parse-IsGenuine r ends (Stop.failed e) h = tt
parse-IsGenuine r ends (Stop.include_cycle x) h = tt
parse-IsGenuine r ends out_of_fuel h = ends h

module _ {T W : Type 0} (tools : Tools T W) where
  pub generate-Fails : (args : List String) → Fails (generate tools args)
  unfolding generate
  generate-Fails args =
      bind-Fails _ _ (required-Fails (tools.parse_flags args) bad_flags tt) λ flags h₁.
        bind-Fails _ _ (out_fails flags.out_path) λ out h₂.
          bind-Fails _ _ (required-Fails tools.working_directory no_directory tt) λ dir h₃.
            bind-Fails _ _
              (failing_with-Fails load_failed
                (load_package_context (tools.load_packages dir (pattern_of tools flags.rest)))
                (λ e h. tt))
              λ ctx h₄.
                bind-Fails _ _
                  (failing_with-Fails graph_failed (parse_graph ctx tools.info flags.graph_name)
                    (parse-IsGenuine _ (parse_graph-Ends ctx tools.info flags.graph_name)))
                  λ model h₅.
                    bind-Fails _ _
                      (resolved-Fails (resolve_graph model.graph (qualifier tools) tools.decimal)
                        (resolve_graph_ends model.graph (qualifier tools) tools.decimal))
                      λ plan h₆.
                        bind-Fails _ _
                          (required-Fails (emitted tools model plan) emission_failed tt)
                          λ file h₇.
                            bind-Fails _ _
                              (required-Fails (tools.render_file file) emission_failed tt)
                              λ text h₈. ok-Fails _
    where
      out_fails : (s : String) → Fails (if str_eq s "" then err out_required else ok s)
      out_fails s e h = elim (Bool-cases (str_eq s "")) [
        | inl empty ↦ let same : out_required ≡ e = ground arith in subst IsGenuine same tt
        | inr given ↦ absurd (ground arith)
      ]
