-- ===== src/DiGen/Load/Providers.antt =====
-- The providers that a graph may declare.
use alya.Prelude.{
  List, [], ◌∷◌, map, some, Bool, true, false, ◌≡◌, ◌↔◌, refl, sym, ap, ◌∙◌, inl, inr, arith,
  str_eq, str_eq_iff, Bool-cases, Option-cases,
}
use mathlib.Core.Path.{subst}
use alya.Prelude.Result.{ok, >>=-eq-ok}
use alya.DiGen.Model.{ProviderRef}
use alya.DiGen.Load.Syntax.{Expr, Signature, Info}
use alya.DiGen.Load.Packages.{Context}
use alya.DiGen.Load.Parse.{
  type_key, is_cleanup_func, parse_provider_results, function_of, make_type_ref_from_type,
  parse_provider,
}

module _ {T : Type 0} (info : Info T) where
  -- The predeclared error, and a function of nothing to nothing.
  abbrev pub IsError : T → Type 0
  IsError t = type_key info t ≡ "error"

  abbrev pub IsCleanup : T → Type 0
  IsCleanup t =
      (sig : Signature T) × (info.signature t ≡ some sig)
      × (sig.variadic ≡ false)
      × (sig.params ≡ [])
      × (sig.results ≡ [])

  -- `T`, `(T, error)` and `(T, func(), error)`, with whether an error and a cleanup come with it.
  pub data ProviderShape : List T → T → Bool → Bool → Type 0 where
    plain : (t : T) → ProviderShape (t ∷ []) t false false
    with_error : (t e : T) → IsError e → ProviderShape (t ∷ e ∷ []) t true false
    with_cleanup :
        (t c e : T) → IsCleanup c → IsError e → ProviderShape (t ∷ c ∷ e ∷ []) t true true

  is_cleanup_func-IsCleanup : (t : T) → is_cleanup_func info t ≡ true → IsCleanup t
  is_cleanup_func-IsCleanup t h = elim (Option-cases (info.signature t)) [
    | inl e ↦ absurd (ground arith)
    | inr (sig, e) ↦ elim (Bool-cases sig.variadic) [
      | inl v ↦ absurd (ground arith)
      | inr v ↦ (sig, e, v, ground arith, ground arith)
    ]
  ]

  is_cleanup_func_of_IsCleanup : (t : T) → IsCleanup t → is_cleanup_func info t ≡ true
  is_cleanup_func_of_IsCleanup t (sig, e, v, p, r) = ground arith

  shaped :
      {ts : List T} {a : T} {has_error has_cleanup : Bool} (t : T) (e c : Bool)
      → ProviderShape ts a has_error has_cleanup
      → (a ≡ t) × (has_error ≡ e) × (has_cleanup ≡ c)
      → ProviderShape ts t e c
  shaped {ts} {a} {has_error} {has_cleanup} t e c shape (same, same_e, same_c) =
      subst (λ k. ProviderShape ts t e k) same_c
        (subst (λ k. ProviderShape ts t k has_cleanup) same_e
          (subst (λ k. ProviderShape ts k has_error has_cleanup) same shape))

  results_shape :
      (ts : List T) (t : T) (e c : Bool)
      → parse_provider_results info ts ≡ ok (t, e, c)
      → ProviderShape ts t e c
  unfolding parse_provider_results
  results_shape [] t e c h = absurd (ground arith)
  results_shape (a ∷ []) t e c h = shaped t e c (plain a) (ground arith)
  results_shape (a ∷ x ∷ []) t e c h = elim (Bool-cases (str_eq (type_key info x) "error")) [
    | inl is ↦
        shaped t e c (with_error a x ((str_eq_iff (type_key info x) "error").0 is)) (ground arith)
    | inr other ↦ absurd (ground arith)
  ]
  results_shape (a ∷ f ∷ x ∷ []) t e c h = elim (Bool-cases (is_cleanup_func info f)) [
    | inl clean ↦ elim (Bool-cases (str_eq (type_key info x) "error")) [
      | inl is ↦
          shaped t e c
            (with_cleanup a f x (is_cleanup_func-IsCleanup f clean)
              ((str_eq_iff (type_key info x) "error").0 is))
            (ground arith)
      | inr other ↦ absurd (ground arith)
    ]
    | inr no_cleanup ↦ absurd (ground arith)
  ]
  results_shape (a ∷ f ∷ x ∷ y ∷ ts) t e c h = absurd (ground arith)

  shape_results :
      (ts : List T) (t : T) (e c : Bool)
      → ProviderShape ts t e c
      → parse_provider_results info ts ≡ ok (t, e, c)
  unfolding parse_provider_results
  shape_results ts t e c (plain _) = refl
  shape_results ts t e c (with_error _ x is) =
      let known = (str_eq_iff (type_key info x) "error").1 is in ground arith
  shape_results ts t e c (with_cleanup _ f x clean is) =
      let known = (str_eq_iff (type_key info x) "error").1 is in
      let cleans = is_cleanup_func_of_IsCleanup f clean in ground arith

  module _ (ctx : Context) where
    -- What a provider is recorded as, by the signature and the three things read of its results.
    abbrev pub recorded : Expr → Signature T → T → Bool → Bool → ProviderRef
    recorded arg sig result has_error has_cleanup = record {
      expr_string = info.node_string arg;
      params = map (make_type_ref_from_type info ctx) sig.params;
      result = make_type_ref_from_type info ctx result;
      has_error = has_error;
      has_cleanup = has_cleanup;
    }

    -- The argument is a function that is not variadic, with results of one of the three shapes.
    abbrev pub IsProvider : Expr → ProviderRef → Type 0
    IsProvider arg p =
        (sig : Signature T) × (t : T) × (e : Bool) × (c : Bool) × (info.signature (info.type_of arg)
          ≡ some sig)
        × (sig.variadic ≡ false)
        × ProviderShape sig.results t e c
        × (p ≡ recorded arg sig t e c)

    function_of_lem :
        (arg : Expr) (sig : Signature T)
        → function_of info arg ≡ ok sig
        → (info.signature (info.type_of arg) ≡ some sig) × (sig.variadic ≡ false)
    unfolding function_of
    function_of_lem arg sig h = elim (Option-cases (info.signature (info.type_of arg))) [
      | inl e ↦ absurd (ground arith)
      | inr (sig', e) ↦ elim (Bool-cases sig'.variadic) [
        | inl v ↦ absurd (ground arith)
        | inr v ↦
            let same : sig' ≡ sig = ground arith in
            (e ∙ ap some same, sym (ap (λ (s : Signature T). s.variadic) same) ∙ v)
      ]
    ]

    parse_provider-IsProvider :
        (arg : Expr) (p : ProviderRef) → parse_provider info ctx arg ≡ ok p → IsProvider arg p
    unfolding parse_provider
    parse_provider-IsProvider arg p h =
        let (sig, fun, h₁) = >>=-eq-ok (function_of info arg) _ h in
        let ((t, e, c), results, h₂) = >>=-eq-ok (parse_provider_results info sig.results) _ h₁ in
        let (there, fixed) = function_of_lem arg sig fun in
        (sig, t, e, c, there, fixed, results_shape sig.results t e c results, ground arith)

    parse_provider_of_IsProvider :
        (arg : Expr) (p : ProviderRef) (sig : Signature T) (t : T) (e c : Bool)
        → info.signature (info.type_of arg) ≡ some sig
        → sig.variadic ≡ false
        → ProviderShape sig.results t e c
        → p ≡ recorded arg sig t e c
        → parse_provider info ctx arg ≡ ok p
    unfolding parse_provider function_of
    parse_provider_of_IsProvider arg p sig t e c there fixed shape is =
        let results = shape_results sig.results t e c shape in
        let fun : function_of info arg ≡ ok sig = ground arith in
        let read : parse_provider info ctx arg ≡ ok (recorded arg sig t e c) =
          rw (fun, results) refl in
        read ∙ ap ok (sym is)

    -- An argument of Provide is accepted, and recorded as a provider, exactly when it is a function
    -- that is not variadic and returns a value, a value and an error, or a value, a cleanup and an
    -- error; the record says which of these it returns, with its parameters and the value's type.
    pub parse_provider_iff :
        (arg : Expr) (p : ProviderRef) → (parse_provider info ctx arg ≡ ok p) ↔ IsProvider arg p
    parse_provider_iff arg p = (
      parse_provider-IsProvider arg p,
      λ (sig, t, e, c, there, fixed, shape, is).
          parse_provider_of_IsProvider arg p sig t e c there fixed shape is,
    )
