-- ===== src/Router/Auth/Admission.antt =====
-- Which requests the middleware hands on.
use alya.Prelude.{
  List, Option, some, String, Bool, true, false, str_eq, str_eq_iff, str_append, any_if, ◌≡◌, ◌≢◌,
  ◌↔◌, ◌⊎◌, inl, inr, refl, arith, Option-cases, Bool-cases, if◌then◌else◌, starts_with,
}
use alya.Prelude.Int.{ℤ}
use alya.Prelude.Result.{ok, err, >>-eq-ok, >>=-eq-ok, Result-cases}
use alya.Router.Errors.{Registry}
use alya.Router.Auth.Types.{text, Claims, AuthMiddleware, empty_token, ContextValue, extract_token}
use alya.Router.Auth.ClaimChecks.{validate_claims}
use alya.Router.Auth.Validity.{AreValid, validate_claims_only, validate_claims_if}
use alya.Router.Auth.Verify.{
  validate_algorithm, verified_claims, cached_claims, is_cached, obtain_claims, custom_validation,
  context_keys, check_token, verify_token, middleware_func,
}
use package.text.Mathlib.TextEquality.{starts_with_iff}
use package.text.Mathlib.TextPositions.{slice-append_right, starts_with-append, len-append}

-- A header that begins with the prefix has the rest of it as its token.
bearer :
    (t : String)
    → extract_token (str_append "Bearer " t) ≡ (if str_eq t "" then err empty_token else ok t)
unfolding extract_token
bearer t =
    rw (starts_with-append "Bearer " t, len-append "Bearer " t, slice-append_right "Bearer " t) refl

extract_token_only :
    (h t : String) → extract_token h ≡ ok t → (h ≡ str_append "Bearer " t) × (t ≢ "")
unfolding extract_token
extract_token_only h t e = elim (Bool-cases (starts_with h "Bearer ")) [
  | inl begins ↦
      let (u, split) = (starts_with_iff h "Bearer ").0 begins in
      let found : extract_token (str_append "Bearer " u) ≡ ok t = rw split e in
      ground (arith, bearer u, str_eq_iff u "")
  | inr no_prefix ↦ ground arith
]

extract_token_iff :
    (h t : String) → (extract_token h ≡ ok t) ↔ ((h ≡ str_append "Bearer " t) × (t ≢ ""))
extract_token_iff h t = (
  extract_token_only h t,
  λ (p : (h ≡ str_append "Bearer " t) × (t ≢ "")).
      rw (p.0) (ground (arith, bearer t, str_eq_iff t "")),
)

module _ {F C W : Type 0} (unix : F → ℤ) (parse : String → Option (String × Option (Claims F)))
    (a : AuthMiddleware F C W) (w : W) (now : ℤ) (token : String) (c : C) where
  -- All that is asked of a token with its claims: it was found in the cache and its claims are read
  -- with no check of the signature, or the provider accepts it now; its algorithm is allowed, its
  -- claims are valid, and the custom validation, where there is one, accepts them.
  pub record Admits (claims : Claims F) : Type 0 where
    pub source :
        ((a.cache.get token c ≡ some true) × (cached_claims parse token ≡ ok claims))
        ⊎ ((is_cached a token c ≡ false) × (a.verifier w token ≡ some (some claims)))
    pub algorithm :
        (alg : String) × (answer : Option (Claims F)) × (parse token ≡ some (alg, answer))
        × (any_if (λ allowed. str_eq alg allowed) a.allowed_algorithms ≡ true)
    pub valid : AreValid unix a now claims
    pub custom : (f : Claims F → Bool) → a.validate_claims_func ≡ some f → f claims ≡ true

  obtain_claims_iff :
      (claims : Claims F)
      → ((obtain_claims parse a w token c).1 ≡ ok claims) ↔ (
          ((a.cache.get token c ≡ some true) × (cached_claims parse token ≡ ok claims))
          ⊎ ((is_cached a token c ≡ false) × (a.verifier w token ≡ some (some claims))))
  unfolding obtain_claims verified_claims
  obtain_claims_iff claims = (λ h. ground arith, λ h. ground arith)

  validate_algorithm_iff : (validate_algorithm parse a token ≡ ok tt) ↔ (
      (alg : String) × (answer : Option (Claims F)) × (parse token ≡ some (alg, answer))
      × (any_if (λ allowed. str_eq alg allowed) a.allowed_algorithms ≡ true))
  unfolding validate_algorithm
  validate_algorithm_iff = (
    λ h. elim (Option-cases (parse token)) [
      | inl e ↦ absurd (ground arith)
      | inr ((alg, answer), e) ↦ (alg, answer, e, ground arith)
    ],
    λ h. ground (arith, h.2),
  )

  custom_iff :
      (claims : Claims F)
      → (custom_validation a claims ≡ ok tt)
        ↔ ((f : Claims F → Bool) → a.validate_claims_func ≡ some f → f claims ≡ true)
  custom_iff claims = (
    λ h f e. ground arith,
    λ h. elim (Option-cases a.validate_claims_func) [
      | inl e ↦ ground arith
      | inr (f, e) ↦ let holds = h f e in ground arith
    ],
  )

  check_token_only :
      (claims : Claims F) {keys : List (String × ContextValue F)}
      → check_token unix parse a now token claims ≡ ok keys
      → (validate_algorithm parse a token ≡ ok tt)
        × (validate_claims unix a now claims ≡ ok tt)
        × (custom_validation a claims ≡ ok tt)
        × (keys ≡ context_keys a claims)
  unfolding check_token
  check_token_only claims h =
      let (e1, h1) = >>-eq-ok (validate_algorithm parse a token) _ h in
      let (e2, h2) = >>-eq-ok (validate_claims unix a now claims) _ h1 in
      let (e3, h3) = >>-eq-ok (custom_validation a claims) _ h2 in (e1, e2, e3, ground arith)

  check_token_if :
      (claims : Claims F)
      → validate_algorithm parse a token ≡ ok tt
      → validate_claims unix a now claims ≡ ok tt
      → custom_validation a claims ≡ ok tt
      → check_token unix parse a now token claims ≡ ok (context_keys a claims)
  unfolding check_token
  check_token_if claims e1 e2 e3 = rw (e1, e2) (ground arith)

  verify_token_only :
      {keys : List (String × ContextValue F)}
      → (verify_token unix parse a w now token c).1 ≡ ok keys
      → (claims : Claims F) × Admits claims × (keys ≡ context_keys a claims)
  unfolding verify_token
  verify_token_only h =
      let (claims, obtained, checked) = >>=-eq-ok (obtain_claims parse a w token c).1 _ h in
      let (alg, valid, custom, keys) = check_token_only claims checked in
      (
        claims,
        record {
          source = (obtain_claims_iff claims).0 obtained;
          algorithm = validate_algorithm_iff.0 alg;
          valid = validate_claims_only unix a now claims valid;
          custom = (custom_iff claims).0 custom;
        },
        keys,
      )

  verify_token_if :
      (claims : Claims F)
      → Admits claims
      → (verify_token unix parse a w now token c).1 ≡ ok (context_keys a claims)
  unfolding verify_token
  verify_token_if claims v = rw ((obtain_claims_iff claims).1 v.source) (
      check_token_if claims (validate_algorithm_iff.1 v.algorithm)
        (validate_claims_if unix a now claims v.valid) ((custom_iff claims).1 v.custom))

module _ {F C W : Type 0} (unix : F → ℤ) (parse : String → Option (String × Option (Claims F)))
    (reg : Registry) (a : AuthMiddleware F C W) (w : W) (now : ℤ) (header : String) (c : C) where
  middleware_func_only :
      {keys : List (String × ContextValue F)}
      → (middleware_func unix parse reg a w now header c).1 ≡ ok keys
      → (token : String) × (extract_token header ≡ ok token)
        × ((verify_token unix parse a w now token c).1 ≡ ok keys)
  unfolding middleware_func
  middleware_func_only h = elim (Result-cases (extract_token header)) [
    | inl (token, e) ↦ (token, e, ground arith)
    | inr (x, e) ↦ absurd (ground arith)
  ]

  middleware_func_if :
      (token : String) {keys : List (String × ContextValue F)}
      → extract_token header ≡ ok token
      → (verify_token unix parse a w now token c).1 ≡ ok keys
      → (middleware_func unix parse reg a w now header c).1 ≡ ok keys
  unfolding middleware_func
  middleware_func_if token e h = ground arith

  -- A request is handed on exactly when its header is the Bearer prefix and a token that is not
  -- empty and, with some claims, passes all that is asked of it, be it in the cache or not; the keys
  -- that are then set are made of these claims.
  pub middleware_func_iff :
      (keys : List (String × ContextValue F))
      → ((middleware_func unix parse reg a w now header c).1 ≡ ok keys) ↔ (
          (token : String) × (claims : Claims F) × (header ≡ str_append "Bearer " token)
          × (token ≢ "")
          × Admits unix parse a w now token c claims
          × (keys ≡ context_keys a claims))
  middleware_func_iff keys = (
    λ h.
        let (token, e, verified) = middleware_func_only h in
        let (claims, admitted, made) = verify_token_only unix parse a w now token c verified in
        let (split, nonempty) = extract_token_only header token e in
        (token, claims, split, nonempty, admitted, made),
    λ h.
        let (token, claims, split, nonempty, admitted, made) = h in
        middleware_func_if token ((extract_token_iff header token).1 (split, nonempty))
          (rw made (verify_token_if unix parse a w now token c claims admitted)),
  )
