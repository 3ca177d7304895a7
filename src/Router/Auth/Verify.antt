-- ===== src/Router/Auth/Verify.antt =====
-- verifyToken and the middleware.
use alya.Prelude.{
  List, [], ◌∷◌, ◌++◌, Option, none, some, String, Bool, false, str_eq, any_if, if◌then◌else◌,
}
use alya.Prelude.Int.{ℤ}
use alya.Prelude.Result.{Result, ok, err, ◌>>=◌, ◌>>◌, guard}
use alya.Router.Errors.{
  Registry, Reply, error_reply, get_text, token_missing, token_verification_failed,
}
use alya.Router.Auth.Types.{
  Claim, text, Claims, AuthMiddleware, AuthError, oidc_verification_failed, claims_unreadable,
  cached_token_unparsed, cached_claims_unreadable, header_unparsed, algorithm_not_allowed,
  custom_validation_failed, ContextValue, claims_value, verified_value, text_value, extract_token,
}
use alya.Router.Auth.ClaimChecks.{validate_claims}

-- `parse` is `ParseUnverified`: the name of the algorithm and the claims, which may be of another
-- type.
module _ {F : Type 0} (parse : String → Option (String × Option (Claims F))) where
  unfoldable pub cached_claims : String → Result AuthError (Claims F)
  cached_claims token = elim (parse token) [
    | none ↦ err cached_token_unparsed
    | some (alg, answer) ↦ elim answer [
      | none ↦ err cached_claims_unreadable
      | some claims ↦ ok claims
    ]
  ]

abbrev pub stored_text : {F : Type 0} → String → Option (Claim F) → List (String × ContextValue F)
stored_text key (some (text t)) = (key, text_value t) ∷ []
stored_text key c = []

module _ {F C W : Type 0} where
  -- The claims of a token that is verified now, or was found in the cache; and the cache after it.
  unfoldable pub verified_claims :
      AuthMiddleware F C W → W → String → C → C × Result AuthError (Claims F)
  verified_claims a w token c = elim (a.verifier w token) [
    | none ↦ (c, err oidc_verification_failed)
    | some answer ↦ elim answer [
      | none ↦ (c, err claims_unreadable)
      | some claims ↦ ((a.cache.set token c).0, ok claims)
    ]
  ]

  abbrev pub is_cached : AuthMiddleware F C W → String → C → Bool
  is_cached a token c = elim (a.cache.get token c) [ none ↦ false | some hit ↦ hit ]

  abbrev pub custom_validation : AuthMiddleware F C W → Claims F → Result AuthError (Unit {0})
  custom_validation a claims = elim a.validate_claims_func [
    | none ↦ ok tt
    | some f ↦ guard (f claims) custom_validation_failed
  ]

  -- The keys that are set, in order.
  unfoldable pub context_keys : AuthMiddleware F C W → Claims F → List (String × ContextValue F)
  context_keys a claims =
      if a.store_claims_in_context
      then ("jwt_claims", claims_value claims)
        ∷ ("jwt_verified", verified_value)
        ∷ (stored_text "user_id" (get_text "sub" claims)
            ++ (stored_text "username" (get_text "preferred_username" claims)
                ++ stored_text "email" (get_text "email" claims)))
      else []

module _ {F C W : Type 0} (parse : String → Option (String × Option (Claims F))) where
  unfoldable pub validate_algorithm : AuthMiddleware F C W → String → Result AuthError (Unit {0})
  validate_algorithm a token = elim (parse token) [
    | none ↦ err header_unparsed
    | some (alg, claims) ↦
        guard (any_if (λ allowed. str_eq alg allowed) a.allowed_algorithms) algorithm_not_allowed
  ]

  unfoldable pub obtain_claims :
      AuthMiddleware F C W → W → String → C → C × Result AuthError (Claims F)
  obtain_claims a w token c =
      if is_cached a token c then (c, cached_claims parse token) else verified_claims a w token c

module _ {F C W : Type 0} (unix : F → ℤ)
    (parse : String → Option (String × Option (Claims F))) where
  -- The checks that are made of a cached token too.
  unfoldable pub check_token :
      AuthMiddleware F C W
      → ℤ
      → String
      → Claims F
      → Result AuthError (List (String × ContextValue F))
  check_token a now token claims = do
    validate_algorithm parse a token
    validate_claims unix a now claims
    custom_validation a claims
    ok (context_keys a claims)

  unfoldable pub verify_token :
      AuthMiddleware F C W
      → W
      → ℤ
      → String
      → C
      → C × Result AuthError (List (String × ContextValue F))
  verify_token a w now token c =
      let (c', obtained) = obtain_claims parse a w token c in
      (c', obtained >>= λ (claims : Claims F). check_token a now token claims)

  -- A request is refused with a reply or handed on with the keys that were set.
  unfoldable pub middleware_func :
      Registry
      → AuthMiddleware F C W
      → W
      → ℤ
      → String
      → C
      → C × Result Reply (List (String × ContextValue F))
  middleware_func reg a w now authorization c = elim (extract_token authorization) [
    | err e ↦ (c, err (error_reply 401 reg.auth token_missing reg))
    | ok token ↦
        let (c', verdict) = verify_token a w now token c in
        elim verdict [
          | err e ↦ (c', err (error_reply 401 reg.auth token_verification_failed reg))
          | ok keys ↦ (c', ok keys)
        ]
  ]
