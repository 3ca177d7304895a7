-- ===== src/Router/Auth/Configured.antt =====
-- What a middleware that was made from a configuration asks of every request.
use alya.Prelude.{
  List, [], ◌∷◌, Option, some, String, true, not, str_append, str_eq, str_eq_iff, ◌≡◌, ◌≢◌, refl,
  ◌∙◌, ◌++◌, arith, All,
}
use mathlib.Core.Path.{subst}
use alya.Prelude.Int.{ℤ}
use alya.Prelude.Result.{ok, guard, >>-eq-ok, >>=-eq-ok}
use alya.Router.Errors.{Registry, get_text}
use alya.Router.Auth.Types.{
  Claims, text, AuthMiddleware, ContextValue, claims_value, verified_value, client_id_required,
  provider_required, cache_required, issuer_url_required,
}
use alya.Router.Auth.ClaimChecks.{is_claimed}
use alya.Router.Auth.Verify.{middleware_func, context_keys, stored_text}
use alya.Router.Auth.Validity.{Expires, IsIssuedBy}
use alya.Router.Auth.Admission.{middleware_func_iff}
use alya.Router.Auth.Setup.{
  AuthMiddlewareConfig, or_list, required, new_auth_middleware_with_config,
}

module _ {F C W : Type 0} (config : AuthMiddlewareConfig F C W) (a : AuthMiddleware F C W) where
  -- A middleware that was made has what the configuration says, or the defaults; its verifier skips
  -- a check only where the configuration says so.
  record IsMade : Type 0 where
    client : config.client_id ≢ ""
    issuer_given : config.issuer_url ≢ ""
    issuer : a.issuer_url ≡ config.issuer_url
    names : a.required_claims ≡ or_list config.required_claims ("exp" ∷ "iss" ∷ "sub" ∷ [])
    stores : a.store_claims_in_context ≡ true

  new_auth_middleware_with_config-IsMade : new_auth_middleware_with_config config ≡ ok a → IsMade
  unfolding new_auth_middleware_with_config
  new_auth_middleware_with_config-IsMade h =
      let (e1, h1) = >>-eq-ok (guard (not (str_eq config.client_id "")) client_id_required) _ h in
      let (provider, e2, h2) = >>=-eq-ok (required config.provider provider_required) _ h1 in
      let (cache, e3, h3) = >>=-eq-ok (required config.cache cache_required) _ h2 in
      let (e4, h4) =
        >>-eq-ok (guard (not (str_eq config.issuer_url "")) issuer_url_required) _ h3 in
      record {
        client = λ e. ground (arith, str_eq_iff config.client_id "");
        issuer_given = λ e. ground (arith, str_eq_iff config.issuer_url "");
        issuer = ground arith;
        names = ground arith;
        stores = ground arith;
      }

  context_keys_head :
      a.store_claims_in_context ≡ true
      → (claims : Claims F)
      → (more : List (String × ContextValue F)) × (context_keys a claims
          ≡ ("jwt_claims", claims_value claims) ∷ more)
  unfolding context_keys
  context_keys_head e claims = (
    ("jwt_verified", verified_value)
        ∷ (stored_text "user_id" (get_text "sub" claims)
            ++ (stored_text "username" (get_text "preferred_username" claims)
                ++ stored_text "email" (get_text "email" claims))),
    rw e refl,
  )

  -- A middleware that was made from a configuration, be the claims to be stored by it or not: a
  -- request that it hands on has a token whose claims have an expiry that is not past, the
  -- configured issuer, and every name that the configuration requires or else exp, iss and sub; and
  -- the keys that are set begin with these claims.
  pub configured_requests :
      (unix : F → ℤ) (parse : String → Option (String × Option (Claims F))) (reg : Registry) (w : W)
      (now : ℤ) (header : String) (c : C) (keys : List (String × ContextValue F))
      → new_auth_middleware_with_config config ≡ ok a
      → (middleware_func unix parse reg a w now header c).1 ≡ ok keys
      → (token : String) × (claims : Claims F) × (header ≡ str_append "Bearer " token)
        × Expires unix now (get_text "exp" claims)
        × (get_text "iss" claims ≡ some (text config.issuer_url))
        × All
            (λ name. is_claimed claims name ≡ true)
            (or_list config.required_claims ("exp" ∷ "iss" ∷ "sub" ∷ []))
        × ((more : List (String × ContextValue F)) × (keys
              ≡ ("jwt_claims", claims_value claims) ∷ more))
  configured_requests unix parse reg w now header c keys made h =
      let m = new_auth_middleware_with_config-IsMade made in
      let (token, claims, split, nonempty, admitted, set) =
        (middleware_func_iff unix parse reg a w now header c keys).0 h in
      let valid = admitted.valid in
      (
        token,
        claims,
        split,
        valid.expires,
        subst (λ url. IsIssuedBy url (get_text "iss" claims)) m.issuer valid.issuer m.issuer_given,
        subst (λ names. All (λ name. is_claimed claims name ≡ true) names) m.names valid.required,
        (let (more, head) = context_keys_head m.stores claims in (more, set ∙ head)),
      )
