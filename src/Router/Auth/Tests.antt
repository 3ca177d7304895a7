-- ===== src/Router/Auth/Tests.antt =====
-- Requests with tokens, on a provider that accepts one token and a cache that is a list of them.
use alya.Prelude.{
  List, [], ◌∷◌, Option, none, some, String, Bool, true, false, str_append, str_eq, str_eq_iff,
  any_if, ◌≡◌, ◌≢◌, ◌↔◌, ◌⊎◌, refl, arith, All, if◌then◌else◌,
}
use alya.Prelude.Int.{ℤ, pos}
use alya.Prelude.Result.{ok}
use alya.Router.Errors.{initial_registry, get_text}
use alya.Router.Auth.Types.{
  number, text, Claims, TokenCache, AuthMiddleware, ContextValue, claims_value, verified_value,
  text_value, extract_token, Verifier, OidcConfig,
}
use alya.Router.Auth.ClaimChecks.{
  is_claimed, check_exp, check_nbf, check_iat, check_issuer, check_required, validate_claims,
}
use alya.Router.Auth.Verify.{
  validate_algorithm, verified_claims, cached_claims, obtain_claims, context_keys, check_token,
  verify_token, middleware_func,
}
use alya.Router.Auth.Setup.{AuthMiddlewareConfig, new_auth_middleware_with_config}
use alya.Router.Auth.Validity.{Expires}
use alya.Router.Auth.Admission.{Admits, middleware_func_iff}
use alya.Router.Auth.Trust.{IsFaithful, request, serve_all, Accepted, handed_on-Accepted}
use alya.Router.Auth.Configured.{configured_requests}

abbrev the_claims : Claims ℤ
the_claims = ("exp", number (pos 100)) ∷ ("iss", text "https://id") ∷ ("sub", text "ann") ∷ []

abbrev a_provider : OidcConfig → Verifier ℤ Bool
a_provider oidc up token =
    if up then (if str_eq token "T" then some (some the_claims) else none) else none

abbrev a_parse : String → Option (String × Option (Claims ℤ))
a_parse token = some ("RS256", some the_claims)

abbrev a_cache : TokenCache (List String)
a_cache = record {
  get = λ token c. some (any_if (λ t. str_eq t token) c);
  set = λ token c. (token ∷ c, true);
}

abbrev a_config : AuthMiddlewareConfig ℤ (List String) Bool
a_config = record {
  client_id = "alya";
  provider = some a_provider;
  cache = some a_cache;
  issuer_url = "https://id";
  allowed_algorithms = [];
  required_claims = [];
  validate_claims_func = none;
  store_claims_in_context = false;
  skip_client_id_check = false;
  skip_expiry_check = false;
  skip_issuer_check = false;
}

abbrev a_middleware : AuthMiddleware ℤ (List String) Bool
a_middleware = record {
  verifier = a_provider (record {
    client_id = "alya";
    supported_signing_algs = [];
    skip_client_id_check = false;
    skip_expiry_check = false;
    skip_issuer_check = false;
  });
  cache = a_cache;
  allowed_algorithms = "RS256" ∷ "RS384" ∷ "RS512" ∷ [];
  required_claims = "exp" ∷ "iss" ∷ "sub" ∷ [];
  issuer_url = "https://id";
  validate_claims_func = none;
  store_claims_in_context = true;
}

abbrev same : ℤ → ℤ
same x = x

abbrev the_keys : List (String × ContextValue ℤ)
the_keys =
    ("jwt_claims", claims_value the_claims)
    ∷ ("jwt_verified", verified_value)
    ∷ ("user_id", text_value "ann")
    ∷ []

-- A token in the cache is let in while the provider is down.
cached_while_down :
    (middleware_func same a_parse initial_registry a_middleware false
      (pos 50)
      "Bearer T"
      ("T" ∷ [])).1
    ≡ ok the_keys
unfolding middleware_func verify_token obtain_claims cached_claims check_token validate_algorithm
    validate_claims check_exp check_nbf check_iat check_issuer check_required context_keys
    extract_token
cached_while_down = refl

handed_on :
    (middleware_func same a_parse initial_registry a_middleware true (pos 50) "Bearer T" []).1
    ≡ ok the_keys
unfolding middleware_func verify_token obtain_claims verified_claims check_token validate_algorithm
    validate_claims check_exp check_nbf check_iat check_issuer check_required context_keys
    extract_token
handed_on = refl

middleware_func_iff_example :
    ((middleware_func same a_parse initial_registry a_middleware true (pos 50) "Bearer T" []).1
      ≡ ok the_keys)
    ↔ ((token : String) × (claims : Claims ℤ) × ("Bearer T" ≡ str_append "Bearer " token)
        × (token ≢ "")
        × Admits same a_parse a_middleware true (pos 50) token [] claims
        × (the_keys ≡ context_keys a_middleware claims))
middleware_func_iff_example =
    middleware_func_iff same a_parse initial_registry a_middleware true (pos 50) "Bearer T" []
      the_keys

configured_requests_example :
    (token : String) × (claims : Claims ℤ) × ("Bearer T" ≡ str_append "Bearer " token)
    × Expires same (pos 50) (get_text "exp" claims)
    × (get_text "iss" claims ≡ some (text "https://id"))
    × All (λ name. is_claimed claims name ≡ true) ("exp" ∷ "iss" ∷ "sub" ∷ [])
    × ((more : List (String × ContextValue ℤ)) × (the_keys
          ≡ ("jwt_claims", claims_value claims) ∷ more))
unfolding new_auth_middleware_with_config
configured_requests_example =
    configured_requests a_config a_middleware same a_parse initial_registry true (pos 50) "Bearer T"
      [] the_keys refl handed_on

abbrev InList : String → List String → Type 0
InList token [] = ⊥
InList token (t ∷ ts) = (token ≡ t) ⊎ InList token ts

a_cache_hit :
    (token : String) (c : List String) → any_if (λ t. str_eq t token) c ≡ true → InList token c
a_cache_hit token [] h = cc
a_cache_hit token (t ∷ ts) h = ground (arith, str_eq_iff t token, a_cache_hit token ts)

a_cache-IsFaithful : IsFaithful a_cache InList
a_cache-IsFaithful = record {
  hit = λ token c h. a_cache_hit token c (ground arith);
  added = λ token other c h. h;
}

handed_on-Accepted_example :
    (token : String) × ("Bearer T" ≡ str_append "Bearer " token)
    × Accepted a_middleware
        (request false (pos 60) "Bearer T" ∷ request true (pos 50) "Bearer T" ∷ [])
        token
unfolding serve_all middleware_func extract_token verify_token obtain_claims verified_claims
    check_token validate_algorithm validate_claims check_exp check_nbf check_iat check_issuer
    check_required cached_claims context_keys
handed_on-Accepted_example =
    handed_on-Accepted same a_parse initial_registry a_middleware a_cache-IsFaithful
      (request true (pos 50) "Bearer T" ∷ []) [] false (pos 60) "Bearer T" the_keys (λ token h. h)
      (tt, tt) refl
