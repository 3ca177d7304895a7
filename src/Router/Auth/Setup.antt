-- ===== src/Router/Auth/Setup.antt =====
-- The constructors of AuthMiddleware.
use alya.Prelude.{List, [], ◌∷◌, Option, none, some, String, Bool, true, false, not, str_eq}
use alya.Prelude.Result.{Result, ok, err, ◌>>=◌, ◌>>◌, guard}
use alya.Router.Auth.Types.{
  Claims, TokenCache, OidcConfig, Verifier, AuthMiddleware, AuthError, client_id_required,
  provider_required, cache_required, issuer_url_required,
}

abbrev pub required : {A : Type 0} → Option A → AuthError → Result AuthError A
required none e = err e
required (some x) e = ok x

-- NewAuthMiddleware; the provider makes a verifier from a configuration.
unfoldable pub new_auth_middleware :
    {F C W : Type 0} → String → (OidcConfig → Verifier F W) → TokenCache C → AuthMiddleware F C W
new_auth_middleware client_id provider cache = record {
  verifier = provider (record {
    client_id = client_id;
    supported_signing_algs = [];
    skip_client_id_check = false;
    skip_expiry_check = false;
    skip_issuer_check = false;
  });
  cache = cache;
  allowed_algorithms = "RS256" ∷ "RS384" ∷ "RS512" ∷ [];
  required_claims = "exp" ∷ "iss" ∷ "sub" ∷ [];
  issuer_url = "";
  validate_claims_func = none;
  store_claims_in_context = true;
}

pub record AuthMiddlewareConfig (F C W : Type 0) : Type 0 where
  pub client_id : String
  pub provider : Option (OidcConfig → Verifier F W)
  pub cache : Option (TokenCache C)
  pub issuer_url : String
  pub allowed_algorithms : List String
  pub required_claims : List String
  pub validate_claims_func : Option (Claims F → Bool)
  pub store_claims_in_context : Bool
  pub skip_client_id_check : Bool
  pub skip_expiry_check : Bool
  pub skip_issuer_check : Bool

abbrev pub or_list : List String → List String → List String
or_list [] d = d
or_list (x ∷ xs) d = x ∷ xs

module _ {F C W : Type 0} where
  abbrev pub oidc_config : AuthMiddlewareConfig F C W → OidcConfig
  oidc_config config = record {
    client_id = config.client_id;
    supported_signing_algs = or_list config.allowed_algorithms ("RS256" ∷ "RS384" ∷ "RS512" ∷ []);
    skip_client_id_check = config.skip_client_id_check;
    skip_expiry_check = config.skip_expiry_check;
    skip_issuer_check = config.skip_issuer_check;
  }

  unfoldable pub new_auth_middleware_with_config :
      AuthMiddlewareConfig F C W → Result AuthError (AuthMiddleware F C W)
  new_auth_middleware_with_config config = do
    guard (not (str_eq config.client_id "")) client_id_required
    provider ← required config.provider provider_required
    cache ← required config.cache cache_required
    guard (not (str_eq config.issuer_url "")) issuer_url_required
    ok (record {
      verifier = provider (oidc_config config);
      cache = cache;
      allowed_algorithms = (oidc_config config).supported_signing_algs;
      required_claims = or_list config.required_claims ("exp" ∷ "iss" ∷ "sub" ∷ []);
      issuer_url = config.issuer_url;
      validate_claims_func = config.validate_claims_func;
      store_claims_in_context = true;
    })
