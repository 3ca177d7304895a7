-- ===== src/Router/Auth/Types.antt =====
-- The types of router/auth_middleware.go, and the header of a request.
use alya.Prelude.{List, Option, String, Bool, str_eq, if◌then◌else◌, starts_with, slice, len}
use alya.Prelude.Result.{Result, ok, err}

-- What a claim holds, as far as the checks tell it apart.
pub data Claim (F : Type 0) : Type 0 where
  number : (x : F) → Claim F
  text : (t : String) → Claim F
  other : Claim F

-- `jwt.MapClaims`.
abbrev pub Claims : Type 0 → Type 0
Claims F = List (String × Claim F)

-- `TokenCache`, on the state C of the cache; `none` and `false` are errors.
pub record TokenCache (C : Type 0) : Type 0 where
  pub get : String → C → Option Bool
  pub set : String → C → C × Bool

-- The fields of `oidc.Config` that are set.
pub record OidcConfig : Type 0 where
  pub client_id : String
  pub supported_signing_algs : List String
  pub skip_client_id_check : Bool
  pub skip_expiry_check : Bool
  pub skip_issuer_check : Bool

-- `Verify` and then `Claims`, at a state W of the world: `none` where the token is refused, and
-- `some none` where its claims cannot be read.
abbrev pub Verifier : Type 0 → Type 0 → Type 0
Verifier F W = W → String → Option (Option (Claims F))

pub record AuthMiddleware (F C W : Type 0) : Type 0 where
  pub verifier : Verifier F W
  pub cache : TokenCache C
  pub allowed_algorithms : List String
  pub required_claims : List String
  pub issuer_url : String
  pub validate_claims_func : Option (Claims F → Bool)
  pub store_claims_in_context : Bool

pub data AuthError : Type 0 where
  bad_header : AuthError
  empty_token : AuthError
  oidc_verification_failed : AuthError
  claims_unreadable : AuthError
  cached_token_unparsed : AuthError
  cached_claims_unreadable : AuthError
  header_unparsed : AuthError
  algorithm_not_allowed : AuthError
  token_expired : AuthError
  missing_claim : (name : String) → AuthError
  not_valid_yet : AuthError
  issued_in_future : AuthError
  invalid_issuer : AuthError
  custom_validation_failed : AuthError
  client_id_required : AuthError
  provider_required : AuthError
  cache_required : AuthError
  issuer_url_required : AuthError

-- What `c.Set` stores.
pub data ContextValue (F : Type 0) : Type 0 where
  claims_value : (claims : Claims F) → ContextValue F
  verified_value : ContextValue F
  text_value : (t : String) → ContextValue F

unfoldable pub extract_token : String → Result AuthError String
extract_token header_value =
    if starts_with header_value "Bearer "
    then (let token = slice header_value (len "Bearer ") (len header_value) in
        if str_eq token "" then err empty_token else ok token)
    else err bad_header
