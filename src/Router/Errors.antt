-- ===== src/Router/Errors.antt =====
-- The message ids and error codes that the middlewares reply with: the maps and the defaults of
-- router/auth_middleware.go and router/timeout_middelware.go. A map is a list of its writes, the
-- latest first.
use alya.Prelude.{ℕ, List, [], ◌∷◌, Option, none, some, String, str_eq, if◌then◌else◌}
use alya.Prelude.Int.{ℤ, pos}

-- `AuthErrorScenario` and `MiddlewareErrorScenario`.
pub data Scenario : Type 0 where
  token_missing : Scenario
  token_cache_failed : Scenario
  token_verification_failed : Scenario
  request_timeout : Scenario

abbrev pub scenario_name : Scenario → String
scenario_name token_missing = "TokenMissing"
scenario_name token_cache_failed = "TokenCacheFailed"
scenario_name token_verification_failed = "TokenVerificationFailed"
scenario_name request_timeout = "RequestTimeout"

abbrev pub get_text {ℓ} : {A : Type ℓ} → String → List (String × A) → Option A
get_text key [] = none
get_text key ((k, v) ∷ rest) = if str_eq k key then some v else get_text key rest

pub record Registered : Type 0 where
  pub msg_ids : List (String × ℤ)
  pub err_codes : List (String × String)

-- The package's variables.
pub record Registry : Type 0 where
  pub auth : Registered
  pub middleware : Registered
  pub default_msg_id : ℤ
  pub default_err_code : String

abbrev pub no_registration : Registered
no_registration = record { msg_ids = []; err_codes = [] }

abbrev pub initial_registry : Registry
initial_registry = record {
  auth = no_registration;
  middleware = no_registration;
  default_msg_id = pos 0;
  default_err_code = "ROUTER_ERROR";
}

abbrev pub register_msg_id : String → ℤ → Registered → Registered
register_msg_id scenario id r = record r { msg_ids = (scenario, id) ∷ r.msg_ids }

abbrev pub register_err_code : String → String → Registered → Registered
register_err_code scenario code r = record r { err_codes = (scenario, code) ∷ r.err_codes }

abbrev pub register_auth_msg_id : String → ℤ → Registry → Registry
register_auth_msg_id scenario id reg = record reg { auth = register_msg_id scenario id reg.auth }

abbrev pub register_auth_err_code : String → String → Registry → Registry
register_auth_err_code scenario code reg = record reg {
  auth = register_err_code scenario code reg.auth;
}

abbrev pub register_middleware_msg_id : String → ℤ → Registry → Registry
register_middleware_msg_id scenario id reg = record reg {
  middleware = register_msg_id scenario id reg.middleware;
}

abbrev pub register_middleware_err_code : String → String → Registry → Registry
register_middleware_err_code scenario code reg = record reg {
  middleware = register_err_code scenario code reg.middleware;
}

abbrev pub set_default_msg_id : ℤ → Registry → Registry
set_default_msg_id id reg = record reg { default_msg_id = id }

abbrev pub set_default_err_code : String → Registry → Registry
set_default_err_code code reg = record reg { default_err_code = code }

-- What a middleware hands to `AbortWithStatusJSON`: the status and the one message of its body.
pub record Reply : Type 0 where
  pub status : ℕ
  pub msg_id : ℤ
  pub err_code : String

abbrev pub or_default {ℓ} : {A : Type ℓ} → A → Option A → A
or_default d none = d
or_default d (some a) = a

-- The registered id and code of a scenario, or the defaults.
unfoldable pub error_reply : ℕ → Registered → Scenario → Registry → Reply
error_reply status maps scenario reg = record {
  status = status;
  msg_id = or_default reg.default_msg_id (get_text (scenario_name scenario) maps.msg_ids);
  err_code = or_default reg.default_err_code (get_text (scenario_name scenario) maps.err_codes);
}
