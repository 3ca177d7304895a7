-- ===== src/Wscutils/Http.antt =====
-- How a handler takes what a request brings and answers it: BindJSON, GetRequestUser and the two
-- Send functions of wscutils/wscutils.go, and wscutils/http_v2.go. gin's context is what it answers;
-- the JSON decoders, the media type parser and `ParseInt` are parameters.
mod Binding
use alya.Prelude.{
  ℕ, List, [], ◌∷◌, Option, none, some, String, Bool, true, false, str_eq, if◌then◌else◌,
}
use alya.Prelude.Int.{ℤ, pos}
use alya.Prelude.Result.{Result, ok, err, ◌>>=◌, ◌>>◌, guard}
use alya.Wscutils.Messages.{Response, new_error_response}

pub data HttpError : Type 0 where
  body_empty : HttpError
  not_json : HttpError
  decode_failed : HttpError
  several_values : HttpError
  missing_parameter : HttpError
  invalid_parameter : HttpError
  missing_request_user : HttpError
  invalid_request_user : HttpError

-- What is sent: the status and the body.
pub record Sent (D : Type 0) : Type 0 where
  pub status : ℕ
  pub body : Response D

abbrev pub send_success_response : {D : Type 0} → Response D → Sent D
send_success_response response = record { status = 200; body = response }

abbrev pub send_error_response : {D : Type 0} → Response D → Sent D
send_error_response response = record { status = 400; body = response }

-- `bound` is what ShouldBindJSON made of the body; `none` is its error. The error is answered, too.
unfoldable pub bind_json : {D V : Type 0} → ℤ → String → Option V → Result (Sent D) V
bind_json msg_id_invalid_json err_code_invalid_json none =
    err (send_error_response (new_error_response msg_id_invalid_json err_code_invalid_json))
bind_json msg_id_invalid_json err_code_invalid_json (some v) = ok v

-- A value of gin's context.
pub data ContextValue : Type 0 where
  text_value : (t : String) → ContextValue
  other_value : ContextValue

unfoldable pub get_request_user : Option ContextValue → Result HttpError String
get_request_user none = err missing_request_user
get_request_user (some (text_value t)) = ok t
get_request_user (some other_value) = err invalid_request_user

unfoldable pub parse_int64_path_param : (String → Option ℤ) → String → Result HttpError ℤ
parse_int64_path_param parse_int value =
    if str_eq value ""
    then err missing_parameter
    else elim (parse_int value) [ none ↦ err invalid_parameter | some parsed ↦ ok parsed ]

-- What the decoder finds after the first value.
pub data Trailing : Type 0 where
  nothing_more : Trailing
  more : Trailing

abbrev pub is_end : Trailing → Bool
is_end nothing_more = true
is_end more = false

module _ (parse_media_type : String → Option String) where
  unfoldable pub require_json_content_type : String → Result HttpError (Unit {0})
  require_json_content_type content_type =
      if str_eq content_type "" then err not_json else elim (parse_media_type content_type) [
        | none ↦ err not_json
        | some media_type ↦ guard (str_eq media_type "application/json") not_json
      ]

  -- `decode` reads the envelope from a body: its data, and what follows. The destination is written
  -- only at the end.
  module _ {B V : Type 0} (decode : B → Option (V × Trailing)) where
    abbrev pub body_of : Option B → Result HttpError B
    body_of none = err body_empty
    body_of (some b) = ok b

    abbrev pub decoded : B → Result HttpError (V × Trailing)
    decoded b = elim (decode b) [ none ↦ err decode_failed | some r ↦ ok r ]

    unfoldable pub read_data : Option B → String → Result HttpError V
    read_data body content_type = do
      b ← body_of body
      require_json_content_type content_type
      value ← decoded b
      guard (is_end value.1) several_values
      ok value.0

    -- The destination after the call, and the error.
    unfoldable pub bind_data : Option B → String → V → V × Option HttpError
    bind_data body content_type dst = elim (read_data body content_type) [
      | err e ↦ (dst, some e)
      | ok v ↦ (v, none)
    ]
