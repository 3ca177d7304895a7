-- ===== src/Router/Logging.antt =====
-- LogRequest and the adapter of LogHarbour (router/logging_middleware.go). An instant and a duration
-- are nanoseconds.
mod Flags
mod Tests
use alya.Prelude.{
  ℕ, zero, suc, ◌+◌, List, [], ◌∷◌, ◌++◌, Option, none, some, String, Bool, true, false, not, ◌&&◌,
  str_eq, leb, ltb, if◌then◌else◌,
}
use alya.Prelude.Int.{ℤ, pos, ◌-ℤ◌, quotient}
use alya.Router.Timeout.Defs.{Keys}

-- What a request's log entry is made of, besides the context's keys: gin's request and writer.
pub record Request : Type 0 where
  pub method : String
  pub path : String
  pub client_ip : String
  pub content_length : ℤ
  pub raw_query : String
  pub user_agent : String
  pub referer : String
  pub trace_header : String
  pub span_header : String

pub record Written : Type 0 where
  pub status : ℕ
  pub size : ℤ

pub record RequestInfo : Type 0 where
  pub method : String
  pub path : String
  pub client_ip : String
  pub status_code : ℕ
  pub start_time : ℤ
  pub duration : ℤ
  pub request_size : ℤ
  pub response_size : ℤ
  pub query : String
  pub user_agent : String
  pub referer : String
  pub trace_id : String
  pub span_id : String
  pub timed_out : Bool
  pub client_disconnected : Bool
  pub panic_recovered : Bool
  pub panic_value : String

abbrev text_or_empty : Option String → String
text_or_empty none = ""
text_or_empty (some t) = t

-- `start_time` is the clock before `c.Next`, `end_time` the clock after it; `keys` and `written` are
-- what `c.Next` left.
unfoldable pub log_request : Request → ℤ → ℤ → Keys → Written → RequestInfo
log_request request start_time end_time keys written = record {
  method = request.method;
  path = request.path;
  client_ip = request.client_ip;
  status_code = written.status;
  start_time = start_time;
  duration = end_time -ℤ start_time;
  request_size = request.content_length;
  response_size = written.size;
  query = request.raw_query;
  user_agent = request.user_agent;
  referer = request.referer;
  trace_id = request.trace_header;
  span_id = request.span_header;
  timed_out = keys.timed_out;
  client_disconnected = keys.client_disconnected;
  panic_recovered = keys.panic_recovered;
  panic_value = text_or_empty keys.panic_value;
}

-- LogHarbour's status and the values of an activity's fields.
pub data LogStatus : Type 0 where
  success : LogStatus
  failure : LogStatus

pub data Value : Type 0 where
  text_value : (t : String) → Value
  status_value : (n : ℕ) → Value
  number_value : (x : ℤ) → Value
  flag_value : (b : Bool) → Value

unfoldable pub get_status : ℕ → LogStatus
get_status status_code = if leb 200 status_code && ltb status_code 400 then success else failure

abbrev pub with_id : String → String → List (String × Value)
with_id key id = if str_eq id "" then [] else (key, text_value id) ∷ []

abbrev pub with_flag : String → Bool → List (String × Value)
with_flag key b = if b then (key, flag_value true) ∷ [] else []

-- `format_time` is `Time.Format` with RFC 3339 and `format_duration` is `Duration.String`.
module _ (format_time : ℤ → String) (format_duration : ℤ → String) where
  unfoldable pub activity_data : RequestInfo → List (String × Value)
  activity_data info =
      (("method", text_value info.method)
        ∷ ("path", text_value info.path)
        ∷ ("status", status_value info.status_code)
        ∷ ("start_time", text_value (format_time info.start_time))
        ∷ ("duration_ms", number_value (quotient info.duration 1000000))
        ∷ ("duration", text_value (format_duration info.duration))
        ∷ ("request_size", number_value info.request_size)
        ∷ ("response_size", number_value info.response_size)
        ∷ ("query", text_value info.query)
        ∷ ("user_agent", text_value info.user_agent)
        ∷ ("referer", text_value info.referer)
        ∷ [])
      ++ (with_id "trace_id" info.trace_id
          ++ (with_id "span_id" info.span_id
              ++ (with_flag "timed_out" info.timed_out
                  ++ (with_flag "client_disconnected" info.client_disconnected
                      ++ (if info.panic_recovered
                          then ("panic_recovered", flag_value true)
                            ∷ ("panic_value", text_value info.panic_value)
                            ∷ []
                          else [])))))
