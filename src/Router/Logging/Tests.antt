-- ===== src/Router/Logging/Tests.antt =====
-- Examples of log entries.
use alya.Prelude.{List, [], ◌∷◌, Option, none, some, ◌≡◌, refl}
use alya.Prelude.Int.{pos}
use alya.Router.Errors.{initial_registry}
use alya.Router.Timeout.Defs.{
  State, Event, handler_panics, handler_goes_on, takes_panic, start, run, step, handler_turn,
  take_panic,
}
use alya.Router.Logging.{Request, Written, log_request, success, failure, get_status}
use alya.Router.Logging.Flags.{TellsTruth, log_request-TellsTruth}

abbrev a_request : Request
a_request = record {
  method = "GET";
  path = "/batches";
  client_ip = "10.0.0.1";
  content_length = pos 0;
  raw_query = "";
  user_agent = "curl";
  referer = "";
  trace_header = "t1";
  span_header = "";
}

abbrev a_response : Written
a_response = record { status = 500; size = pos 2 }

abbrev panic_events : List Event
panic_events =
    handler_panics "boom"
    ∷ handler_goes_on
    ∷ handler_goes_on
    ∷ handler_goes_on
    ∷ handler_goes_on
    ∷ takes_panic
    ∷ []

abbrev final : Option State → State
final none = start
final (some s) = s

abbrev after_panic : State
after_panic = final (run initial_registry panic_events start)

statuses : (get_status 200 ≡ success) × (get_status 399 ≡ success) × (get_status 400 ≡ failure)
unfolding get_status
statuses = (refl, refl, refl)

log_request-TellsTruth_example :
    TellsTruth (log_request a_request (pos 5) (pos 9) after_panic.keys a_response) after_panic
unfolding run step handler_turn take_panic
log_request-TellsTruth_example =
    log_request-TellsTruth initial_registry a_request (pos 5) (pos 9) a_response panic_events _ refl
      refl
