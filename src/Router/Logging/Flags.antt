-- ===== src/Router/Logging/Flags.antt =====
-- What the log of a request says of its timeout and of its panic.
use alya.Prelude.{List, Option, some, String, true, ◌≡◌, ◌↔◌, refl, arith}
use alya.Prelude.Int.{ℤ}
use alya.Router.Errors.{Registry}
use alya.Router.Timeout.Defs.{
  Cause, deadline_exceeded, canceled, MainPc, answered, State, Event, run, start,
}
use alya.Router.Timeout.Invariant.{Inv, run-start-Inv, panic_of, is_some}
use alya.Router.Timeout.Progress.{main_rest}
use alya.Router.Logging.{Request, Written, RequestInfo, log_request}

-- What the log should say, by the way in which the request's goroutine ended.
abbrev pub EndedBy : Cause → MainPc → Option Cause → Type 0
EndedBy cause (answered reply) err = err ≡ some cause
EndedBy cause m err = ⊥

pub record TellsTruth (info : RequestInfo) (s : State) : Type 0 where
  pub timeout : (info.timed_out ≡ true) ↔ EndedBy deadline_exceeded s.main s.ctx_err
  pub disconnection : (info.client_disconnected ≡ true) ↔ EndedBy canceled s.main s.ctx_err
  pub panic : info.panic_recovered ≡ is_some (panic_of s.handler)
  pub value : (p : String) → panic_of s.handler ≡ some p → info.panic_value ≡ p

module _ (reg : Registry) where
  TellsTruth-of_Inv :
      (request : Request) (began ended : ℤ) (written : Written) (m : MainPc) (s : State)
      → s.main ≡ m
      → main_rest m ≡ 0
      → Inv reg s
      → TellsTruth (log_request request began ended s.keys written) s
  unfolding log_request
  TellsTruth-of_Inv request began ended written m s e h v = record {
    timeout = ground arith;
    disconnection = ground arith;
    panic = ground arith;
    value = λ p q. ground arith;
  }

  -- A request's log entry, written when the request's goroutine has ended in whatever way: it tells
  -- of a timeout exactly when the goroutine went on after the deadline, of a disconnection exactly
  -- when it went on after the context was cancelled, of a panic exactly when the handler has
  -- panicked, and then with the panic's text.
  pub log_request-TellsTruth :
      (request : Request) (began ended : ℤ) (written : Written) (es : List Event) (s : State)
      → run reg es start ≡ some s
      → main_rest s.main ≡ 0
      → TellsTruth (log_request request began ended s.keys written) s
  log_request-TellsTruth request began ended written es s done h =
      TellsTruth-of_Inv request began ended written s.main s refl h (run-start-Inv reg es done)
