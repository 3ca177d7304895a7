-- ===== src/Router/Timeout/Tests.antt =====
-- Requests under TimeoutMiddleware, step by step.
use alya.Prelude.{◌≤◌, List, [], ◌∷◌, Option, none, some, ◌≡◌, refl, length}
use alya.Prelude.Int.{pos}
use alya.Router.Errors.{Registry, initial_registry, register_middleware_msg_id}
use alya.Router.Timeout.Writer.{
  header_written, body_written, aborted_with_json, asks_header, asks_write, write, write_header,
}
use alya.Router.Timeout.Defs.{
  deadline_exceeded, canceled, answered, returned, panicked, State, Event, handler_asks,
  handler_returns, handler_panics, handler_goes_on, context_ends, takes_panic, takes_done,
  takes_fin, main_goes_on, start, run, step, handler_turn, take_panic, take_done, take_fin,
  main_turn, timeout_reply,
}
use alya.Router.Errors.{error_reply}
use alya.Router.Timeout.Progress.{IsStuck, IsFinished, timeout_ends}
use alya.Router.Timeout.Response.{Responds, panic_steps, timeout_response, panic_swallowed}

abbrev a_registry : Registry
a_registry = register_middleware_msg_id "RequestTimeout" (pos 504) initial_registry

abbrev late_events : List Event
late_events =
    context_ends deadline_exceeded
    ∷ takes_done
    ∷ main_goes_on
    ∷ main_goes_on
    ∷ handler_asks (asks_write "late")
    ∷ handler_returns
    ∷ handler_goes_on
    ∷ takes_fin
    ∷ main_goes_on
    ∷ []

abbrev final : Option State → State
final none = start
final (some s) = s

-- A body without a header after the deadline: the reply comes on top of it.
late_calls :
    (final (run a_registry late_events start)).writer.calls
    ≡ aborted_with_json (record { status = 504; msg_id = pos 504; err_code = "ROUTER_ERROR" })
      ∷ body_written "late"
      ∷ []
unfolding run step handler_turn take_done take_fin main_turn timeout_reply error_reply write
late_calls = refl

-- A header after the deadline: the handler's response stands.
header_calls :
    (final (
      run a_registry
        (context_ends canceled
          ∷ takes_done
          ∷ main_goes_on
          ∷ main_goes_on
          ∷ handler_asks (asks_header 200)
          ∷ handler_asks (asks_header 500)
          ∷ handler_asks (asks_write "late")
          ∷ handler_returns
          ∷ handler_goes_on
          ∷ takes_fin
          ∷ main_goes_on
          ∷ [])
        start)).writer.calls
    ≡ body_written "late" ∷ header_written 200 ∷ []
unfolding run step handler_turn take_done take_fin main_turn timeout_reply write write_header
header_calls = refl

-- A panic that is raised again.
re_panic :
    (final (
      run a_registry
        (handler_panics "boom"
          ∷ handler_goes_on
          ∷ handler_goes_on
          ∷ handler_goes_on
          ∷ handler_goes_on
          ∷ takes_panic
          ∷ handler_goes_on
          ∷ [])
        start)).main
    ≡ panicked "boom"
unfolding run step handler_turn take_panic
re_panic = refl

timeout_response_example :
    Responds a_registry
      (answered (some (record { status = 504; msg_id = pos 504; err_code = "ROUTER_ERROR" })))
      (final (run a_registry late_events start))
unfolding run step handler_turn take_done take_fin main_turn timeout_reply error_reply write
timeout_response_example = timeout_response a_registry late_events _ refl

panic_swallowed_example :
    (t : State) × (run a_registry (panic_steps "boom") start ≡ some t)
    × (t.main ≡ returned)
    × (t.panic_ch ≡ some "boom")
    × (t.writer.calls ≡ [])
unfolding run
panic_swallowed_example = panic_swallowed a_registry [] start "boom" refl refl refl

timeout_ends_example :
    (length (handler_returns ∷ handler_goes_on ∷ takes_fin ∷ []) ≤ 11)
    × (IsStuck a_registry
          (final (run a_registry (handler_returns ∷ handler_goes_on ∷ takes_fin ∷ []) start))
        → IsFinished
            (final (run a_registry (handler_returns ∷ handler_goes_on ∷ takes_fin ∷ []) start)))
unfolding run step handler_turn take_fin
timeout_ends_example =
    timeout_ends a_registry [] (handler_returns ∷ handler_goes_on ∷ takes_fin ∷ []) start _ refl
      (refl, (refl, (refl, tt))) refl
