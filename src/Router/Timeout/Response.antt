-- ===== src/Router/Timeout/Response.antt =====
-- What the client is answered under TimeoutMiddleware.
use alya.Prelude.{List, [], ◌∷◌, none, some, String, true, false, ◌≡◌, ◌≢◌, refl, arith}
use alya.Router.Errors.{Registry, error_reply, request_timeout}
use alya.Router.Timeout.Writer.{aborted_with_json, wrote, calls_of}
use alya.Router.Timeout.Defs.{
  running, MainPc, selecting, returned, panicked, answered, gone, State, Event, handler_panics,
  handler_goes_on, takes_fin, start, handler_turn, take_fin, timeout_reply, step, run,
}
use alya.Router.Timeout.Invariant.{Inv, run-start-Inv, is_gone, panic_of}

-- After a timeout or a disconnection.
pub record AnsweredLate (reg : Registry) (s : State) : Type 0 where
  pub ended : is_gone s.handler ≡ true
  pub cause : s.ctx_err ≢ none
  pub own : wrote s.asked ≡ true → s.writer.calls ≡ calls_of s.asked
  pub failed :
      (p : String)
      → wrote s.asked ≡ false
      → panic_of s.handler ≡ some p
      → s.writer.calls
        ≡ aborted_with_json
            (record { status = 500; msg_id = reg.default_msg_id; err_code = reg.default_err_code })
          ∷ calls_of s.asked
  pub late :
      wrote s.asked ≡ false
      → panic_of s.handler ≡ none
      → s.writer.calls
        ≡ aborted_with_json (error_reply 504 reg.middleware request_timeout reg) ∷ calls_of s.asked

-- What is so when the request's goroutine is done, by the way in which it ended.
abbrev pub Responds : Registry → MainPc → State → Type 0
Responds reg returned s =
    (is_gone s.handler ≡ true)
    × (s.writer.calls ≡ calls_of s.asked)
    × (s.keys.timed_out ≡ false)
    × (s.keys.client_disconnected ≡ false)
Responds reg (panicked p) s =
    (panic_of s.handler ≡ some p)
    × (s.writer.calls ≡ calls_of s.asked)
    × (s.keys.panic_recovered ≡ true)
Responds reg (answered reply) s = AnsweredLate reg s
Responds reg m s = Unit {0}

-- The handler panics, its deferred function runs to its end, and the select takes finCh.
abbrev pub panic_steps : String → List Event
panic_steps p =
    handler_panics p
    ∷ handler_goes_on
    ∷ handler_goes_on
    ∷ handler_goes_on
    ∷ handler_goes_on
    ∷ handler_goes_on
    ∷ takes_fin
    ∷ []

abbrev after_panic : String → State → State
after_panic p s = record s {
  keys = record s.keys { panic_recovered = true; panic_value = some p };
  panic_ch = some p;
  fin_ch = false;
  handler = gone (some p);
  main = returned;
}

module _ (reg : Registry) where
  Responds-of_Inv : (m : MainPc) (s : State) → s.main ≡ m → Inv reg s → Responds reg m s
  unfolding timeout_reply
  Responds-of_Inv returned s e v = ground arith
  Responds-of_Inv (panicked p) s e v = ground arith
  Responds-of_Inv (answered reply) s e v = record {
    ended = ground arith;
    cause = v.caused (ground arith);
    own = λ h. ground arith;
    failed = λ p h g. ground arith;
    late = λ h g. ground arith;
  }
  Responds-of_Inv m s e v = tt

  -- Whatever the handler does and however the two goroutines, the clock and the client are
  -- interleaved: when the request's goroutine has returned by the select's last case, the handler is
  -- done, the writer was called as the handler asked and neither key of a timeout is set; when it
  -- has panicked, the handler panicked with the same value and nothing was written but what the
  -- handler asked; and when it went on after a timeout or a disconnection, the handler is done, and
  -- to its calls are added nothing if it asked for a header, else the reply 500 with the default id
  -- and code if it panicked, else the reply 504 with the registered id and code or the defaults. Of
  -- several headers that a handler asks for only the first is passed on.
  pub timeout_response :
      (es : List Event) (s : State) → run reg es start ≡ some s → Responds reg s.main s
  timeout_response es s done = Responds-of_Inv s.main s refl (run-start-Inv reg es done)

  -- Wherever a handler still runs and the request's goroutine is in the select, whatever came before,
  -- a panic of the handler may go by unseen: there is an order of the next steps in which the
  -- request's goroutine returns by the select's case for a handler that has completed, with the panic
  -- in panicCh, not raised again, and no call of the writer added.
  pub panic_swallowed :
      (es : List Event) (s : State) (p : String)
      → run reg es start ≡ some s
      → s.handler ≡ running
      → s.main ≡ selecting
      → (t : State) × (run reg (panic_steps p) s ≡ some t)
        × (t.main ≡ returned)
        × (t.panic_ch ≡ some p)
        × (t.writer.calls ≡ s.writer.calls)
  unfolding run step handler_turn take_fin
  panic_swallowed es s p done runs selects =
      let v = run-start-Inv reg es done in (after_panic p s, ground arith, refl, refl, refl)
