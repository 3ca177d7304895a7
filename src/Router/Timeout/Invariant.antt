-- ===== src/Router/Timeout/Invariant.antt =====
-- What holds of a request under TimeoutMiddleware at every moment.
use alya.Prelude.{
  List, [], ◌∷◌, ◌++◌, Option, none, some, String, Bool, true, false, not, ◌&&◌, ◌≡◌, ◌≢◌, ◌⊎◌,
  refl, arith, Option-cases, inl, inr,
}
use alya.Router.Errors.{Registry}
use alya.Router.Timeout.Writer.{
  Call, aborted_with_json, Op, write, write_header, write_string, flush, perform_op, wrote,
  calls_of,
}
use alya.Router.Timeout.Defs.{
  Cause, deadline_exceeded, canceled, HandlerPc, running, recovered, keyed, valued, sending,
  finishing, gone, MainPc, selecting, marking, waiting, deciding, returned, panicked, answered,
  State, Event, handler_asks, handler_returns, handler_panics, handler_goes_on, context_ends,
  takes_panic, takes_done, takes_fin, main_goes_on, start, handler_turn, take_panic, take_done,
  take_fin, timeout_reply, main_turn, step, run,
}

-- What the handler's goroutine has done by each point.
abbrev pub is_some {ℓ} : {A : Type ℓ} → Option A → Bool
is_some none = false
is_some (some a) = true

abbrev pub is_gone : HandlerPc → Bool
is_gone (gone panic) = true
is_gone h = false

abbrev pub panic_of : HandlerPc → Option String
panic_of running = none
panic_of (recovered p) = some p
panic_of (keyed p) = some p
panic_of (valued p) = some p
panic_of (sending p) = some p
panic_of (finishing panic) = panic
panic_of (gone panic) = panic

abbrev pub has_marked : HandlerPc → Bool
has_marked running = false
has_marked (recovered p) = false
has_marked (keyed p) = true
has_marked (valued p) = true
has_marked (sending p) = true
has_marked (finishing panic) = is_some panic
has_marked (gone panic) = is_some panic

abbrev pub value_of : HandlerPc → Option String
value_of running = none
value_of (recovered p) = none
value_of (keyed p) = none
value_of (valued p) = some p
value_of (sending p) = some p
value_of (finishing panic) = panic
value_of (gone panic) = panic

abbrev pub has_sent : HandlerPc → Bool
has_sent (finishing panic) = true
has_sent (gone panic) = true
has_sent h = false

-- What the request's goroutine has done by each point.
abbrev pub took_fin : MainPc → Bool
took_fin deciding = true
took_fin returned = true
took_fin (answered reply) = true
took_fin m = false

abbrev pub timed_out_of : MainPc → Option Cause → Bool
timed_out_of waiting (some deadline_exceeded) = true
timed_out_of deciding (some deadline_exceeded) = true
timed_out_of (answered reply) (some deadline_exceeded) = true
timed_out_of m cause = false

abbrev pub disconnected_of : MainPc → Option Cause → Bool
disconnected_of waiting (some canceled) = true
disconnected_of deciding (some canceled) = true
disconnected_of (answered reply) (some canceled) = true
disconnected_of m cause = false

abbrev pub has_stored : MainPc → Bool
has_stored marking = true
has_stored waiting = true
has_stored deciding = true
has_stored (answered reply) = true
has_stored m = false

-- The points after `<-ctx.Done()`.
abbrev pub saw_done : MainPc → Bool
saw_done selecting = false
saw_done returned = false
saw_done (panicked p) = false
saw_done m = true

abbrev pub replied : MainPc → List Call
replied (answered (some r)) = aborted_with_json r ∷ []
replied m = []

abbrev pub RePanicked : MainPc → HandlerPc → Type 0
RePanicked (panicked p) h = (panic_of h ≡ some p) × (has_sent h ≡ true)
RePanicked m h = Unit {0}

abbrev pub Replied : Registry → MainPc → HandlerPc → List Op → Type 0
Replied reg (answered r) h ops = r ≡ timeout_reply reg (is_some (panic_of h)) (wrote ops)
Replied reg m h ops = Unit {0}

pub record Inv (reg : Registry) (s : State) : Type 0 where
  pub calls : s.writer.calls ≡ replied s.main ++ calls_of s.asked
  pub header : s.writer.wrote_header ≡ wrote s.asked
  pub kept : s.writer.discard_writes ≡ false
  pub fin : s.fin_ch ≡ (is_gone s.handler && not (took_fin s.main))
  pub waited : took_fin s.main ≡ true → is_gone s.handler ≡ true
  pub marked : s.keys.panic_recovered ≡ has_marked s.handler
  pub value : s.keys.panic_value ≡ value_of s.handler
  pub unsent : has_sent s.handler ≡ false → s.panic_ch ≡ none
  pub sent : (s.panic_ch ≡ none) ⊎ (s.panic_ch ≡ panic_of s.handler)
  pub passed : RePanicked s.main s.handler
  pub stored : s.timed_out ≡ has_stored s.main
  pub timed : s.keys.timed_out ≡ timed_out_of s.main s.ctx_err
  pub dropped : s.keys.client_disconnected ≡ disconnected_of s.main s.ctx_err
  pub caused : saw_done s.main ≡ true → s.ctx_err ≢ none
  pub reply : Replied reg s.main s.handler s.asked

start-Inv : (reg : Registry) → Inv reg start
start-Inv reg = ground arith

module _ (reg : Registry) where
  handler_turn-Inv :
      (x : HandlerPc) (s : State) {t : State}
      → s.handler ≡ x
      → handler_turn x s ≡ some t
      → Inv reg s
      → Inv reg t
  unfolding handler_turn
  handler_turn-Inv x s e done v = ground arith

  take_panic-Inv :
      (x : MainPc) (s : State) {t : State}
      → s.main ≡ x
      → take_panic x s ≡ some t
      → Inv reg s
      → Inv reg t
  unfolding take_panic
  take_panic-Inv x s e done v = ground arith

  take_done-Inv :
      (x : MainPc) (s : State) {t : State}
      → s.main ≡ x
      → take_done x s ≡ some t
      → Inv reg s
      → Inv reg t
  unfolding take_done
  take_done-Inv x s e done v = ground arith

  take_fin-Inv :
      (x : MainPc) (s : State) {t : State}
      → s.main ≡ x
      → take_fin x s ≡ some t
      → Inv reg s
      → Inv reg t
  unfolding take_fin
  take_fin-Inv x s e done v = ground arith

  main_turn-Inv :
      (x : MainPc) (s : State) {t : State}
      → s.main ≡ x
      → main_turn reg x s ≡ some t
      → Inv reg s
      → Inv reg t
  unfolding main_turn
  main_turn-Inv x s e done v = ground arith

  asks-Inv :
      (op : Op) (s : State)
      → s.handler ≡ running
      → Inv reg s
      → Inv reg (record s { writer = perform_op op s.writer; asked = op ∷ s.asked })
  unfolding write write_header write_string flush
  asks-Inv op s e v = ground arith

  -- Every step keeps it.
  pub step-Inv : (e : Event) (s : State) {t : State} → step reg e s ≡ some t → Inv reg s → Inv reg t
  unfolding step
  step-Inv (handler_asks op) s done v = ground (arith, asks-Inv op s)
  step-Inv handler_returns s done v = ground arith
  step-Inv (handler_panics p) s done v = ground arith
  step-Inv handler_goes_on s done v = handler_turn-Inv s.handler s refl done v
  step-Inv (context_ends cause) s done v = ground arith
  step-Inv takes_panic s done v = take_panic-Inv s.main s refl done v
  step-Inv takes_done s done v = take_done-Inv s.main s refl done v
  step-Inv takes_fin s done v = take_fin-Inv s.main s refl done v
  step-Inv main_goes_on s done v = main_turn-Inv s.main s refl done v

  pub run-Inv :
      (es : List Event) (s : State) {t : State} → run reg es s ≡ some t → Inv reg s → Inv reg t
  unfolding run
  run-Inv [] s done v = ground arith
  run-Inv (e ∷ es) s done v = elim (Option-cases (step reg e s)) [
    | inl stuck ↦ ground arith
    | inr (t, stepped) ↦ run-Inv es t (ground arith) (step-Inv e s stepped v)
  ]

  pub run-start-Inv : (es : List Event) {t : State} → run reg es start ≡ some t → Inv reg t
  run-start-Inv es done = run-Inv es start done (start-Inv reg)
