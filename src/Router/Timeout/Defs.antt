-- ===== src/Router/Timeout/Defs.antt =====
-- The states of a request under TimeoutMiddleware and the steps between them.
use alya.Prelude.{List, [], ◌∷◌, Option, none, some, String, Bool, true, false, if◌then◌else◌}
use alya.Router.Errors.{Reply, Registry, error_reply, request_timeout}
use alya.Router.Timeout.Writer.{Op, TimeoutWriter, perform_op, aborted_with_json}

-- `ctx.Err()` of the request's context.
pub data Cause : Type 0 where
  deadline_exceeded : Cause
  canceled : Cause

-- The goroutine of the handler. The last two know the value of a panic, if there was one.
pub data HandlerPc : Type 0 where
  running : HandlerPc  -- in `c.Next`
  recovered : (p : String) → HandlerPc  -- before the first `c.Set`
  keyed : (p : String) → HandlerPc  -- before the second
  valued : (p : String) → HandlerPc  -- before `timedOut.Load`
  sending : (p : String) → HandlerPc  -- before the send on panicCh
  finishing : (panic : Option String) → HandlerPc  -- before the send on finCh
  gone : (panic : Option String) → HandlerPc

-- The goroutine of the request.
pub data MainPc : Type 0 where
  selecting : MainPc
  expired : MainPc  -- before `timedOut.Store`
  marking : MainPc  -- before `c.Set`
  waiting : MainPc  -- before `<-finCh`
  deciding : MainPc  -- after it
  returned : MainPc  -- by the last case of the select
  panicked : (p : String) → MainPc
  answered : (reply : Option Reply) → MainPc  -- after a timeout, with what was sent

-- The keys of the context: whether each is set, and the text of the panic.
pub record Keys : Type 0 where
  pub timed_out : Bool
  pub client_disconnected : Bool
  pub panic_recovered : Bool
  pub panic_value : Option String

-- `asked` is what the handler asked of the writer, the latest first. Both channels hold one value.
pub record State : Type 0 where
  pub writer : TimeoutWriter
  pub keys : Keys
  pub timed_out : Bool
  pub panic_ch : Option String
  pub fin_ch : Bool
  pub ctx_err : Option Cause
  pub handler : HandlerPc
  pub main : MainPc
  pub asked : List Op

abbrev pub start : State
start = record {
  writer = record { calls = []; discard_writes = false; wrote_header = false };
  keys = record {
    timed_out = false;
    client_disconnected = false;
    panic_recovered = false;
    panic_value = none;
  };
  timed_out = false;
  panic_ch = none;
  fin_ch = false;
  ctx_err = none;
  handler = running;
  main = selecting;
  asked = [];
}

-- The handler is arbitrary: while it runs, it may ask the writer for anything, return or panic.
pub data Event : Type 0 where
  handler_asks : (op : Op) → Event
  handler_returns : Event
  handler_panics : (p : String) → Event
  handler_goes_on : Event
  context_ends : (cause : Cause) → Event
  takes_panic : Event
  takes_done : Event
  takes_fin : Event
  main_goes_on : Event

-- A step that is blocked or not there is `none`.
abbrev in_handler : HandlerPc → State → Option State
in_handler running s = some s
in_handler h s = none

-- The deferred function of the handler's goroutine.
unfoldable pub handler_turn : HandlerPc → State → Option State
handler_turn running s = none
handler_turn (recovered p) s =
    some (record s { keys = record s.keys { panic_recovered = true }; handler = keyed p })
handler_turn (keyed p) s =
    some (record s { keys = record s.keys { panic_value = some p }; handler = valued p })
handler_turn (valued p) s =
    some (record s { handler = if s.timed_out then finishing (some p) else sending p })
handler_turn (sending p) s = elim s.panic_ch [
  | none ↦ some (record s { panic_ch = some p; handler = finishing (some p) })
  | some q ↦ none
]
handler_turn (finishing panic) s =
    if s.fin_ch then none else some (record s { fin_ch = true; handler = gone panic })
handler_turn (gone panic) s = none

-- The three cases of the select.
unfoldable pub take_panic : MainPc → State → Option State
take_panic selecting s = elim s.panic_ch [
  | none ↦ none
  | some p ↦ some (record s { panic_ch = none; main = panicked p })
]
take_panic m s = none

unfoldable pub take_done : MainPc → State → Option State
take_done selecting s = elim s.ctx_err [ none ↦ none | some c ↦ some (record s { main = expired }) ]
take_done m s = none

-- In the select, and after a timeout.
unfoldable pub take_fin : MainPc → State → Option State
take_fin selecting s =
    if s.fin_ch then some (record s { fin_ch = false; main = returned }) else none
take_fin waiting s = if s.fin_ch then some (record s { fin_ch = false; main = deciding }) else none
take_fin m s = none

abbrev pub mark_cause : Option Cause → Keys → Keys
mark_cause (some deadline_exceeded) k = record k { timed_out = true }
mark_cause cause k = record k { client_disconnected = true }

-- The reply after a timeout, once the handler is done.
unfoldable pub timeout_reply : Registry → Bool → Bool → Option Reply
timeout_reply reg handler_panicked handler_wrote =
    if handler_wrote
    then none
    else if handler_panicked
    then some
        (record { status = 500; msg_id = reg.default_msg_id; err_code = reg.default_err_code })
    else some (error_reply 504 reg.middleware request_timeout reg)

abbrev send_reply : Option Reply → TimeoutWriter → TimeoutWriter
send_reply none w = w
send_reply (some r) w = record w { calls = aborted_with_json r ∷ w.calls }

module _ (reg : Registry) where
  unfoldable pub main_turn : MainPc → State → Option State
  main_turn expired s = some (record s { timed_out = true; main = marking })
  main_turn marking s = some (record s { keys = mark_cause s.ctx_err s.keys; main = waiting })
  main_turn deciding s =
      let reply = timeout_reply reg s.keys.panic_recovered s.writer.wrote_header in
      some (record s { writer = send_reply reply s.writer; main = answered reply })
  main_turn m s = none

  unfoldable pub step : Event → State → Option State
  step (handler_asks op) s =
      in_handler s.handler (record s { writer = perform_op op s.writer; asked = op ∷ s.asked })
  step handler_returns s = in_handler s.handler (record s { handler = finishing none })
  step (handler_panics p) s = in_handler s.handler (record s { handler = recovered p })
  step handler_goes_on s = handler_turn s.handler s
  step (context_ends cause) s = elim s.ctx_err [
    | none ↦ some (record s { ctx_err = some cause })
    | some c ↦ none
  ]
  step takes_panic s = take_panic s.main s
  step takes_done s = take_done s.main s
  step takes_fin s = take_fin s.main s
  step main_goes_on s = main_turn s.main s

  unfoldable pub run : List Event → State → Option State
  run [] s = some s
  run (e ∷ es) s = elim (step e s) [ none ↦ none | some t ↦ run es t ]
