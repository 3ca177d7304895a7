-- ===== src/Router/Timeout/Writer.antt =====
-- timeoutWriter. Of the writer that it wraps the calls made on it are kept, the latest first; the
-- count and the error that a write answers are not. `AbortWithStatusJSON` is gin's and is kept as one
-- call. A hijacked connection is not modelled.
use alya.Prelude.{ℕ, List, [], ◌∷◌, String, Bool, true, false, if◌then◌else◌}
use alya.Router.Errors.{Reply}

pub data Call : Type 0 where
  header_written : (code : ℕ) → Call
  body_written : (text : String) → Call
  string_written : (text : String) → Call
  flushed : Call
  aborted_with_json : (reply : Reply) → Call

pub record TimeoutWriter : Type 0 where
  pub calls : List Call
  pub discard_writes : Bool
  pub wrote_header : Bool

unfoldable pub write : String → TimeoutWriter → TimeoutWriter
write text w = if w.discard_writes then w else record w { calls = body_written text ∷ w.calls }

unfoldable pub write_header : ℕ → TimeoutWriter → TimeoutWriter
write_header code w =
    if w.discard_writes
    then w
    else if w.wrote_header
    then w
    else record w { wrote_header = true; calls = header_written code ∷ w.calls }

unfoldable pub write_string : String → TimeoutWriter → TimeoutWriter
write_string text w =
    if w.discard_writes then w else record w { calls = string_written text ∷ w.calls }

unfoldable pub flush : TimeoutWriter → TimeoutWriter
flush w = if w.discard_writes then w else record w { calls = flushed ∷ w.calls }

-- What a handler may ask of the writer.
pub data Op : Type 0 where
  asks_header : (code : ℕ) → Op
  asks_write : (text : String) → Op
  asks_string : (text : String) → Op
  asks_flush : Op

abbrev pub perform_op : Op → TimeoutWriter → TimeoutWriter
perform_op (asks_header code) w = write_header code w
perform_op (asks_write text) w = write text w
perform_op (asks_string text) w = write_string text w
perform_op asks_flush w = flush w

-- Of a handler's requests, the latest first: whether one was for a header, and the calls that they
-- should come to, which are all of them but the headers after the first.
abbrev pub wrote : List Op → Bool
wrote [] = false
wrote (asks_header code ∷ ops) = true
wrote (asks_write text ∷ ops) = wrote ops
wrote (asks_string text ∷ ops) = wrote ops
wrote (asks_flush ∷ ops) = wrote ops

abbrev pub calls_of : List Op → List Call
calls_of [] = []
calls_of (asks_header code ∷ ops) =
    if wrote ops then calls_of ops else header_written code ∷ calls_of ops
calls_of (asks_write text ∷ ops) = body_written text ∷ calls_of ops
calls_of (asks_string text ∷ ops) = string_written text ∷ calls_of ops
calls_of (asks_flush ∷ ops) = flushed ∷ calls_of ops
