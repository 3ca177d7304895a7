-- ===== src/Restutils/Bind/Tests.antt =====
-- Requests to bind, with bodies that are texts: the decoder takes the text "{}".
use alya.Prelude.{ℕ, none, some, String, str_eq, ◌≡◌, ◌↔◌, refl, if◌then◌else◌}
use alya.Prelude.Result.{Result, ok, err}
use alya.Restutils.Types.{BindError}
use alya.Restutils.Problem.{bind_error, problem_from_bind_error, write_problem}
use alya.Restutils.Bind.{
  DecodeError, end_of_file, message, Texts, Request, is_json, require_json_content_type, bind_body,
}
use alya.Restutils.Bind.Answers.{IsTaken, IsAnswered, bind_body_answers}

abbrev some_texts : Texts
some_texts = record {
  decimal = λ x. "0";
  quoted = λ t. t;
  trim_quotes = λ t. t;
  parse_media_type = λ t. some t;
}

abbrev decode_text : String → Result DecodeError (ℕ × String)
decode_text body = if str_eq body "{}" then ok (1, "") else err (message "json: unknown field x")

abbrev decode_any_text : String → Result DecodeError String
decode_any_text body = if str_eq body "" then err end_of_file else ok ""

abbrev a_request : Request String
a_request = record { body = some "{}"; content_type = "text/plain" }

abbrev map_status : Result BindError ℕ → ℕ
map_status (ok v) = 200
map_status (err e) = (write_problem none none (problem_from_bind_error (bind_error e))).status

taken :
    bind_body some_texts decode_text decode_any_text
      (record a_request { content_type = "application/json" })
    ≡ ok 1
unfolding bind_body require_json_content_type is_json
taken = refl

refused : map_status (bind_body some_texts decode_text decode_any_text a_request) ≡ 415
unfolding bind_body require_json_content_type is_json problem_from_bind_error write_problem
refused = refl

bind_body_answers_example :
    ((v : ℕ)
      → (bind_body some_texts decode_text decode_any_text a_request ≡ ok v)
        ↔ IsTaken some_texts decode_text decode_any_text a_request v)
    × ((e : BindError)
        → bind_body some_texts decode_text decode_any_text a_request ≡ err e
        → IsAnswered some_texts decode_text decode_any_text a_request e
            (write_problem none none (problem_from_bind_error (bind_error e))))
bind_body_answers_example =
    bind_body_answers some_texts decode_text decode_any_text a_request none none
