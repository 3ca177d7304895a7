-- ===== src/Restutils/Problem.antt =====
-- restutils/problem.go and restutils/response.go.
use alya.Prelude.{ℕ, List, [], ◌∷◌, Option, none, some, String, str_eq, ◌==◌, if◌then◌else◌}
use alya.Prelude.Int.{pos}
use alya.Restutils.Types.{
  FieldError, Problem, BindError, BindErrorKind, invalid_content_type, unknown_field,
  new_field_error,
}

abbrev pub new_problem : ℕ → String → String → String → Problem
new_problem status type_uri title detail = record {
  type_uri = type_uri;
  title = title;
  status = status;
  detail = detail;
  instance_path = "";
  trace_id = "";
  errors = [];
}

unfoldable pub validation_problem : List FieldError → Problem
validation_problem errors =
    record (new_problem 422 "https://alya.dev/problems/validation" "Validation failed" "") {
      errors = errors;
    }

abbrev pub internal_server_error : Problem
internal_server_error =
    new_problem 500 "https://alya.dev/problems/internal" "Internal server error"
      "the server could not process the request"

abbrev pub bad_request : String → Problem
bad_request = new_problem 400 "https://alya.dev/problems/bad-request" "Bad request"

-- An error is a bind error or another one, of which only the text is used.
pub data AnyError : Type 0 where
  bind_error : (e : BindError) → AnyError
  other_error : (text : String) → AnyError

abbrev pub problem_of_kind : BindErrorKind → BindError → Problem
problem_of_kind invalid_content_type e =
    new_problem 415 "https://alya.dev/problems/unsupported-media-type" "Unsupported media type"
      e.detail
problem_of_kind unknown_field e = record (bad_request e.detail) {
  errors = new_field_error (pos 104) "invalid" e.field [] e.detail [] ∷ [];
}
problem_of_kind kind e = bad_request e.detail

unfoldable pub problem_from_bind_error : AnyError → Problem
problem_from_bind_error (other_error text) = bad_request text
problem_from_bind_error (bind_error e) = problem_of_kind e.kind e

-- What is written: the status, the headers that are set, and the body.
pub record Written (B : Type 0) : Type 0 where
  pub status : ℕ
  pub headers : List (String × String)
  pub body : Option B

-- gin's request: its path, if it has a URL, and the trace id in the context, if it is a string.
unfoldable pub write_problem : Option String → Option String → Problem → Written Problem
write_problem path trace p =
    let status = if p.status == 0 then 500 else p.status in
    let instance_path : String =
      if str_eq p.instance_path ""
      then elim path [ none ↦ p.instance_path | some u ↦ u ]
      else p.instance_path in
    let trace_id : String =
      if str_eq p.trace_id "" then elim trace [ none ↦ p.trace_id | some t ↦ t ] else p.trace_id in
    record {
      status = status;
      headers = ("Content-Type", "application/problem+json") ∷ [];
      body =
          some (record p { status = status; instance_path = instance_path; trace_id = trace_id });
    }

abbrev pub write_json : {B : Type 0} → ℕ → B → Written B
write_json status content = record { status = status; headers = []; body = some content }

abbrev pub write_ok : {B : Type 0} → B → Written B
write_ok content = write_json 200 content

abbrev pub write_created : {B : Type 0} → String → B → Written B
write_created location content = record (write_json 201 content) {
  headers = if str_eq location "" then [] else ("Location", location) ∷ [];
}

abbrev pub write_accepted : {B : Type 0} → B → Written B
write_accepted content = write_json 202 content

abbrev pub write_no_content : {B : Type 0} → Written B
write_no_content = record { status = 204; headers = []; body = none }
