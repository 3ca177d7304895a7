-- ===== src/Restutils/Bind/Answers.antt =====
-- What a client is answered whose body BindBody does not take.
use alya.Prelude.{
  ℕ, List, Option, none, some, String, true, false, ◌≡◌, ◌≢◌, ◌↔◌, ◌⊎◌, inl, inr, arith,
  Option-cases, Bool-cases, map,
}
use alya.Prelude.Result.{Result, ok, err, Result-cases, >>-eq-ok, >>=-eq-ok, guard}
use alya.Restutils.Types.{FieldError, Problem, BindError, BindErrorKind, invalid_content_type}
use alya.Restutils.Problem.{
  Written, bind_error, problem_of_kind, problem_from_bind_error, write_problem,
}
use alya.Restutils.Bind.{
  DecodeError, end_of_file, Texts, Request, is_json, require_json_content_type,
  classify_decode_error, required_body, decoded, at_end, bind_body,
}

-- The fields that a problem names.
abbrev pub named_fields : List FieldError → List String
named_fields = map (λ (f : FieldError). f.error_message.field)

module _ (texts : Texts) {B V : Type 0} (decode : B → Result DecodeError (V × B))
    (decode_any : B → Result DecodeError B) where
  -- A body that is one value of the type, with nothing after it.
  abbrev pub IsTaken : Request B → V → Type 0
  IsTaken request v =
      (b rest : B) × (request.body ≡ some b)
      × (is_json texts request.content_type ≡ true)
      × (decode b ≡ ok (v, rest))
      × (decode_any rest ≡ err end_of_file)

  bind_body_if :
      (request : Request B) (v : V)
      → IsTaken request v
      → bind_body texts decode decode_any request ≡ ok v
  unfolding bind_body require_json_content_type
  bind_body_if request v (b, rest, has, json, reads, ends) = rw (has, json) (ground arith)

  bind_body_only :
      (request : Request B) (v : V)
      → bind_body texts decode decode_any request ≡ ok v
      → IsTaken request v
  unfolding bind_body require_json_content_type
  bind_body_only request v h =
      let (b, e1, h1) = >>=-eq-ok (required_body texts decode decode_any request.body) _ h in
      let (e2, h2) = >>-eq-ok (require_json_content_type texts request.content_type) _ h1 in
      let ((w, rest), e3, h3) = >>=-eq-ok (decoded texts decode decode_any b) _ h2 in
      let (e4, h4) = >>-eq-ok (guard (at_end texts decode decode_any rest) _) _ h3 in
      (b, rest, ground arith, ground arith, ground arith, ground arith)

  classify-kind : (e : DecodeError) → (classify_decode_error texts e).kind ≢ invalid_content_type
  unfolding classify_decode_error
  classify-kind e = λ h. ground arith

  -- The content type is at fault only where it is not JSON, of a request with a body.
  content_type_error :
      (request : Request B) (e : BindError)
      → bind_body texts decode decode_any request ≡ err e
      → (e.kind ≡ invalid_content_type)
        ↔ ((request.body ≢ none) × (is_json texts request.content_type ≡ false))
  unfolding bind_body require_json_content_type
  content_type_error request e h = elim (Option-cases request.body) [
    | inl none_there ↦ (
      λ k. absurd (ground arith),
      λ (p : (request.body ≢ none) × (is_json texts request.content_type ≡ false)).
          absurd (p.0 none_there),
    )
    | inr (b, there) ↦ elim (Bool-cases (is_json texts request.content_type)) [
      | inr bad ↦ (λ k. (λ n. cc, bad), λ p. ground arith)
      | inl good ↦ (
        λ k. absurd (other b there good k),
        λ (p : (request.body ≢ none) × (is_json texts request.content_type ≡ false)). cc,
      )
    ]
  ]
    where
      other :
          (b : B)
          → request.body ≡ some b
          → is_json texts request.content_type ≡ true
          → e.kind ≡ invalid_content_type
          → ⊥
      other b there good k = elim (Result-cases (decode b)) [
        | inl ((v, rest), reads) ↦ ground arith
        | inr (x, fails) ↦ ground (arith, classify-kind x)
      ]

  -- The status of the answer to a bind error.
  abbrev pub status_of : BindErrorKind → ℕ
  status_of invalid_content_type = 415
  status_of kind = 400

  answer_status :
      (path trace : Option String) (k : BindErrorKind) (e : BindError)
      → (write_problem path trace (problem_of_kind k e)).status ≡ status_of k
  unfolding write_problem
  answer_status path trace k e = ground arith

  answer_body :
      (path trace : Option String) (k : BindErrorKind) (e : BindError) (p : Problem)
      → (write_problem path trace (problem_of_kind k e)).body ≡ some p
      → (p.status ≡ (write_problem path trace (problem_of_kind k e)).status) × (p.detail ≡ e.detail)
  unfolding write_problem
  answer_body path trace k e p q = ground arith

  -- What is written for a request whose body is not taken.
  pub record IsAnswered (request : Request B) (e : BindError) (w : Written Problem) : Type 0 where
    pub unsupported :
        (w.status ≡ 415) ↔ ((request.body ≢ none) × (is_json texts request.content_type ≡ false))
    pub other : (w.status ≡ 415) ⊎ (w.status ≡ 400)
    pub body : (p : Problem) → w.body ≡ some p → (p.status ≡ w.status) × (p.detail ≡ e.detail)

  -- A request is bound to a value exactly when it has a body of content type application/json that
  -- is one JSON value of the type with nothing after it. In any other case the problem that is
  -- written for the error has the status 415 exactly when there is a body and its content type is
  -- not JSON, and else 400; its body repeats the status and has the error's detail.
  pub bind_body_answers :
      (request : Request B) (path trace : Option String)
      → ((v : V) → (bind_body texts decode decode_any request ≡ ok v) ↔ IsTaken request v)
        × ((e : BindError)
            → bind_body texts decode decode_any request ≡ err e
            → IsAnswered request e
                (write_problem path trace (problem_from_bind_error (bind_error e))))
  unfolding problem_from_bind_error
  bind_body_answers request path trace = (
    λ v. (bind_body_only request v, bind_body_if request v),
    λ e h.
        let fault = content_type_error request e h in
        let s = answer_status path trace e.kind e in
        record {
          unsupported = (
            λ u. fault.0 (ground arith),
            λ (p : (request.body ≢ none) × (is_json texts request.content_type ≡ false)).
                let k = fault.1 p in ground arith,
          );
          other = ground arith;
          body = λ p q. answer_body path trace e.kind e p q;
        },
  )
