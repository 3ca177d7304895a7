-- ===== src/Wscutils/Http/Binding.antt =====
-- When BindData writes its destination.
use alya.Prelude.{Option, none, some, String, ◌≡◌, arith, inl, inr}
use alya.Prelude.Result.{ok, guard, >>=-eq-ok, >>-eq-ok, Result-cases}
use alya.Wscutils.Http.{
  HttpError, Trailing, nothing_more, is_end, require_json_content_type, body_of, decoded, read_data,
  bind_data, several_values,
}

module _ (parse_media_type : String → Option String) {B V : Type 0}
    (decode : B → Option (V × Trailing)) (body : Option B) (content_type : String) (dst : V) where
  -- The destination is as it was where there is an error.
  bind_data_failed :
      (e : HttpError)
      → (bind_data parse_media_type decode body content_type dst).1 ≡ some e
      → (bind_data parse_media_type decode body content_type dst).0 ≡ dst
  unfolding bind_data
  bind_data_failed e h = ground arith

  read_data_ok :
      {v : V}
      → read_data parse_media_type decode body content_type ≡ ok v
      → (b : B) × (body ≡ some b) × (decode b ≡ some (v, nothing_more))
  unfolding read_data
  read_data_ok reads =
      let (b, e1, h1) = >>=-eq-ok (body_of parse_media_type decode body) _ reads in
      let (e2, h2) = >>-eq-ok (require_json_content_type parse_media_type content_type) _ h1 in
      let ((u, rest), e3, h3) = >>=-eq-ok (decoded parse_media_type decode b) _ h2 in
      let (e4, h4) = >>-eq-ok (guard (is_end rest) several_values) _ h3 in
      (b, ground arith, ground arith)

  -- Where there is none, it is the data of the one value that the body holds.
  bind_data_ok :
      (bind_data parse_media_type decode body content_type dst).1 ≡ none
      → (b : B) × (body ≡ some b)
        × (decode b
            ≡ some ((bind_data parse_media_type decode body content_type dst).0, nothing_more))
  unfolding bind_data
  bind_data_ok h = elim (Result-cases (read_data parse_media_type decode body content_type)) [
    | inr (e, fails) ↦ absurd (ground arith)
    | inl (v, reads) ↦ let (b, has, read) = read_data_ok reads in (b, has, ground arith)
  ]
