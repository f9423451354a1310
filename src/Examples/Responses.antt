-- ===== src/Examples/Responses.antt =====
-- A parsed response on concrete input.
use reqwless.Base.{◌≡◌, arith, [], ◌∷◌, some, none, Bytes, length, take, slice, ok}
use reqwless.Errors.{Error}
use reqwless.Request.{Method}
use reqwless.Response.Body.{ResponseBody}
use reqwless.Response.Parsed.{Response, body, reader_hint, IsHint, body_lem}

-- A header of two bytes, and two bytes of the body behind it.
abbrev response : Response Bytes
response = record {
  conn = 7 ∷ 8 ∷ [];
  method = Method.get;
  status = record { code = 200 };
  content_type = none;
  content_length = some 4;
  transfer_encoding = [];
  keep_alive = none;
  header_buf = 1 ∷ 2 ∷ 5 ∷ 6 ∷ 0 ∷ [];
  header_len = 2;
  raw_body_read = 2;
}

body_lem_example :
    (b : ResponseBody Bytes) × (body {E = Error} response ≡ ok b)
    × (b.conn ≡ 7 ∷ 8 ∷ [])
    × (b.reader_hint ≡ reader_hint response)
    × IsHint response b.reader_hint
    × (b.raw_body_read ≡ 2)
    × (length b.body_buf ≡ 5)
    × (take b.raw_body_read b.body_buf ≡ slice (1 ∷ 2 ∷ 5 ∷ 6 ∷ 0 ∷ []) 2 4)
body_lem_example = body_lem {E = Error} response (omega arith)
