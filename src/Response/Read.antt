-- ===== src/Response/Read.antt =====
-- response/mod.rs: `Response::read`.
pub mod Search
pub mod Interpret
pub mod Laws
pub mod Refusals
pub mod Misses
use reqwless.Base.{
  ℕ, zero, suc, ◌+◌, ◌-◌, ◌==◌, Bool, ◌||◌, not, ◌&&◌, List, [], ◌∷◌, Bytes, length, take, patch,
  is_empty, ltb, leb, Option, none, some, unwrap_or, if◌then◌else◌,
}
use reqwless.Base.{
  Outcome, ok, err, panic, Io, ◌>>=◌, ◌>>◌, pure, fail, lift, gets, zoom_err, unwrap,
}
use reqwless.Base.Words.{Target, sub_usize}
use reqwless.Errors.{Error, from_kind}
use reqwless.Connection.{Read}
use reqwless.Request.{Method}
use reqwless.Response.Status.{Status, StatusCode, from_u16, is_informational, eq_status}
use reqwless.Response.Parsed.{Response}
use reqwless.Response.Fields.{Fields, Push, no_fields, read_fields}

-- `Response::parse` of the crate `httparse`, into 64 headers: its result, the status code and the
-- headers by name and value.
pub data Parse : Type 0 where
  invalid : Parse
  partial : Option ℕ → List (Bytes × Bytes) → Parse
  complete : ℕ → Option ℕ → List (Bytes × Bytes) → Parse

pub record Crates : Type 0 where
  pub parse : Bytes → Parse
  pub push : Push

-- The buffer with `pos` bytes read into it, of which the header has `header_len`, or 0 if its end
-- is not found.
pub record Found : Type 0 where
  pub header_len : ℕ
  pub pos : ℕ
  pub buffer : Bytes

abbrev pub found : ℕ → ℕ → Bytes → Found
found header_len pos buffer = record { header_len = header_len; pos = pos; buffer = buffer }

-- The status and the headers of a parse that is unwrapped.
abbrev pub parsed : {E : Type 0} → Parse → Outcome E (Option ℕ × List (Bytes × Bytes))
parsed Parse.invalid = panic
parsed (Parse.partial code headers) = ok (code, headers)
parsed (Parse.complete _ code headers) = ok (code, headers)

-- A response of one of these statuses has no body.
abbrev pub has_no_body : StatusCode → Bool
has_no_body status = is_informational status || eq_status status Status.no_content

-- The length of the body, once the status is known.
unfoldable pub settle_length : StatusCode → Option ℕ → Outcome Error (Option ℕ)
settle_length status content_length =
    if has_no_body status
    then (if not (unwrap_or content_length 0 == 0) then err Error.codec else ok (some 0))
    else ok content_length

-- More bytes than the body has are an error.
unfoldable pub check_length : Option ℕ → ℕ → Outcome Error (Unit {0})
check_length none raw_body_read = ok tt
check_length (some content_length) raw_body_read =
    if ltb content_length raw_body_read then err Error.codec else ok tt

module _ {C : Type 0} where
  abbrev pub after_parse : Parse → ℕ → Bytes → Io C Error Found → Io C Error Found
  after_parse Parse.invalid pos buffer again = fail Error.codec
  after_parse (Parse.partial _ _) pos buffer again = again
  after_parse (Parse.complete header_len _ _) pos buffer again = pure (found header_len pos buffer)

  abbrev pub respond : Method → ℕ → Found → StatusCode → Fields → Option ℕ → Io C Error (Response C)
  respond method raw_body_read f status fields content_length = gets (λ c. record {
    conn = c;
    method = method;
    status = status;
    content_type = fields.content_type;
    content_length = content_length;
    transfer_encoding = fields.transfer_encoding;
    keep_alive = fields.keep_alive;
    header_buf = f.buffer;
    header_len = f.header_len;
    raw_body_read = raw_body_read;
  })

module _ {C : Type 0} (crates : Crates) (io : Read C) where
  -- The loop of reads, each followed by a parse of all that was read. A round reads a byte at
  -- least, so that the room that is left is enough fuel.
  unfoldable pub find_header : ℕ → ℕ → Bytes → Io C Error Found
  find_header zero pos buffer = pure (found 0 pos buffer)
  find_header (suc fuel) pos buffer =
      if ltb pos (length buffer)
      then (do
        bytes ← zoom_err (λ c. c) (λ _ c. c) from_kind (io.read (length buffer - pos))
        if is_empty bytes
            then fail Error.connection_aborted
            else after_parse (crates.parse (take (pos + length bytes) (patch buffer pos bytes)))
                (pos + length bytes) (patch buffer pos bytes)
                (find_header fuel (pos + length bytes) (patch buffer pos bytes)))
      else pure (found 0 pos buffer)

  -- The header that was found is parsed again.
  abbrev pub header_of : Found → Outcome Error (Option ℕ × List (Bytes × Bytes))
  header_of f =
      if leb f.header_len (length f.buffer)
      then parsed (crates.parse (take f.header_len f.buffer))
      else panic

  -- The part behind the loop: the status and the known headers.
  unfoldable pub interpret : Target → Method → Found → Io C Error (Response C)
  interpret t method f = do
    head ← lift (header_of f)
    code ← lift (unwrap head.0)
    fields ← lift (read_fields t crates.push head.1 no_fields)
    content_length ← lift (settle_length (from_u16 code) fields.content_length)
    raw_body_read ← lift (sub_usize t f.pos f.header_len)
    lift (check_length content_length raw_body_read)
    respond method raw_body_read f (from_u16 code) fields content_length

  -- `Response::read`; the buffer that an error leaves behind is not looked at.
  unfoldable pub read : Target → Method → Bytes → Io C Error (Response C)
  read t method header_buf = do
    f ← find_header (length header_buf) 0 header_buf
    if f.header_len == 0 then fail Error.buffer_too_small else interpret t method f
