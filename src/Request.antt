-- ===== src/Request.antt =====
-- request.rs: `Request`, its builder and the bodies. Strings are their bytes.
pub mod Body
pub mod Builder
pub mod Head
pub mod Laws
pub mod Wire
use reqwless.Base.{ℕ, List, [], ◌∷◌, Bytes, Option, none, some}
use reqwless.Headers.{text, ContentType}

pub data Method : Type 0 where
  get put post delete head : Method

-- `Method::as_str`
unfoldable pub as_str : Method → Bytes
as_str Method.post = text "POST"
as_str Method.put = text "PUT"
as_str Method.get = text "GET"
as_str Method.delete = text "DELETE"
as_str Method.head = text "HEAD"

pub data Auth : Type 0 where
  basic : (username password : Bytes) → Auth

pub record Request (B : Type 0) : Type 0 where
  pub method : Method
  pub base_path : Option Bytes
  pub path : Bytes
  pub auth : Option Auth
  pub host : Option Bytes
  pub body : Option B
  pub content_type : Option ContentType
  pub accept : Option ContentType
  pub extra_headers : Option (List (Bytes × Bytes))

-- `Default for Request`
abbrev pub default : Request (Unit {0})
default = record {
  method = Method.get;
  base_path = none;
  path = text "/";
  auth = none;
  host = none;
  body = none;
  content_type = none;
  accept = none;
  extra_headers = none;
}
