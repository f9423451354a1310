-- ===== src/Client/Resource.antt =====
-- client.rs: `HttpResource` and `HttpResourceRequestBuilder`.
use reqwless.Base.{List, Bytes, some, Outcome, Io}
use reqwless.Base.Words.{Target}
use reqwless.Hex.{Hex}
use reqwless.Errors.{Error}
use reqwless.Headers.{ContentType}
use reqwless.Request.{Request, Method}
use reqwless.Request.Body.{RequestBody}
use reqwless.Request.Builder.{DefaultRequestBuilder}
use reqwless.Request.Builder
use reqwless.Request.Head.{Encoders}
use reqwless.Response.Parsed.{Response}
use reqwless.Response.Read.{Crates}
use reqwless.Client.{HttpConnection, Transport, Provided}
use reqwless.Client
use reqwless.Client.Send

pub record HttpResource (C W S : Type 0) : Type 0 where
  pub conn : HttpConnection C W S
  pub host : Bytes
  pub base_path : Bytes

-- The connection that it borrows is the resource's.
pub record HttpResourceRequestBuilder (C W S B : Type 0) : Type 0 where
  pub conn : HttpConnection C W S
  pub base_path : Bytes
  pub request : DefaultRequestBuilder B

module _ {C W S : Type 0} where
  unfoldable pub into_buffered : Transport C W S → HttpResource C W S → Bytes → HttpResource C W S
  into_buffered net self tx_buf = record self { conn = Client.into_buffered net self.conn tx_buf }

  unfoldable pub request :
      HttpResource C W S → Method → Bytes → HttpResourceRequestBuilder C W S (Unit {0})
  request self method path = record {
    conn = self.conn;
    base_path = self.base_path;
    request = Builder.host (Builder.new method path) self.host;
  }

  abbrev pub get : HttpResource C W S → Bytes → HttpResourceRequestBuilder C W S (Unit {0})
  get self path = request self Method.get path

  abbrev pub post : HttpResource C W S → Bytes → HttpResourceRequestBuilder C W S (Unit {0})
  post self path = request self Method.post path

  abbrev pub put : HttpResource C W S → Bytes → HttpResourceRequestBuilder C W S (Unit {0})
  put self path = request self Method.put path

  abbrev pub delete : HttpResource C W S → Bytes → HttpResourceRequestBuilder C W S (Unit {0})
  delete self path = request self Method.delete path

  abbrev pub head : HttpResource C W S → Bytes → HttpResourceRequestBuilder C W S (Unit {0})
  head self path = request self Method.head path

  abbrev pub on_resource :
      {E A : Type 0}
      → HttpResource C W S
      → Outcome E A × HttpConnection C W S
      → Outcome E A × HttpResource C W S
  on_resource self (r, conn) = (r, record self { conn = conn })

  module _ (t : Target) (h : Hex) (net : Transport C W S) (own : Provided C W S) (crates : Crates)
      (e : Encoders) {B : Type 0} (b : RequestBody B) where
    -- `HttpResource::send`
    unfoldable pub send :
        Request B → Bytes → Io (HttpResource C W S) Error (Response (HttpConnection C W S))
    send request rx_buf self = on_resource self (
        Send.send t h net own crates e b (record request { base_path = some self.base_path }) rx_buf
          self.conn)

    -- `HttpResourceRequestBuilder::send`, which leaves the connection to the resource.
    unfoldable pub send_built :
        HttpResourceRequestBuilder C W S B
        → Bytes
        → Outcome Error (Response (HttpConnection C W S)) × HttpConnection C W S
    send_built self rx_buf =
        Send.send t h net own crates e b
          (record (Builder.build self.request) { base_path = some self.base_path }) rx_buf self.conn

  module _ {B : Type 0} (self : HttpResourceRequestBuilder C W S B) where
    unfoldable pub headers : List (Bytes × Bytes) → HttpResourceRequestBuilder C W S B
    headers fields = record self { request = Builder.headers self.request fields }

    unfoldable pub path : Bytes → HttpResourceRequestBuilder C W S B
    path route = record self { request = Builder.path self.request route }

    unfoldable pub body : {T : Type 0} → T → HttpResourceRequestBuilder C W S T
    body payload = record {
      conn = self.conn;
      base_path = self.base_path;
      request = Builder.body self.request payload;
    }

    unfoldable pub host : Bytes → HttpResourceRequestBuilder C W S B
    host name = record self { request = Builder.host self.request name }

    unfoldable pub content_type : ContentType → HttpResourceRequestBuilder C W S B
    content_type kind = record self { request = Builder.content_type self.request kind }

    unfoldable pub accept : ContentType → HttpResourceRequestBuilder C W S B
    accept kind = record self { request = Builder.accept self.request kind }

    unfoldable pub basic_auth : Bytes → Bytes → HttpResourceRequestBuilder C W S B
    basic_auth username password = record self {
      request = Builder.basic_auth self.request username password;
    }

    abbrev pub build : Request B
    build = Builder.build self.request
