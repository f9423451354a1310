-- ===== src/Client/Handle.antt =====
-- client.rs: `HttpRequestHandle`.
pub mod Laws
use reqwless.Base.{List, Bytes, Option, none, some, Outcome, ok, err, panic, Io, and_then}
use reqwless.Base.Words.{Target}
use reqwless.Hex.{Hex}
use reqwless.Errors.{Error}
use reqwless.Headers.{ContentType}
use reqwless.Request.{Request}
use reqwless.Request.Body.{RequestBody}
use reqwless.Request.Builder.{DefaultRequestBuilder}
use reqwless.Request.Builder
use reqwless.Request.Head.{Encoders}
use reqwless.Response.Parsed.{Response}
use reqwless.Response.Read.{Crates}
use reqwless.Client.{HttpConnection, Transport, Provided}
use reqwless.Client
use reqwless.Client.Send

pub record HttpRequestHandle (C W S B : Type 0) : Type 0 where
  pub conn : HttpConnection C W S
  pub request : Option (DefaultRequestBuilder B)

module _ {C W S B : Type 0} where
  unfoldable pub into_buffered :
      Transport C W S → HttpRequestHandle C W S B → Bytes → HttpRequestHandle C W S B
  into_buffered net self tx_buf = record self { conn = Client.into_buffered net self.conn tx_buf }

  abbrev pub sent_on :
      {E A : Type 0} → Outcome E A × HttpConnection C W S → Outcome E A × HttpRequestHandle C W S B
  sent_on (r, conn) = (r, record { conn = conn; request = none })

  module _ (t : Target) (h : Hex) (net : Transport C W S) (own : Provided C W S) (crates : Crates)
      (e : Encoders) (b : RequestBody B) where
    -- The request, where there is one, is taken out and built.
    abbrev pub take_and_send :
        Option (DefaultRequestBuilder B)
        → Bytes
        → HttpConnection C W S
        → Outcome Error (Response (HttpConnection C W S)) × HttpRequestHandle C W S B
    take_and_send none rx_buf conn =
        (err Error.already_sent, record { conn = conn; request = none })
    take_and_send (some request) rx_buf conn =
        sent_on (Send.send t h net own crates e b (Builder.build request) rx_buf conn)

    unfoldable pub send :
        Bytes → Io (HttpRequestHandle C W S B) Error (Response (HttpConnection C W S))
    send rx_buf self = take_and_send self.request rx_buf self.conn

  -- A method of the builder: `unwrap` panics once the request is sent.
  abbrev pub rebuilt :
      {E T : Type 0}
      → HttpConnection C W S
      → (DefaultRequestBuilder B → DefaultRequestBuilder T)
      → Option (DefaultRequestBuilder B)
      → Outcome E (HttpRequestHandle C W S T)
  rebuilt conn f none = panic
  rebuilt conn f (some request) = ok (record { conn = conn; request = some (f request) })

  module _ {E : Type 0} (self : HttpRequestHandle C W S B) where
    unfoldable pub headers : List (Bytes × Bytes) → Outcome E (HttpRequestHandle C W S B)
    headers fields = rebuilt self.conn (λ r. Builder.headers r fields) self.request

    unfoldable pub path : Bytes → Outcome E (HttpRequestHandle C W S B)
    path route = rebuilt self.conn (λ r. Builder.path r route) self.request

    unfoldable pub body : {T : Type 0} → T → Outcome E (HttpRequestHandle C W S T)
    body payload = rebuilt self.conn (λ r. Builder.body r payload) self.request

    unfoldable pub host : Bytes → Outcome E (HttpRequestHandle C W S B)
    host name = rebuilt self.conn (λ r. Builder.host r name) self.request

    unfoldable pub content_type : ContentType → Outcome E (HttpRequestHandle C W S B)
    content_type kind = rebuilt self.conn (λ r. Builder.content_type r kind) self.request

    unfoldable pub accept : ContentType → Outcome E (HttpRequestHandle C W S B)
    accept kind = rebuilt self.conn (λ r. Builder.accept r kind) self.request

    unfoldable pub basic_auth : Bytes → Bytes → Outcome E (HttpRequestHandle C W S B)
    basic_auth username password =
        rebuilt self.conn (λ r. Builder.basic_auth r username password) self.request

    abbrev unwrapped : Option (DefaultRequestBuilder B) → Outcome E (Request B)
    unwrapped none = panic
    unwrapped (some request) = ok (Builder.build request)

    unfoldable pub build : Outcome E (Request B)
    build = unwrapped self.request
