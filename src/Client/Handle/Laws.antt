-- ===== src/Client/Handle/Laws.antt =====
-- client.rs: a request handle is sent once.
use reqwless.Base.{◌≡◌, refl, sym, ap, ◌∙◌, List, Bytes, Option, none, some, err, panic}
use reqwless.Base.Words.{Target}
use reqwless.Hex.{Hex}
use reqwless.Errors.{Error}
use reqwless.Headers.{ContentType}
use reqwless.Request.Body.{RequestBody}
use reqwless.Request.Builder.{DefaultRequestBuilder}
use reqwless.Request.Head.{Encoders}
use reqwless.Response.Read.{Crates}
use reqwless.Client.{HttpConnection, Transport, Provided}
use reqwless.Client.Handle.{
  HttpRequestHandle, take_and_send, send, headers, path, body, host, content_type, accept,
  basic_auth, build,
}

module _ {C W S B : Type 0} where
  -- Every method of the builder panics.
  abbrev pub IsSpent : HttpRequestHandle C W S B → Type 0
  IsSpent self =
      ((fields : List (Bytes × Bytes)) → headers {E = Error} self fields ≡ panic)
      × ((route : Bytes) → path {E = Error} self route ≡ panic)
      × ((name : Bytes) → host {E = Error} self name ≡ panic)
      × ((kind : ContentType) → content_type {E = Error} self kind ≡ panic)
      × ((kind : ContentType) → accept {E = Error} self kind ≡ panic)
      × ((username password : Bytes) → basic_auth {E = Error} self username password ≡ panic)
      × ((payload : Bytes) → body {E = Error} self payload ≡ panic)
      × (build {E = Error} self ≡ panic)

  spent : (self : HttpRequestHandle C W S B) → self.request ≡ none → IsSpent self
  unfolding headers path host content_type accept basic_auth body build
  spent self e = (
    (λ fields. rw e refl),
    (λ route. rw e refl),
    (λ name. rw e refl),
    (λ kind. rw e refl),
    (λ kind. rw e refl),
    (λ username password. rw e refl),
    (λ payload. rw e refl),
    rw e refl,
  )

  module _ (t : Target) (h : Hex) (net : Transport C W S) (own : Provided C W S) (crates : Crates)
      (e : Encoders) (b : RequestBody B) where
    taken :
        (o : Option (DefaultRequestBuilder B)) (rx_buf : Bytes) (conn : HttpConnection C W S)
        → (take_and_send t h net own crates e b o rx_buf conn).1.request ≡ none
    taken none rx_buf conn = refl
    taken (some request) rx_buf conn = refl

    refused :
        (rx_buf : Bytes) (self : HttpRequestHandle C W S B)
        → self.request ≡ none
        → send t h net own crates e b rx_buf self ≡ (err Error.already_sent, self)
    unfolding send
    refused rx_buf self gone =
        ap (λ o. take_and_send t h net own crates e b o rx_buf self.conn) gone
        ∙ ap (λ o. (err Error.already_sent, record { conn = self.conn; request = o })) (sym gone)

    -- After a call of `send`, however it ended, a further one answers that the request is already
    -- sent and leaves the connection as it is, and every method of the builder panics.
    pub send-send :
        (rx_buf more : Bytes) (self : HttpRequestHandle C W S B)
        → (send t h net own crates e b more (send t h net own crates e b rx_buf self).1
            ≡ (err Error.already_sent, (send t h net own crates e b rx_buf self).1))
          × IsSpent (send t h net own crates e b rx_buf self).1
    send-send rx_buf more self =
        let gone : (send t h net own crates e b rx_buf self).1.request ≡ none = sent_gone in
        (
          refused more (send t h net own crates e b rx_buf self).1 gone,
          spent (send t h net own crates e b rx_buf self).1 gone,
        )
      where
        sent_gone : (send t h net own crates e b rx_buf self).1.request ≡ none
        sent_gone = unfold send in taken self.request rx_buf self.conn
