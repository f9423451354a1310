-- ===== src/Examples/Clients.antt =====
-- Request handles and `HttpClient` on concrete input.
use reqwless.Base.{ℕ, ◌≡◌, refl, true, [], ◌∷◌, some, replicate}
use reqwless.Base.{ok, err}
use reqwless.Errors.{Error, UrlError}
use reqwless.Text.{text}
use reqwless.Request.Body.{no_body}
use reqwless.Request.Builder.{get}
use reqwless.Client.{HttpConnection}
use reqwless.Client.Handle.{HttpRequestHandle}
use reqwless.Client.Handle
use reqwless.Client.Handle.Laws.{IsSpent, send-send}
use reqwless.Client.Connect.{Feature, Url, Stack, HttpClient, connect, new_with_tls}
use reqwless.Client.Connect
use reqwless.Client.Connect.Laws.{HasKind, connect-HasKind}
use reqwless.Examples.{thumb, hex_crate}
use reqwless.Examples.Client.{Socket, Waiting, transport, own}
use reqwless.Examples.Requests.{encoders}
use reqwless.Examples.Reading.{crates}

abbrev handle : HttpRequestHandle Socket Waiting Socket (Unit {0})
handle = record {
  conn = HttpConnection.plain (record { out = []; incoming = 10 ∷ 11 ∷ 12 ∷ 13 ∷ [] });
  request = some (get (text "/"));
}

abbrev once : HttpRequestHandle Socket Waiting Socket (Unit {0})
once =
    (Handle.send thumb hex_crate transport own (crates 200 []) encoders no_body (replicate 8 0)
      handle).1

send-send_example :
    (Handle.send thumb hex_crate transport own (crates 200 []) encoders no_body [] once
      ≡ (err Error.already_sent, once))
    × IsSpent once
send-send_example =
    send-send thumb hex_crate transport own (crates 200 []) encoders no_body (replicate 8 0) []
      handle

-- A network that reaches every host, and a TLS crate with a handshake that always succeeds.
abbrev stack : Stack (Unit {0}) ℕ (Unit {0}) Socket Socket
stack = record {
  parse_url = λ bs. err (UrlError.unnamed 0);
  get_host_by_name = λ host n. (ok 1, n);
  connect = λ remote port n. (ok (record { out = []; incoming = [] }), n);
  handshake = λ host s tls. (ok s, tls);
  write_buffer = λ tls. replicate 16 0;
}

abbrev secure_url : Url
secure_url = record { https = true; host = text "example.com"; port = 443; path = text "/" }

abbrev client : HttpClient (Unit {0}) (Unit {0})
client = record { network = tt; tls = some tt }

abbrev session : HttpConnection Socket Waiting Socket
session = HttpConnection.tls (record { out = []; incoming = [] })

connect-HasKind_example : HasKind Feature.embedded_tls true (some (tt {0})) session
unfolding connect Connect.secure
connect-HasKind_example =
    connect-HasKind stack transport Feature.embedded_tls secure_url client client session refl
