-- ===== src/Client/Connect.antt =====
-- client.rs: `HttpClient`, which opens connections, and its requests and resources.
pub mod Laws
use reqwless.Base.{ℕ, Bool, Bytes, Option, none, some, if◌then◌else◌}
use reqwless.Base.{Outcome, ok, err, panic, Io, ◌>>=◌, pure, gets, lift, zoom, zoom_err, map_err}
use reqwless.Errors.{Error, ErrorKind, UrlError, from_kind, from_url}
use reqwless.Request.{Method}
use reqwless.Request.Builder
use reqwless.Client.{HttpConnection, Transport}
use reqwless.Client.Handle.{HttpRequestHandle}
use reqwless.Client.Resource.{HttpResource}

-- Which TLS crate the library is built with.
pub data Feature : Type 0 where
  no_tls embedded_tls esp_mbedtls : Feature

-- A parsed URL of the crate `nourl`; `port` is `port_or_default()`.
pub record Url : Type 0 where
  pub https : Bool
  pub host : Bytes
  pub port : ℕ
  pub path : Bytes

-- The network `N` with its addresses `A`, and the TLS configuration `T`.
pub record Stack (N A T C S : Type 0) : Type 0 where
  pub parse_url : Bytes → Outcome UrlError Url
  pub get_host_by_name : Bytes → Io N (Unit {0}) A
  pub connect : A → ℕ → Io N ErrorKind C
  -- The TLS crate's handshake with a host, which draws on the configuration's seed and buffers.
  pub handshake : Bytes → C → Io T Error S
  pub write_buffer : T → Bytes

pub record HttpClient (N T : Type 0) : Type 0 where
  pub network : N
  pub tls : Option T

unfoldable pub new : {N T : Type 0} → N → HttpClient N T
new network = record { network = network; tls = none }

unfoldable pub new_with_tls : {N T : Type 0} → N → T → HttpClient N T
new_with_tls network tls = record { network = network; tls = some tls }

module _ {N A T C W S : Type 0} (stack : Stack N A T C S) (net : Transport C W S) where
  abbrev pub on_network : {E F X : Type 0} → (E → F) → Io N E X → Io (HttpClient N T) F X
  on_network = zoom_err (λ c. c.network) (λ c n. record c { network = n })

  abbrev pub encrypted :
      N → Outcome Error S × T → Outcome Error (HttpConnection C W S) × HttpClient N T
  encrypted network (ok session, tls) =
      (ok (HttpConnection.tls session), record { network = network; tls = some tls })
  encrypted network (err x, tls) = (err x, record { network = network; tls = some tls })
  encrypted network (panic, tls) = (panic, record { network = network; tls = some tls })

  -- A URL with the scheme `https`. Without a configuration, the connection stays plain.
  abbrev pub secure_with :
      Option T → Bytes → C → N → Outcome Error (HttpConnection C W S) × HttpClient N T
  secure_with none host conn network =
      (ok (HttpConnection.plain conn), record { network = network; tls = none })
  secure_with (some tls) host conn network = encrypted network (stack.handshake host conn tls)

  unfoldable pub secure : Feature → Bytes → C → Io (HttpClient N T) Error (HttpConnection C W S)
  secure Feature.no_tls host conn self = (err (from_url UrlError.unsupported_scheme), self)
  secure feature host conn self = secure_with self.tls host conn self.network

  -- Any other URL. The crate `embedded_tls` lends its write buffer.
  abbrev pub unsecured_with : Feature → Option T → C → HttpConnection C W S
  unsecured_with Feature.embedded_tls (some tls) conn =
      HttpConnection.plain_buffered (net.new_buffered conn (stack.write_buffer tls))
  unsecured_with feature tls conn = HttpConnection.plain conn

  unfoldable pub connect : Feature → Url → Io (HttpClient N T) Error (HttpConnection C W S)
  connect feature url = do
    remote ← on_network (λ _. Error.dns) (stack.get_host_by_name url.host)
    conn ← on_network from_kind (stack.connect remote url.port)
    if url.https
        then secure feature url.host conn
        else gets (λ c. unsecured_with feature c.tls conn)

  -- Create a single request.
  unfoldable pub request :
      Feature → Method → Bytes → Io (HttpClient N T) Error (HttpRequestHandle C W S (Unit {0}))
  request feature method text = do
    url ← lift (map_err from_url (stack.parse_url text))
    conn ← connect feature url
    pure (record {
      conn = conn;
      request = some (Builder.host (Builder.new method url.path) url.host);
    })

  -- The path of the URL is the base path of the requests that follow.
  unfoldable pub resource : Feature → Bytes → Io (HttpClient N T) Error (HttpResource C W S)
  resource feature text = do
    url ← lift (map_err from_url (stack.parse_url text))
    conn ← connect feature url
    pure (record { conn = conn; host = url.host; base_path = url.path })
