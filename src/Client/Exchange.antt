-- ===== src/Client/Exchange.antt =====
-- client.rs: `send`, from the request on the wire to the response.
use reqwless.Base.{◌≡◌, ◌∙◌, List, ◌++◌, Bytes, length, some}
use reqwless.Base.{ok, refl, and_then, Ends, Ends-mono, Ends-and_then, ends_ok, ends_err}
use reqwless.Base.Words.{Target, IsTarget, IsUsize}
use reqwless.Hex.{Hex, IsHex}
use reqwless.Errors.{from_kind}
use reqwless.Connection.{IsRead}
use reqwless.Connection.Calls.{Call, AllFit}
use reqwless.Connection.Loop.{IsLoop}
use reqwless.BodyWriter.Buffering
use reqwless.Request.{Request}
use reqwless.Request.Body.{RequestBody}
use reqwless.Request.Head.{Encoders, write_header}
use reqwless.Request.Laws.{IsEncoders, Fits, head}
use reqwless.Request.Wire.{ShortAuth, ShortLength}
use reqwless.Response.Parsed.{Response}
use reqwless.Response.Read.{Crates}
use reqwless.Response.Read
use reqwless.Response.Read.Search.{IsCrates}
use reqwless.Response.Read.Laws.{Replied, read_lem}
use reqwless.Client.{HttpConnection, Transport, Provided, write, flush, http_write, http_read}
use reqwless.Client.Send.{network, send}
use reqwless.Client.Carriers.{IsTransport, IsFlush, handed, flush_lem, flush-IsFlush}
use reqwless.Client.Bodies.{payload, IsWhole, Makes}
use reqwless.Client.Wire.{IsCounted, IsRoomyConnection, SizedWire, write_request_lem}

module _ {C W S : Type 0} (t : Target) (h : Hex) (wide : IsTarget t) (is_hex : IsHex h)
    (net : Transport C W S) (own : Provided C W S) (sent : C → Bytes) (accepted : W → Bytes)
    (tls_sent : S → Bytes) (law : IsTransport net sent accepted tls_sent) (reached : C → Bytes)
    (buffered_reached : W → Bytes) (tls_reached : S → Bytes)
    (plain_flush : IsFlush net.plain_write sent reached)
    (buffered_flush : IsFlush net.buffered_write accepted buffered_reached)
    (tls_flush : IsFlush net.tls_write tls_sent tls_reached)
    (loop : IsLoop (write net) own.write_all)
    (chunk_loop : IsLoop (Buffering.write t h net.plain_write) own.chunk_write_all)
    (crates : Crates) (is_crates : IsCrates crates) (unread : HttpConnection C W S → Bytes)
    (reads : (out : Bytes)
      → IsRead (http_read net own) (λ c. handed sent accepted tls_sent c ≡ out) unread) where
  -- The response was read from the connection once all of the request had been handed over, and had
  -- reached the peer, behind what the connection held before. Reading it handed over nothing more.
  pub record Exchanged {B : Type 0} (base64 : Bytes → Bytes) (b : RequestBody B) (body : B)
      (calls : List Call) (request : Request B) (rx_buf : Bytes) (c : HttpConnection C W S)
      (r : Response (HttpConnection C W S)) (c' : HttpConnection C W S) : Type 0 where
    pub wire : Bytes
    pub flushed : HttpConnection C W S
    pub sized : SizedWire t (b.len body) (payload calls) wire
    pub out_eq :
        handed sent accepted tls_sent flushed
        ≡ handed sent accepted tls_sent c ++ (head t base64 b request ++ wire)
    pub reached_eq :
        handed reached buffered_reached tls_reached flushed
        ≡ handed sent accepted tls_sent c ++ (head t base64 b request ++ wire)
    pub replied :
        Replied t crates is_crates
          (http_read net own)
          (λ d. handed sent accepted tls_sent d ≡ handed sent accepted tls_sent flushed)
          unread
          (reads (handed sent accepted tls_sent flushed))
          request.method
          rx_buf
          flushed
          r
          c'

  -- Let the connections and the parser keep to their interfaces, a `flush` that succeeds leave nothing
  -- that was handed over short of the peer, and reading hand over nothing.
  -- For a request whose body makes whole calls of slices whose lengths are a `usize`, and all of it
  -- too if a length is announced, and whose
  -- credentials and length fit their buffers, on a connection that has room behind the head if it
  -- is buffered, `send` does not panic. A response that it returns was read from the connection as
  -- `Response::read` reads it, after exactly the head and the body were handed over and had reached the
  -- peer.
  pub send_lem :
      {B : Type 0} (b : RequestBody B) (body : B) (calls : List Call)
      → Makes b body calls
      → IsWhole calls
      → (e : Encoders) (base64 : Bytes → Bytes) (request : Request B) (rx_buf : Bytes)
        (c : HttpConnection C W S)
      → IsEncoders e base64
      → request.body ≡ some body
      → Fits ShortAuth request.auth
      → ShortLength (b.len body)
      → AllFit (λ bs. IsUsize t (length bs)) calls
      → IsCounted t (b.len body) calls
      → ((c' : HttpConnection C W S)
          → write_header (http_write net own) t e b request c ≡ (ok tt, c')
          → IsRoomyConnection t net c')
      → Ends
          (send t h net own crates e b request rx_buf c)
          (Exchanged base64 b body calls request rx_buf c)
          (λ _ _. Unit {0})
  unfolding send
  send_lem b body calls makes whole e base64 request rx_buf c enc has_body auth len fit counted
        roomy =
      Ends-and_then _
        (write_request_lem t h wide is_hex net own sent accepted tls_sent law loop chunk_loop b body
          calls makes whole e base64 request c enc has_body auth len fit counted roomy)
        (λ _ c1 (wire, sized, s).
          after_request c1 wire sized s (flush_lem net sent accepted tls_sent law c1))
        (λ _ _ _. tt)
    where
      after_request :
          (c1 : HttpConnection C W S) (wire : Bytes)
          → SizedWire t (b.len body) (payload calls) wire
          → handed sent accepted tls_sent c1
            ≡ handed sent accepted tls_sent c ++ (head t base64 b request ++ wire)
          → Ends
              (flush net c1)
              (λ _ c2. handed sent accepted tls_sent c2 ≡ handed sent accepted tls_sent c1)
              (λ _ c2. handed sent accepted tls_sent c2 ≡ handed sent accepted tls_sent c1)
          → Ends
              (and_then
                (network (flush net) c1)
                (λ _. Read.read crates (http_read net own) t request.method rx_buf))
              (Exchanged base64 b body calls request rx_buf c)
              (λ _ _. Unit {0})
      after_request c1 wire sized s (ends_err x c2 e2 _) = rw e2 (ends_err (from_kind x) c2 refl tt)
      after_request c1 wire sized s (ends_ok _ c2 e2 s2) = rw e2 (
          Ends-mono
            (λ r c' replied. record {
              wire = wire;
              flushed = c2;
              sized = sized;
              out_eq = s2 ∙ s;
              reached_eq =
                  flush-IsFlush net sent accepted tls_sent law reached buffered_reached tls_reached
                    plain_flush buffered_flush tls_flush c1 c2 e2
                  ∙ s2
                  ∙ s;
              replied = replied;
            })
            (λ _ _ _. tt)
            (read_lem t crates is_crates (http_read net own)
              (λ d. handed sent accepted tls_sent d ≡ handed sent accepted tls_sent c2) unread
              (reads (handed sent accepted tls_sent c2)) request.method rx_buf c2 refl))
