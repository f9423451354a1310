-- ===== src/Client/Wire.antt =====
-- client.rs: what `HttpConnection::write_request` puts on the wire.
use reqwless.Base.{
  ℕ, zero, suc, ◌-◌, ◌≤◌, ◌≡◌, ◌≢◌, refl, sym, ap, ◌∙◌, subst, List, [], ◌++◌, append-nil,
  append_assoc, Bytes, length, take, Option, none, some,
}
use reqwless.Base.{Outcome, ok, Ends, Ends-mono, ends_ok, ends_err}
use reqwless.Base.Words.{Target, IsTarget, IsUsize}
use reqwless.Hex.{Hex, IsHex}
use reqwless.Errors.{Error}
use reqwless.Connection.Calls.{Call, run, AllFit}
use reqwless.Connection.Loop.{IsLoop}
use reqwless.BodyWriter.Header.{empty_chunk}
use reqwless.BodyWriter.Body.{IsChunked}
use reqwless.BodyWriter.Buffering.{BufferingChunkedBodyWriter, new_with_data}
use reqwless.BodyWriter.Buffering
use reqwless.BodyWriter.Buffering.Session.{buffering_write, run_buffered}
use reqwless.Request.{Request}
use reqwless.Request.Body.{RequestBody}
use reqwless.Request.Head.{Encoders, write_header}
use reqwless.Request.Laws.{IsEncoders, Fits, head}
use reqwless.Request.Wire.{ShortAuth, ShortLength, write_header-Puts}
use reqwless.Client.{HttpConnection, Transport, Provided, http_write, write}
use reqwless.Client.Send.{
  given_back, write_buffered, write_unsized, write_sized, write_body, write_request,
}
use reqwless.Client.Carriers.{IsTransport, Ends-wrapped, handed, http_write-IsWrite}
use reqwless.Client.Bodies.{
  payload, IsWhole, Makes, run-payload, Ends-session, write_fixed_lem, write_chunked_lem,
}

-- The buffer has six bytes or more, of which any but three are left behind those that wait in it.
abbrev pub IsRoomy : {W C S : Type 0} → Target → Transport C W S → W → Type 0
IsRoomy t net w =
    IsUsize t (length (net.split w).1)
    × (6 ≤ length (net.split w).1)
    × (length (net.split w).1 - (net.split w).2 ≢ 3)

abbrev pub IsRoomyConnection :
    {W C S : Type 0} → Target → Transport C W S → HttpConnection C W S → Type 0
IsRoomyConnection t net (HttpConnection.plain_buffered w) = IsRoomy t net w
IsRoomyConnection t net _ = Unit {0}

-- The bytes of a body on the wire, by the length that it announces.
abbrev pub SizedWire : Target → Option ℕ → Bytes → Bytes → Type 0
SizedWire t none body wire =
    (chunks : Bytes) × IsChunked t body chunks × (wire ≡ chunks ++ empty_chunk)
SizedWire t (some zero) body wire = wire ≡ []
SizedWire t (some (suc n)) body wire = (wire ≡ body) × (length body ≡ suc n)

-- A body whose length is announced is counted, and so is a `usize` in all.
abbrev pub IsCounted : Target → Option ℕ → List Call → Type 0
IsCounted t (some (suc n)) calls = IsUsize t (length (payload calls))
IsCounted t _ calls = Unit {0}

module _ {C W S : Type 0} (t : Target) (h : Hex) (wide : IsTarget t) (is_hex : IsHex h)
    (net : Transport C W S) (own : Provided C W S) (sent : C → Bytes) (accepted : W → Bytes)
    (tls_sent : S → Bytes) (law : IsTransport net sent accepted tls_sent)
    (loop : IsLoop (write net) own.write_all)
    (chunk_loop : IsLoop (Buffering.write t h net.plain_write) own.chunk_write_all) where
  abbrev on_wire : HttpConnection C W S → Bytes
  on_wire = handed sent accepted tls_sent

  module _ {B : Type 0} (b : RequestBody B) (body : B) (calls : List Call)
      (makes : Makes b body calls) (whole : IsWhole calls) where
    -- What the peer was handed for the body, behind what the buffered writer had accepted before.
    abbrev Buffered : W → Outcome Error (Unit {0}) × W → Type 0
    Buffered w r =
        Ends r
          (λ _ w'.
            (chunks : Bytes) × IsChunked t (payload calls) chunks
            × (accepted w' ≡ accepted w ++ (chunks ++ empty_chunk)))
          (λ _ _. Unit {0})

    given_back_lem :
        (w : W) (r : Outcome Error (Unit {0}) × BufferingChunkedBodyWriter C)
        → Ends r
            (λ _ u.
              (chunks : Bytes) × IsChunked t (payload calls) chunks
              × (sent u.conn ≡ accepted w ++ (chunks ++ empty_chunk)))
            (λ _ _. Unit {0})
        → Buffered w (given_back t h net own w r)
    given_back_lem w r (ends_ok _ u e (chunks, c, s)) =
        rw e (ends_ok tt _ refl (chunks, c, law.clear_lem u.conn u.buf w ∙ s))
    given_back_lem w r (ends_err x u e _) = rw e (ends_err x _ refl tt)

    write_buffered_lem :
        (w : W) → IsRoomy t net w → Buffered w (write_buffered t h net own b body w)
    unfolding write_buffered
    write_buffered_lem w (fits, large, nt) =
        let (le, before) = law.split_lem w in
        let writes = buffering_write t h net.plain_write own.chunk_write_all in
        let (writer, e, session) =
          run_buffered t h net.plain_write sent wide is_hex law.plain_lem own.chunk_write_all
            chunk_loop (net.split w).0 (net.split w).1 (net.split w).2 calls fits large le nt in
        rw (e, makes.write_eq (BufferingChunkedBodyWriter C) writes)
          (given_back_lem w _ (
            Ends-mono
              (λ _ u (taken, v, e', (chunks, c, s, _)). (
                chunks,
                subst (λ z. IsChunked t z chunks) (run-payload writes calls writer v taken whole e')
                    c,
                s
                    ∙ sym (
                        append_assoc (sent (net.split w).0) (take (net.split w).2 (net.split w).1)
                          (chunks ++ empty_chunk))
                    ∙ ap (λ z. z ++ (chunks ++ empty_chunk)) (sym before),
              ))
              (λ _ _ _. tt)
              (Ends-session (run writes calls) (Buffering.terminate t h net.plain_write) writer
                session)))

    -- A body of unknown length, on each kind of connection.
    write_unsized_lem :
        (c : HttpConnection C W S)
        → AllFit (λ bs. IsUsize t (length bs)) calls
        → IsRoomyConnection t net c
        → Ends
            (write_unsized t h net own b body c)
            (λ _ c'.
              (chunks : Bytes) × IsChunked t (payload calls) chunks
              × (on_wire c' ≡ on_wire c ++ (chunks ++ empty_chunk)))
            (λ _ _. Unit {0})
    unfolding write_unsized
    write_unsized_lem (HttpConnection.plain c) fit roomy =
        Ends-wrapped HttpConnection.plain _
          (write_chunked_lem t h wide is_hex b body calls makes whole net.plain_write sent c
            law.plain_lem fit)
          (λ _ _ p. p) (λ _ _ _. tt)
    write_unsized_lem (HttpConnection.plain_buffered w) fit roomy =
        Ends-wrapped HttpConnection.plain_buffered _ (write_buffered_lem w roomy) (λ _ _ p. p)
          (λ _ _ _. tt)
    write_unsized_lem (HttpConnection.tls s) fit roomy =
        Ends-wrapped HttpConnection.tls _
          (write_chunked_lem t h wide is_hex b body calls makes whole net.tls_write tls_sent s
            law.tls_lem fit)
          (λ _ _ p. p) (λ _ _ _. tt)

    write_sized_lem :
        (len : Option ℕ) (c : HttpConnection C W S)
        → AllFit (λ bs. IsUsize t (length bs)) calls
        → IsCounted t len calls
        → IsRoomyConnection t net c
        → Ends
            (write_sized t h net own b body len c)
            (λ _ c'.
              (wire : Bytes) × SizedWire t len (payload calls) wire
              × (on_wire c' ≡ on_wire c ++ wire))
            (λ _ _. Unit {0})
    write_sized_lem none c fit counted roomy =
        Ends-mono (λ _ c' (chunks, k, s). (chunks ++ empty_chunk, (chunks, k, refl), s))
          (λ _ _ _. tt) (write_unsized_lem c fit roomy)
    write_sized_lem (some zero) c fit counted roomy =
        ends_ok tt c refl ([], refl, sym (append-nil (on_wire c)))
    write_sized_lem (some (suc n)) c fit counted roomy =
        Ends-mono (λ _ c' (s, l). (payload calls, (refl, l), s)) (λ _ _ _. tt)
          (write_fixed_lem t h wide is_hex b body calls makes whole (http_write net own) on_wire
            (suc n) c (http_write-IsWrite net sent accepted tls_sent law own loop) counted)

    -- The body, where the request has one, behind its head.
    body_lem :
        (o : Option B) (c : HttpConnection C W S)
        → o ≡ some body
        → AllFit (λ bs. IsUsize t (length bs)) calls
        → IsCounted t (b.len body) calls
        → IsRoomyConnection t net c
        → Ends
            (write_body t h net own b o c)
            (λ _ c'.
              (wire : Bytes) × SizedWire t (b.len body) (payload calls) wire
              × (on_wire c' ≡ on_wire c ++ wire))
            (λ _ _. Unit {0})
    body_lem o c has_body fit counted roomy =
        rw has_body (write_sized_lem (b.len body) c fit counted roomy)

    -- Let the connections keep to their interfaces, and the provided `write_all` be the documented
    -- loop. For a request with a body that makes whole calls, whose credentials and announced
    -- length fit their buffers, whose slices have lengths of a `usize`, and all of it too if a length is announced, on a connection that has
    -- room behind the header if it is buffered: unless `write_request` fails, the peer was handed,
    -- or the buffered writer accepted, the head and then the body: nothing if its length is
    -- announced as 0, the bytes themselves, of the announced length, if that is another, and
    -- otherwise non-empty chunks that carry the bytes, with the empty chunk. Nothing panics.
    pub write_request_lem :
        (e : Encoders) (base64 : Bytes → Bytes) (request : Request B) (c : HttpConnection C W S)
        → IsEncoders e base64
        → request.body ≡ some body
        → Fits ShortAuth request.auth
        → ShortLength (b.len body)
        → AllFit (λ bs. IsUsize t (length bs)) calls
        → IsCounted t (b.len body) calls
        → ((c' : HttpConnection C W S)
            → write_header (http_write net own) t e b request c ≡ (ok tt, c')
            → IsRoomyConnection t net c')
        → Ends
            (write_request t h net own e b request c)
            (λ _ c'.
              (wire : Bytes) × SizedWire t (b.len body) (payload calls) wire
              × (on_wire c' ≡ on_wire c ++ (head t base64 b request ++ wire)))
            (λ _ _. Unit {0})
    unfolding write_request
    write_request_lem e base64 request c enc has_body auth len fit counted roomy =
        let puts =
          write_header-Puts (http_write net own) on_wire
            (http_write-IsWrite net sent accepted tls_sent law own loop) t e base64 enc b request
            auth (subst (Fits (λ body. ShortLength (b.len body))) (sym has_body) len) c in
        elim puts [
          | ends_err x c' e1 _ ↦ ends_err x c' (rw e1) tt
          | ends_ok _ c' e1 s ↦ rw e1 (
              Ends-mono
                (λ _ c'' (wire, k, s'). (
                  wire,
                  k,
                  s'
                      ∙ ap (λ z. z ++ wire) s
                      ∙ append_assoc (on_wire c) (head t base64 b request) wire,
                ))
                (λ _ _ _. tt) (body_lem request.body c' has_body fit counted (roomy c' e1)))
        ]
