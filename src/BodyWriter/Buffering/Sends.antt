-- ===== src/BodyWriter/Buffering/Sends.antt =====
-- What a call of the buffering writer does to the wire, seen from outside.
use reqwless.Base.{◌≡◌, ◌≢◌, refl, sym, ap, ◌∙◌, [], ◌++◌, append_assoc, append-nil, Bytes, Bool}
use reqwless.Base.Words.{Target}
use reqwless.Hex.{Hex}
use reqwless.Connection.{Write, IsWrite}
use reqwless.BodyWriter.Header.{chunk}
use reqwless.BodyWriter.Body.{IsChunked, IsChunked-nil, IsChunked-append, IsChunked-chunk}
use reqwless.BodyWriter.Buffering.{BufferingChunkedBodyWriter}
use reqwless.BodyWriter.Buffering.Emit.{IsFresh}
use reqwless.BodyWriter.Buffering.Layout.{out, pending}

module _ {C : Type 0} (t : Target) (sent : C → Bytes) where
  -- Non-empty chunks join what was handed over and waits. They carry the front of the old payload
  -- and the new bytes; the rest of these is the new payload.
  pub record Sends (bs : Bytes) (w w' : BufferingChunkedBodyWriter C) : Type 0 where
    pub carried : Bytes
    pub wire : Bytes
    pub chunked : IsChunked t carried wire
    pub handed : out sent w' ≡ out sent w ++ wire
    pub kept : carried ++ pending w' ≡ pending w ++ bs
    pub same : w'.terminated ≡ w.terminated

  pub Sends-nil : (w : BufferingChunkedBodyWriter C) → Sends [] w w
  Sends-nil w = record {
    carried = [];
    wire = [];
    chunked = IsChunked-nil t;
    handed = sym (append-nil (out sent w));
    kept = sym (append-nil (pending w));
    same = refl;
  }

  pub Sends-append :
      (bs cs : Bytes) (u v w : BufferingChunkedBodyWriter C)
      → Sends bs u v
      → Sends cs v w
      → Sends (bs ++ cs) u w
  Sends-append bs cs u v w a b = record {
    carried = a.carried ++ b.carried;
    wire = a.wire ++ b.wire;
    chunked = IsChunked-append t a.carried b.carried a.wire b.wire a.chunked b.chunked;
    handed = b.handed ∙ ap (λ z. z ++ b.wire) a.handed ∙ append_assoc (out sent u) a.wire b.wire;
    kept =
        append_assoc a.carried b.carried (pending w)
        ∙ ap (λ z. a.carried ++ z) b.kept
        ∙ sym (append_assoc a.carried (pending v) cs)
        ∙ ap (λ z. z ++ cs) a.kept
        ∙ append_assoc (pending u) bs cs;
    same = b.same ∙ a.same;
  }

  -- Bytes that only join the payload.
  pub Sends-payload :
      (bs : Bytes) (w w' : BufferingChunkedBodyWriter C)
      → out sent w' ≡ out sent w
      → pending w' ≡ pending w ++ bs
      → w'.terminated ≡ w.terminated
      → Sends bs w w'
  Sends-payload bs w w' o p s = record {
    carried = [];
    wire = [];
    chunked = IsChunked-nil t;
    handed = o ∙ sym (append-nil (out sent w));
    kept = p;
    same = s;
  }

  module _ (h : Hex) (conn : Write C) (law : IsWrite conn sent) where
    out-IsFresh :
        (done : Bool) (wire : Bytes) (w : BufferingChunkedBodyWriter C)
        → IsFresh t h conn sent law done wire w
        → out sent w ≡ wire
    out-IsFresh done wire w f =
        ap (λ z. sent w.conn ++ z) f.clear ∙ append-nil (sent w.conn) ∙ f.handed

    -- The buffer is sent, with no payload in it.
    pub Sends-fresh :
        (w w' : BufferingChunkedBodyWriter C)
        → pending w ≡ []
        → IsFresh t h conn sent law w.terminated (out sent w) w'
        → Sends [] w w'
    Sends-fresh w w' e f =
        Sends-payload [] w w' (out-IsFresh w.terminated (out sent w) w' f)
          (f.none_pending ∙ sym (append-nil (pending w) ∙ e)) f.same

    -- The payload is sent as a chunk, behind what the buffer holds.
    pub Sends-chunk :
        (payload : Bytes) (w w' : BufferingChunkedBodyWriter C)
        → pending w ≡ payload
        → payload ≢ []
        → IsFresh t h conn sent law w.terminated (out sent w ++ chunk t payload) w'
        → Sends [] w w'
    Sends-chunk payload w w' e ne f = record {
      carried = payload;
      wire = chunk t payload;
      chunked = IsChunked-chunk t payload ne;
      handed = out-IsFresh w.terminated (out sent w ++ chunk t payload) w' f;
      kept =
          ap (λ z. payload ++ z) f.none_pending
          ∙ append-nil payload
          ∙ sym e
          ∙ sym (append-nil (pending w));
      same = f.same;
    }
