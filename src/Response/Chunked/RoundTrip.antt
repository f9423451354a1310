-- ===== src/Response/Chunked/RoundTrip.antt =====
-- What the body writers send is what the chunked reader delivers.
use reqwless.Base.{◌+◌, ◌<◌, ◌^◌, ◌≡◌, ap, ◌∙◌, List, [], ◌∷◌, ◌++◌, arith}
use reqwless.Base.{Bytes, All, length, length-append}
use reqwless.Base.Words.{Target, IsTarget, IsUsize}
use reqwless.Connection.{Read, IsRead}
use reqwless.Hex.{Hex, IsHex}
use reqwless.BodyWriter.Header.{empty_chunk}
use reqwless.BodyWriter.Body.{IsChunked, concat}
use reqwless.Response.Chunked.{ChunkedBodyReader}
use reqwless.Response.Chunked
use reqwless.Response.Chunked.Body.{Small, IsReading}

pieces-Small :
    (t : Target) (pieces : List Bytes)
    → length (concat pieces) < 2 ^ 32
    → IsUsize t (length (concat pieces))
    → All (Small t) pieces
pieces-Small t [] h fits = tt
pieces-Small t (p ∷ pieces) h fits =
    let total : length (concat (p ∷ pieces)) ≡ length p + length (concat pieces) =
      length-append p (concat pieces) in
    (
      (omega (arith, total, h), omega (arith, total, fits)),
      pieces-Small t pieces (omega (arith, total, h)) (omega (arith, total, fits)),
    )

module _ {B : Type 0} (io : Read B) (Inv : B → Type 0) (unread : B → Bytes)
    (law : IsRead io Inv unread) (t t' : Target) (h : Hex) (is_hex : IsHex h) (wide : IsTarget t')
    (tail : Bytes) where
  -- A new chunked reader, whose connection delivers non-empty chunks with a payload of less than 2
  -- to the 32 bytes, which is also a `usize` of the writer, then the empty chunk and whatever
  -- follows, has exactly that payload to deliver.
  pub IsChunked-IsReading :
      (raw : B) (payload wire : Bytes)
      → Inv raw
      → IsChunked t' payload wire
      → length payload < 2 ^ 32
      → IsUsize t' (length payload)
      → unread raw ≡ wire ++ (empty_chunk ++ tail)
      → IsReading io Inv unread law t t' h is_hex wide tail payload (Chunked.new raw)
  IsChunked-IsReading raw payload wire v c small fits e =
      let l : length (concat c.pieces) ≡ length payload = ap length c.carried in
      record {
        inner = v;
        remains = (
          c.pieces,
          c.non_empty,
          pieces-Small t' c.pieces (omega (arith, l, small)) (omega (arith, l, fits)),
          c.carried,
          e ∙ ap (λ z. z ++ (empty_chunk ++ tail)) c.written,
        );
      }
