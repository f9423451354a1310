-- ===== src/BodyWriter/Body.antt =====
-- The chunked coding of a body, as the writers put it on the wire: the specification.
use reqwless.Base.{
  ◌≡◌, ◌≢◌, refl, ap, ◌∙◌, sym, List, [], ◌∷◌, ◌++◌, append_assoc, append-nil, Bytes, All,
  All-append,
}
use reqwless.Base.Words.{Target}
use reqwless.BodyWriter.Header.{chunk}

abbrev pub NonEmpty : Bytes → Type 0
NonEmpty bs = bs ≢ []

abbrev pub concat : List Bytes → Bytes
concat [] = []
concat (bs ∷ rest) = bs ++ concat rest

abbrev pub chunks : Target → List Bytes → Bytes
chunks t [] = []
chunks t (bs ∷ rest) = chunk t bs ++ chunks t rest

-- `wire` is a run of non-empty chunks that carry `payload`.
pub record IsChunked (t : Target) (payload wire : Bytes) : Type 0 where
  pub pieces : List Bytes
  pub non_empty : All NonEmpty pieces
  pub carried : concat pieces ≡ payload
  pub written : wire ≡ chunks t pieces

pub concat-append : (xs ys : List Bytes) → concat (xs ++ ys) ≡ concat xs ++ concat ys
concat-append [] ys = refl
concat-append (x ∷ xs) ys =
    ap (λ r. x ++ r) (concat-append xs ys) ∙ sym (append_assoc x (concat xs) (concat ys))

module _ (t : Target) where
  pub chunks-append : (xs ys : List Bytes) → chunks t (xs ++ ys) ≡ chunks t xs ++ chunks t ys
  chunks-append [] ys = refl
  chunks-append (x ∷ xs) ys =
      ap (λ r. chunk t x ++ r) (chunks-append xs ys)
      ∙ sym (append_assoc (chunk t x) (chunks t xs) (chunks t ys))

  pub IsChunked-nil : IsChunked t [] []
  IsChunked-nil = record { pieces = []; non_empty = tt; carried = refl; written = refl }

  pub IsChunked-append :
      (p q v w : Bytes) → IsChunked t p v → IsChunked t q w → IsChunked t (p ++ q) (v ++ w)
  IsChunked-append p q v w a b = record {
    pieces = a.pieces ++ b.pieces;
    non_empty = All-append NonEmpty a.pieces b.pieces a.non_empty b.non_empty;
    carried = concat-append a.pieces b.pieces ∙ rw (a.carried, b.carried);
    written = rw (a.written, b.written) (sym (chunks-append a.pieces b.pieces));
  }

  pub IsChunked-chunk : (p : Bytes) → NonEmpty p → IsChunked t p (chunk t p)
  IsChunked-chunk p h = record {
    pieces = p ∷ [];
    non_empty = (h, tt);
    carried = append-nil p;
    written = sym (append-nil (chunk t p));
  }
