-- ===== src/Response/Chunked/Delivery.antt =====
-- `ChunkedBodyReader::read` delivers the payload of the chunks.
use reqwless.Base.{
  ℕ, suc, ◌+◌, ◌%◌, ◌^◌, ◌≤◌, ◌<◌, ◌≡◌, refl, subst, sym, ap, ◌∙◌, [], ◌∷◌, ◌++◌, append_assoc,
  arith, true, ◌⊎◌, inl, inr, min,
}
use reqwless.Base.{Bytes, length, length-append, eq-nil_of_length}
use reqwless.Base.{ok, err, Ends, ends_ok, ends_err}
use reqwless.Base.Words.{Target, IsTarget}
use reqwless.Errors.{Error, ErrorKind}
use reqwless.Connection.{Read, IsRead}
use reqwless.Connection.Failure.{IsFailure, of_read}
use reqwless.Hex.{Hex, IsHex}
use reqwless.BodyWriter.Header.{newline}
use reqwless.Response.Chunked.State.{ChunkState}
use reqwless.Response.Chunked.State
use reqwless.Response.Chunked.{ChunkedBodyReader, handle_chunk_boundary, read, is_done}
use reqwless.Response.Chunked.Body.{Remains, IsReading, Bounded, handle_chunk_boundary_lem}

prefix_split :
    (bs xs ys zs : Bytes)
    → length bs ≤ length xs
    → bs ++ zs ≡ xs ++ ys
    → (mid : Bytes) × (xs ≡ bs ++ mid) × (zs ≡ mid ++ ys)
prefix_split [] xs ys zs le e = (xs, refl, e)
prefix_split (b ∷ bs) [] ys zs le e = absurd (omega arith)
prefix_split (b ∷ bs) (x ∷ xs) ys zs le e =
    let tails : bs ++ zs ≡ xs ++ ys = cc in
    let heads : x ≡ b = cc in
    let (mid, e1, e2) = prefix_split bs xs ys zs (omega arith) tails in (mid, cc, e2)

consume-empty : (n : ℕ) → (State.consume ChunkState.empty n).1 ≡ ChunkState.empty
unfolding State.consume
consume-empty n = refl

module _ {B : Type 0} (io : Read B) (Inv : B → Type 0) (unread : B → Bytes)
    (law : IsRead io Inv unread) (t t' : Target) (h : Hex) (is_hex : IsHex h) (wide : IsTarget t')
    (tail : Bytes) where
  abbrev Reading : Bytes → ChunkedBodyReader B → Type 0
  Reading = IsReading io Inv unread law t t' h is_hex wide tail

  -- What `read` promises of a body with that payload: the rest of it is still to come, and nothing
  -- is delivered only into an empty slice or at the end of the body.
  abbrev pub Delivers : Bytes → ℕ → Bytes → ChunkedBodyReader B → Type 0
  Delivers payload n bs r' =
      (length bs ≤ n)
      × ((rest : Bytes) × (payload ≡ bs ++ rest) × Reading rest r')
      × (bs ≡ [] → (n ≡ 0) ⊎ ((payload ≡ []) × (is_done r' ≡ true)))

  read_run :
      (n k : ℕ) (r r1 : ChunkedBodyReader B) (bs : Bytes) (b' : B)
      → handle_chunk_boundary t h io r ≡ (ok k, r1)
      → io.read (min n k) r1.raw_body ≡ (ok bs, b')
      → read t h io n r ≡ (
        ok bs,
        record {
          raw_body = b';
          chunk_remaining = (State.consume r1.chunk_remaining (length bs)).1;
        },
      )
  unfolding read
  read_run n k r r1 bs b' e e' = rw (e, e')

  read_failed :
      (n k : ℕ) (r r1 : ChunkedBodyReader B) (x : ErrorKind) (b' : B)
      → handle_chunk_boundary t h io r ≡ (ok k, r1)
      → io.read (min n k) r1.raw_body ≡ (err x, b')
      → read t h io n r ≡ (err (Error.network x), record r1 { raw_body = b' })
  unfolding read
  read_failed n k r r1 x b' e e' = rw (e, e')

  read_no_chunk :
      (n : ℕ) (r r1 : ChunkedBodyReader B) (x : Error)
      → handle_chunk_boundary t h io r ≡ (err x, r1)
      → read t h io n r ≡ (err x, r1)
  unfolding read
  read_no_chunk n r r1 x e = rw e

  -- Bytes of the current chunk are delivered and counted.
  deliver :
      (payload : Bytes) (n j : ℕ) (bs : Bytes) (b b' : B)
      → Remains t' tail (ChunkState.not_empty (suc j)) payload (unread b)
      → Inv b'
      → length bs ≤ min n (suc j)
      → unread b ≡ bs ++ unread b'
      → (bs ≡ [] → (min n (suc j) ≡ 0) ⊎ (unread b ≡ []))
      → Delivers payload n bs (record {
        raw_body = b';
        chunk_remaining = (State.consume (ChunkState.not_empty (suc j)) (length bs)).1;
      })
  unfolding State.consume
  deliver payload n j bs b b' (part, more, next, l, small, p, u, a) v le ub stop =
      let (mid, e1, e2) =
        prefix_split bs part (newline ++ next) (unread b') (omega (arith, l)) (sym ub ∙ u) in
      let total : length part ≡ length bs + length mid = ap length e1 ∙ length-append bs mid in
      let counted : min (length bs % 2 ^ 32) (suc j) ≡ length bs =
        count (length bs) (omega (arith, total, l)) small in
      (
        omega arith,
        (
          mid ++ more,
          p ∙ ap (λ z. z ++ more) e1 ∙ append_assoc bs mid more,
          record {
            inner = v;
            remains = (
              mid,
              more,
              next,
              omega (arith, total, l, counted),
              omega (arith, small),
              refl,
              e2,
              a,
            );
          },
        ),
        (λ z. inl (stopped (stop z))),
      )
    where
      count : (m : ℕ) → m ≤ suc j → suc j < 2 ^ 32 → min (m % 2 ^ 32) (suc j) ≡ m
      count m le small = omega arith

      stopped : (min n (suc j) ≡ 0) ⊎ (unread b ≡ []) → n ≡ 0
      stopped (inl z) = omega (arith, z)
      stopped (inr z) =
          absurd (omega (arith, l, ap length (sym u ∙ z), length-append part (newline ++ next)))

  after_boundary :
      (payload : Bytes) (n k : ℕ) (r r1 : ChunkedBodyReader B)
      → handle_chunk_boundary t h io r ≡ (ok k, r1)
      → Bounded io Inv unread law t t' h is_hex wide tail payload k r1
      → Ends (read t h io n r) (Delivers payload n) (λ x _. IsFailure io x)
  unfolding is_done State.len
  after_boundary payload n k r r1 e (v, ek, inl s) =
      elim (law.read_lem (min n k) r1.raw_body v.inner) [
        | ends_err x b' e' _ ↦
            ends_err (Error.network x) (record r1 { raw_body = b' })
              (read_failed n k r r1 x b' e e') (of_read x (min n k) r1.raw_body b' e')
        | ends_ok bs b' e' (v', le, u, _) ↦
            let zero_left : k ≡ 0 = ek ∙ ap State.len s in
            let nothing : bs ≡ [] = eq-nil_of_length bs (omega (arith, le, zero_left)) in
            let (done, at_tail) =
              subst (λ z. Remains t' tail z payload (unread r1.raw_body)) s v.remains in
            ends_ok bs (record { raw_body = b'; chunk_remaining = ChunkState.empty })
              (read_run n k r r1 bs b' e e'
                ∙ ap (λ z. (ok bs, record { raw_body = b'; chunk_remaining = z }))
                    (ap (λ z. (State.consume z (length bs)).1) s ∙ consume-empty (length bs)))
              (
                omega (arith, le),
                (
                  [],
                  done ∙ sym (ap (λ z. z ++ []) nothing),
                  record {
                    inner = v';
                    remains = (refl, ap (λ z. z ++ unread b') (sym nothing) ∙ sym u ∙ at_tail);
                  },
                ),
                (λ _. inr (done, refl)),
              )
      ]
  after_boundary payload n k r r1 e (v, ek, inr (j, s)) =
      elim (law.read_lem (min n k) r1.raw_body v.inner) [
        | ends_err x b' e' _ ↦
            ends_err (Error.network x) (record r1 { raw_body = b' })
              (read_failed n k r r1 x b' e e') (of_read x (min n k) r1.raw_body b' e')
        | ends_ok bs b' e' (v', le, u, stop) ↦
            let left : k ≡ suc j = ek ∙ ap State.len s in
            ends_ok bs _
              (read_run n k r r1 bs b' e e'
                ∙ ap
                    (λ z. (
                      ok bs,
                      record { raw_body = b'; chunk_remaining = (State.consume z (length bs)).1 },
                    ))
                    s)
              (deliver payload n j bs r1.raw_body b'
                (subst (λ z. Remains t' tail z payload (unread r1.raw_body)) s v.remains) v'
                (omega (arith, le, left)) u
                (λ z. subst (λ m. (min n m ≡ 0) ⊎ (unread r1.raw_body ≡ [])) left (stop z)))
      ]

  -- `read` on a chunked body in whatever state: it fails only with an error of the connection, and
  -- else delivers what comes next of the payload, and leaves the rest to come. Nothing is delivered only into an empty slice
  -- or at the end of the body, which `is_done` then tells. Nothing panics.
  pub chunked-read_lem :
      (payload : Bytes) (n : ℕ) (r : ChunkedBodyReader B)
      → Reading payload r
      → Ends (read t h io n r) (Delivers payload n) (λ x _. IsFailure io x)
  chunked-read_lem payload n r v =
      elim (handle_chunk_boundary_lem io Inv unread law t t' h is_hex wide tail payload r v) [
        | ends_err x r1 e f ↦ ends_err x r1 (read_no_chunk n r r1 x e) f
        | ends_ok k r1 e b ↦ after_boundary payload n k r r1 e b
      ]
