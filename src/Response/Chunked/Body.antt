-- ===== src/Response/Chunked/Body.antt =====
-- What a chunked reader has still to deliver of a body, in each of its states.
use reqwless.Base.{
  ℕ, zero, suc, ◌-◌, ◌*◌, ◌^◌, ◌<◌, ◌≡◌, refl, subst, sym, ap, ◌∙◌, List, [], ◌∷◌, ◌++◌,
  append_assoc, arith, true, false, ◌⊎◌, inl, inr,
}
use reqwless.Base.{Bytes, All, length, Bool-cases, eq-nil_of_length}
use reqwless.Base.{Ends, Ends-mono, Ends-and_then, ends_ok, ends_err}
use reqwless.Base.Words.{Target, IsTarget, IsUsize, bits}
use reqwless.Connection.{Read, IsRead}
use reqwless.Connection.Failure.{IsFailure}
use reqwless.Hex.{Hex, IsHex}
use reqwless.Hex.Digits.{hex_text-small}
use reqwless.BodyWriter.Header.{newline, empty_chunk, chunk_header, chunk}
use reqwless.BodyWriter.Body.{NonEmpty, concat, chunks}
use reqwless.Response.Chunked.State.{ChunkState}
use reqwless.Response.Chunked.State
use reqwless.Response.Chunked.{
  ChunkedBodyReader, read_next_chunk_length, read_chunk_end, enter_chunk, finish_boundary,
  handle_chunk_boundary,
}
use reqwless.Response.Chunked.Lines.{At, read_next_chunk_length_lem, read_chunk_end_lem}
use native.Mathlib.Nat.{one-le-pow}

-- A chunk whose size the reader can hold, and the writer's `usize` too.
abbrev pub Small : Target → Bytes → Type 0
Small t bs = (length bs < 2 ^ 32) × IsUsize t (length bs)

-- Chunks with that payload, the empty chunk, and what follows the body.
abbrev pub Ahead : Target → Bytes → Bytes → Bytes → Type 0
Ahead t tail payload bytes =
    (pieces : List Bytes) × All NonEmpty pieces
    × All (Small t) pieces
    × (concat pieces ≡ payload)
    × (bytes ≡ chunks t pieces ++ (empty_chunk ++ tail))

abbrev pub Remains : Target → Bytes → ChunkState → Bytes → Bytes → Type 0
Remains t tail ChunkState.no_chunk payload bytes = Ahead t tail payload bytes
Remains t tail (ChunkState.not_empty k) payload bytes =
    (part : Bytes) × (more : Bytes) × (next : Bytes) × (length part ≡ k)
    × (k < 2 ^ 32)
    × (payload ≡ part ++ more)
    × (bytes ≡ part ++ (newline ++ next))
    × Ahead t tail more next
Remains t tail ChunkState.empty payload bytes = (payload ≡ []) × (bytes ≡ tail)

is_empty-eq : (state : ChunkState) → State.is_empty state ≡ true → state ≡ ChunkState.empty
is_empty-eq ChunkState.empty e = refl
is_empty-eq ChunkState.no_chunk e = cc
is_empty-eq (ChunkState.not_empty k) e = cc

zero-IsUsize : (t : Target) → IsUsize t 0
zero-IsUsize t = one-le-pow (bits t) 2 (omega arith)

chunk_apart :
    (t : Target) (p ws z : Bytes)
    → (chunk t p ++ ws) ++ z ≡ chunk_header t (length p) ++ (p ++ (newline ++ (ws ++ z)))
unfolding chunk
chunk_apart t p ws z =
    append_assoc (chunk_header t (length p) ++ (p ++ newline)) ws z
    ∙ append_assoc (chunk_header t (length p)) (p ++ newline) (ws ++ z)
    ∙ ap (λ y. chunk_header t (length p) ++ y) (append_assoc p newline (ws ++ z))

module _ {B : Type 0} (io : Read B) (Inv : B → Type 0) (unread : B → Bytes)
    (law : IsRead io Inv unread) (t t' : Target) (h : Hex) (is_hex : IsHex h) (wide : IsTarget t')
    (tail : Bytes) where
  -- The reader has still to deliver `payload`, and `tail` lies behind the body.
  pub record IsReading (payload : Bytes) (r : ChunkedBodyReader B) : Type 0 where
    pub inner : Inv r.raw_body
    pub remains : Remains t' tail r.chunk_remaining payload (unread r.raw_body)

  -- A chunk's end, and its header, in front of its payload.
  abbrev Entered : Bytes → ChunkedBodyReader B → Type 0
  Entered payload r =
      ((payload ≡ []) × At io Inv unread law ChunkState.empty (newline ++ tail) r)
      ⊎ ((k : ℕ) × (r.chunk_remaining ≡ ChunkState.not_empty (suc k)) × IsReading payload r)

  empty_chunk_header : empty_chunk ++ tail ≡ chunk_header t' 0 ++ (newline ++ tail)
  unfolding chunk_header
  empty_chunk_header = rw (hex_text-small (2 * t'.size - 1) 0 (omega arith))

  next_chunk :
      (payload bytes : Bytes) (state : ChunkState) (r : ChunkedBodyReader B)
      → Ahead t' tail payload bytes
      → At io Inv unread law state bytes r
      → Ends (read_next_chunk_length t h io r) (λ _ r'. Entered payload r') (λ x _. IsFailure io x)
  next_chunk payload bytes state r ([], _, _, c, e) (s, v, u) =
      Ends-mono (λ _ r' a. inl (sym c, a)) (λ _ _ f. f)
        (read_next_chunk_length_lem io Inv unread law t t' h 0 (newline ++ tail) state r is_hex wide
          (zero-IsUsize t') (omega arith) (s, v, u ∙ e ∙ empty_chunk_header))
  next_chunk payload bytes state r ([] ∷ pieces, (ne, _), _, c, e) a = absurd (ne refl)
  next_chunk payload bytes state r ((b ∷ bs) ∷ pieces, (_, ne), (small, smalls), c, e) (s, v, u) =
      Ends-mono
        (λ _ r' (s', v', u'). inr (
          length bs,
          s',
          record {
            inner = v';
            remains =
                subst (λ z. Remains t' tail z payload (unread r'.raw_body)) (sym s')
                  (
                    b ∷ bs,
                    concat pieces,
                    chunks t' pieces ++ (empty_chunk ++ tail),
                    refl,
                    small.0,
                    sym c,
                    u',
                    (pieces, ne, smalls, refl, refl),
                  );
          },
        ))
        (λ _ _ f. f)
        (read_next_chunk_length_lem io Inv unread law t t' h (length (b ∷ bs))
          ((b ∷ bs) ++ (newline ++ (chunks t' pieces ++ (empty_chunk ++ tail)))) state r is_hex wide
          small.1 small.0
          (s, v, u ∙ e ∙ chunk_apart t' (b ∷ bs) (chunks t' pieces) (empty_chunk ++ tail)))

  -- The reader comes to a chunk with bytes left in it, or to the empty chunk.
  enter_chunk_lem :
      (state : ChunkState) (payload : Bytes) (r : ChunkedBodyReader B)
      → State.is_empty state ≡ false
      → r.chunk_remaining ≡ state
      → Inv r.raw_body
      → Remains t' tail state payload (unread r.raw_body)
      → Ends (enter_chunk t h io state r) (λ _ r'. Entered payload r') (λ x _. IsFailure io x)
  unfolding enter_chunk
  enter_chunk_lem ChunkState.empty payload r f s v m = cc
  enter_chunk_lem ChunkState.no_chunk payload r f s v m =
      next_chunk payload (unread r.raw_body) ChunkState.no_chunk r m (s, v, refl)
  enter_chunk_lem (ChunkState.not_empty (suc k)) payload r f s v m = ends_ok tt r refl (
      inr (
        k,
        s,
        record {
          inner = v;
          remains = subst (λ z. Remains t' tail z payload (unread r.raw_body)) (sym s) m;
        },
      ))
  enter_chunk_lem (ChunkState.not_empty zero) payload r f s v (part, more, next, l, _, p, u, a) =
      let none : part ≡ [] = eq-nil_of_length part l in
      let rest : payload ≡ more = p ∙ ap (λ z. z ++ more) none in
      Ends-and_then _
        (read_chunk_end_lem io Inv unread law (ChunkState.not_empty zero) next r
          (s, v, u ∙ ap (λ z. z ++ (newline ++ next)) none))
        (λ _ r' at_next.
          next_chunk payload next (ChunkState.not_empty zero) r'
            (subst (λ z. Ahead t' tail z next) (sym rest) a) at_next)
        (λ _ _ f. f)

  -- What `handle_chunk_boundary` comes to: the bytes left in the chunk, none at the end only.
  abbrev pub Bounded : Bytes → ℕ → ChunkedBodyReader B → Type 0
  Bounded payload k r =
      IsReading payload r
      × (k ≡ State.len r.chunk_remaining)
      × ((r.chunk_remaining ≡ ChunkState.empty)
          ⊎ ((j : ℕ) × (r.chunk_remaining ≡ ChunkState.not_empty (suc j))))

  finish_boundary_end :
      (r : ChunkedBodyReader B)
      → r.chunk_remaining ≡ ChunkState.empty
      → Ends
          (read_chunk_end io r)
          (λ _ r'. At io Inv unread law ChunkState.empty tail r')
          (λ x _. IsFailure io x)
      → Ends (finish_boundary io r) (Bounded []) (λ x _. IsFailure io x)
  unfolding finish_boundary State.len
  finish_boundary_end r s ends = elim ends [
    | ends_err x r' e f ↦ ends_err x r' (rw (ap State.is_empty s, e)) f
    | ends_ok _ r' e (s', v', u') ↦
        ends_ok (State.len r'.chunk_remaining) r' (rw (ap State.is_empty s, e)) (
          record {
            inner = v';
            remains = subst (λ z. Remains t' tail z [] (unread r'.raw_body)) (sym s') (refl, u');
          },
          refl,
          inl s',
        )
  ]

  finish_boundary_chunk :
      (payload : Bytes) (k : ℕ) (r : ChunkedBodyReader B)
      → r.chunk_remaining ≡ ChunkState.not_empty (suc k)
      → IsReading payload r
      → Ends (finish_boundary io r) (Bounded payload) (λ x _. IsFailure io x)
  unfolding finish_boundary
  finish_boundary_chunk payload k r s v =
      ends_ok (State.len r.chunk_remaining) r (rw (ap State.is_empty s)) (v, refl, inr (k, s))

  finish_boundary_lem :
      (payload : Bytes) (r : ChunkedBodyReader B)
      → Entered payload r
      → Ends (finish_boundary io r) (Bounded payload) (λ x _. IsFailure io x)
  finish_boundary_lem payload r (inr (k, s, v)) = finish_boundary_chunk payload k r s v
  finish_boundary_lem payload r (inl (e, (s, v, u))) =
      subst (λ z. Ends (finish_boundary io r) (Bounded z) (λ x _. IsFailure io x)) (sym e)
        (finish_boundary_end r s
          (read_chunk_end_lem io Inv unread law ChunkState.empty tail r (s, v, u)))

  pub handle_chunk_boundary_lem :
      (payload : Bytes) (r : ChunkedBodyReader B)
      → IsReading payload r
      → Ends (handle_chunk_boundary t h io r) (Bounded payload) (λ x _. IsFailure io x)
  unfolding handle_chunk_boundary State.len
  handle_chunk_boundary_lem payload r v = elim (Bool-cases (State.is_empty r.chunk_remaining)) [
    | inl over ↦
        let s = is_empty-eq r.chunk_remaining over in
        ends_ok 0 r (rw over) (v, sym (ap State.len s), inl s)
    | inr going ↦ rw going (
        Ends-and_then (λ _. finish_boundary io)
          (enter_chunk_lem r.chunk_remaining payload r going refl v.inner v.remains)
          (λ _ r' entered. finish_boundary_lem payload r' entered) (λ _ _ f. f))
  ]
