-- ===== src/BodyWriter/Buffering/Append.antt =====
-- `write`: bytes join the payload, and a full chunk is finished and sent.
use reqwless.Base.{
  ℕ, ◌+◌, ◌-◌, ◌≤◌, ◌<◌, ◌≡◌, refl, sym, ap, ◌∙◌, ◌∷◌, ◌++◌, append_assoc, arith, Bool, min,
}
use reqwless.Base.{
  Bytes, length, length-append, take, append_regroup, length-append_three, take-append, split_at,
  lt→ltb,
}
use reqwless.Base.{ok, copy_from_slice, copy_from_slice-append}
use reqwless.BodyWriter.Buffering.{append_current_chunk}
use reqwless.BodyWriter.Buffering.Layout.{state, layout}

-- `src` laid over the bytes behind the payload.
lay_over :
    {E : Type 0} (front header payload old room src : Bytes) (pos : ℕ)
    → pos ≡ length front + length header + length payload
    → length old ≡ length src
    → copy_from_slice {E = E} pos
        (pos + length src)
        src
        (front ++ (header ++ (payload ++ (old ++ room))))
      ≡ (ok tt, front ++ (header ++ ((payload ++ src) ++ room)))
lay_over front header payload old room src pos hp l =
    let body = front ++ (header ++ payload) in
    ap (copy_from_slice pos (pos + length src) src)
      (append_regroup front header payload (old ++ room))
    ∙ copy_from_slice-append body old room src pos (pos + length src)
        (hp ∙ sym (length-append_three front header payload)) refl l
    ∙ ap (λ z. (ok tt, z))
        (sym (append_regroup front header payload (src ++ room))
          ∙ ap (λ z. front ++ (header ++ z)) (sym (append_assoc payload src room)))

module _ {C E : Type 0} (c : C) (done : Bool) where
  -- As much as the room behind the payload takes, two bytes of it kept for the footer.
  append_some :
      (front header payload old room src bs : Bytes)
      → length old ≡ length src
      → 0 < length src
      → take (length src) bs ≡ src
      → min (length bs) (length old + length room - 2) ≡ length src
      → append_current_chunk {E = E} bs (layout c done front header payload (old ++ room))
        ≡ (ok (length src), layout c done front header (payload ++ src) room)
  unfolding append_current_chunk
  append_some front header payload old room src bs l pos e k =
      rw
        (
          amount,
          lt→ltb 0 (length src) pos,
          e,
          lay_over {E = E} front header payload old room src
              (length front + length header + length payload) refl l,
        )
        (ap
          (λ p. (
            ok (length src),
            state c done (front ++ (header ++ ((payload ++ src) ++ room))) (length front)
                (length header) p,
          ))
          (omega (arith, length-append payload src)))
    where
      amount :
          min (length bs) (
            length (front ++ (header ++ (payload ++ (old ++ room))))
            - (2 + (length front + length header + length payload)))
          ≡ length src
      amount =
          ap (λ n. min (length bs) n)
            (omega (
              arith,
              length-append front (header ++ (payload ++ (old ++ room))),
              length-append_three header payload (old ++ room),
              length-append old room,
            ))
          ∙ k

  pub append_none :
      (front header payload room bs : Bytes)
      → length room ≤ 2
      → append_current_chunk {E = E} bs (layout c done front header payload room)
        ≡ (ok 0, layout c done front header payload room)
  unfolding append_current_chunk
  append_none front header payload room bs small = rw amount
    where
      amount :
          min (length bs) (
            length (front ++ (header ++ (payload ++ room)))
            - (2 + (length front + length header + length payload)))
          ≡ 0
      amount = omega (
        arith,
        length-append front (header ++ (payload ++ room)),
        length-append_three header payload room,
      )

  -- What the call does with bytes for which there is room.
  pub append_current_chunk_lem :
      (front header payload room : Bytes) (b : ℕ) (bs : Bytes)
      → 3 ≤ length room
      → (src room' : Bytes) × (0 < length src)
        × (length src ≤ length (b ∷ bs))
        × (take (length src) (b ∷ bs) ≡ src)
        × (length src + length room' ≡ length room)
        × (2 ≤ length room')
        × (append_current_chunk {E = E} (b ∷ bs) (layout c done front header payload room)
            ≡ (ok (length src), layout c done front header (payload ++ src) room'))
  append_current_chunk_lem front header payload room b bs h =
      let k = min (length (b ∷ bs)) (length room - 2) in
      let k_room : k + 2 ≤ length room = omega arith in
      let k_bs : k ≤ length (b ∷ bs) = omega arith in
      let (old, room', e, lo) = split_at k room (omega (arith, k_room)) in
      let (src, rest, e', ls) = split_at k (b ∷ bs) k_bs in
      let lr : length room ≡ length old + length room' = ap length e ∙ length-append old room' in
      (
        src,
        room',
        omega (arith, ls, k_pos h),
        omega (arith, ls, k_bs),
        ap (λ z. take (length src) z) e' ∙ take-append src rest (length src) refl,
        omega (arith, lr, lo, ls),
        omega (arith, lr, lo, k_room),
        ap (λ z. append_current_chunk (b ∷ bs) (layout c done front header payload z)) e
            ∙ append_some front header payload old room' src (b ∷ bs) (lo ∙ sym ls)
                (omega (arith, ls, k_pos h))
                (ap (λ z. take (length src) z) e' ∙ take-append src rest (length src) refl)
                (ap (λ n. min (length (b ∷ bs)) (n - 2)) (sym lr) ∙ sym ls),
      )
    where
      k_pos : 3 ≤ length room → 0 < min (length (b ∷ bs)) (length room - 2)
      k_pos h = omega arith
