-- ===== src/Reader/Laws.antt =====
-- A `BufferingReader` delivers its loaded bytes first and then those of its stream.
use reqwless.Base.{
  ℕ, suc, ◌+◌, ◌-◌, ◌≤◌, ◌≡◌, refl, subst, sym, ap, ◌∙◌, false, ◌⊎◌, inl, [], ◌∷◌, ◌++◌,
  append_assoc, arith, min,
}
use reqwless.Base.{
  Bytes, length, length-append, take, drop, take-append, length-drop, split_at, ◌==◌,
}
use reqwless.Base.{ok, Ends, ends_ok, ends_err, read_slice-append, copy_within-append}
use reqwless.Errors.{ErrorKind}
use reqwless.Connection.{Read, IsRead}
use reqwless.Reader.Buffer.{ReadBuffer}
use reqwless.Reader.Buffer
use reqwless.Reader.{BufferingReader, read}

abbrev buffered : Bytes → Bytes → ReadBuffer
buffered loaded rest = record { buffer = loaded ++ rest; loaded = length loaded }

-- Consuming some of the loaded bytes.
consume_loaded :
    {E : Type 0} (gone kept rest : Bytes)
    → (rest' : Bytes) × (length rest' ≡ length gone + length rest)
      × (Buffer.consume {E = E} (length gone) (buffered (gone ++ kept) rest)
          ≡ (ok 0, buffered kept rest'))
unfolding Buffer.consume
consume_loaded {E} gone kept rest =
    let l : length (gone ++ kept) ≡ length gone + length kept = length-append gone kept in
    let m : min (length gone) (length gone + length kept) ≡ length gone = omega arith in
    let left : length gone + length kept - length gone ≡ length kept = omega arith in
    let none_left : length gone - length gone ≡ 0 = omega arith in
    (
      drop (0 + length kept) (gone ++ (kept ++ rest)),
      omega (
        arith,
        length-drop (0 + length kept) (gone ++ (kept ++ rest)),
        length-append gone (kept ++ rest),
        length-append kept rest,
      ),
      rw (
        l,
        m,
        append_assoc gone kept rest,
        copy_within-append {E = E} [] gone kept rest (length gone) (length gone + length kept) 0
            refl (omega arith) refl,
        left,
        none_left,
      ),
    )

read_loaded :
    {E : Type 0} (front kept rest : Bytes) (n : ℕ)
    → min (length front + length kept) n ≡ length front
    → (rest' : Bytes) × (length rest' ≡ length front + length rest)
      × (Buffer.read {E = E} n (buffered (front ++ kept) rest) ≡ (ok front, buffered kept rest'))
unfolding Buffer.read
read_loaded {E} front kept rest n m =
    let (rest', l, e) = consume_loaded {E = E} front kept rest in
    (
      rest',
      l,
      rw (
        length-append front kept,
        m,
        append_assoc front kept rest,
        read_slice-append {E = E} [] front (kept ++ rest) 0 (length front) refl (omega arith),
        ← append_assoc front kept rest,
        ← length-append front kept,
        e,
      ),
    )

module _ {B : Type 0} (io : Read B) (Inv : B → Type 0) (unread : B → Bytes)
    (law : IsRead io Inv unread) where
  -- The loaded bytes lie at the front of the buffer.
  pub record IsLoaded (r : BufferingReader B) : Type 0 where
    pub front : Bytes
    pub rest : Bytes
    pub shape : r.buffer ≡ buffered front rest
    pub inner : Inv r.stream

  -- All that the reader will deliver.
  abbrev pub all_unread : BufferingReader B → Bytes
  all_unread r = take r.buffer.loaded r.buffer.buffer ++ unread r.stream

  abbrev reader : Bytes → Bytes → B → BufferingReader B
  reader front rest s = record { buffer = buffered front rest; stream = s }

  all_unread-reader :
      (front rest : Bytes) (s : B) → all_unread (reader front rest s) ≡ front ++ unread s
  all_unread-reader front rest s =
      ap (λ z. z ++ unread s) (take-append front rest (length front) refl)

  -- What a `read` promises.
  abbrev pub Delivers : ℕ → BufferingReader B → Bytes → BufferingReader B → Type 0
  Delivers n r bs r' =
      IsLoaded r'
      × (length bs ≤ n)
      × (all_unread r ≡ bs ++ all_unread r')
      × (bs ≡ [] → (n ≡ 0) ⊎ (all_unread r ≡ []))

  IsLoaded-reader : (front rest : Bytes) (s : B) → Inv s → IsLoaded (reader front rest s)
  IsLoaded-reader front rest s v = record { front = front; rest = rest; shape = refl; inner = v }

  read_stream :
      (rest : Bytes) (s : B) (n : ℕ)
      → Inv s
      → Ends (read io n (reader [] rest s)) (Delivers n (reader [] rest s)) (λ _ _. Unit {0})
  unfolding read Buffer.is_empty
  read_stream rest s n v = elim (law.read_lem n s v) [
    | ends_ok bs s' e (v', le, u, stop) ↦
        ends_ok bs (reader [] rest s') (rw e) (IsLoaded-reader [] rest s' v', le, u, stop)
    | ends_err x s' e _ ↦ ends_err x (reader [] rest s') (rw e) tt
  ]

  read_some_run :
      (b : ℕ) (front rest bs : Bytes) (s : B) (n : ℕ) (buffer : ReadBuffer)
      → Buffer.read {E = ErrorKind} n (buffered (b ∷ front) rest) ≡ (ok bs, buffer)
      → read io n (reader (b ∷ front) rest s) ≡ (ok bs, record { buffer = buffer; stream = s })
  unfolding read Buffer.is_empty
  read_some_run b front rest bs s n buffer e =
      let nonempty : (suc (length front) == 0) ≡ false = ground arith in rw (nonempty, e)

  read_buffered :
      (b : ℕ) (front rest : Bytes) (s : B) (n : ℕ)
      → Inv s
      → Ends
          (read io n (reader (b ∷ front) rest s))
          (Delivers n (reader (b ∷ front) rest s))
          (λ _ _. Unit {0})
  read_buffered b front rest s n v =
      let k = min (length (b ∷ front)) n in
      let k_le : k ≤ length (b ∷ front) = omega arith in
      let k_n : k ≤ n = omega arith in
      let k_pos : k ≡ 0 → n ≡ 0 = λ z. omega arith in
      let (bs, kept, e, l) = split_at k (b ∷ front) k_le in
      let total : length (b ∷ front) ≡ length bs + length kept =
        ap length e ∙ length-append bs kept in
      let m : min (length bs + length kept) n ≡ length bs = ap (λ z. min z n) (sym total) ∙ sym l in
      let (rest', _, er) = read_loaded {E = ErrorKind} bs kept rest n m in
      ends_ok bs (reader kept rest' s)
        (read_some_run b front rest bs s n (buffered kept rest')
          (ap (λ z. Buffer.read {E = ErrorKind} n (buffered z rest)) e ∙ er))
        (
          IsLoaded-reader kept rest' s v,
          omega (arith, l, k_n),
          all_unread-reader (b ∷ front) rest s
              ∙ ap (λ z. z ++ unread s) e
              ∙ append_assoc bs kept (unread s)
              ∙ ap (λ z. bs ++ z) (sym (all_unread-reader kept rest' s)),
          (λ z. inl (k_pos (sym l ∙ ap length z))),
        )

  -- `read` delivers a front of the loaded bytes, or of the stream if none is loaded. Nothing is
  -- delivered only at the end of both, or into an empty slice. It does not panic.
  pub buffering-read_lem :
      (n : ℕ) (r : BufferingReader B)
      → IsLoaded r
      → Ends (read io n r) (Delivers n r) (λ _ _. Unit {0})
  buffering-read_lem n r v =
      subst (λ u. Ends (read io n u) (Delivers n u) (λ _ _. Unit {0}))
        (ap (λ b. record { buffer = b; stream = r.stream }) (sym v.shape)) (by_front v.front)
    where
      by_front :
          (front : Bytes)
          → Ends
              (read io n (reader front v.rest r.stream))
              (Delivers n (reader front v.rest r.stream))
              (λ _ _. Unit {0})
      by_front [] = read_stream v.rest r.stream n v.inner
      by_front (b ∷ front) = read_buffered b front v.rest r.stream n v.inner
