-- ===== src/Connection.antt =====
-- The traits `Read` and `Write` of the crate `embedded_io_async`, as interfaces over an unknown
-- connection, with what their documentation promises. `sent` and `unread` are ghosts: the bytes
-- that the peer was handed, and those that it has still to deliver.
-- A connection's own error type is read at its `kind()`, as every caller in the source does.
pub mod Calls
pub mod Puts
pub mod Loop
pub mod Failure
use reqwless.Base.{ℕ, ◌≤◌, ◌≡◌, ◌++◌, ◌⊎◌, Bytes, length, take, Io, Ends, []}
use reqwless.Errors.{ErrorKind, ReadExactError}

pub record Write (C : Type 0) : Type 0 where
  pub write : Bytes → Io C ErrorKind ℕ
  pub write_all : Bytes → Io C ErrorKind (Unit {0})
  pub flush : Io C ErrorKind (Unit {0})

pub record IsWrite {C : Type 0} (io : Write C) (sent : C → Bytes) : Type 0 where
  -- Some front of the bytes is taken, and its length is the answer.
  pub write_lem :
      (bs : Bytes) (c : C)
      → Ends
          (io.write bs c)
          (λ n c'. (n ≤ length bs) × (sent c' ≡ sent c ++ take n bs))
          (λ _ c'. sent c' ≡ sent c)
  -- All bytes are taken, or an error is met on the way.
  pub write_all_lem :
      (bs : Bytes) (c : C)
      → Ends
          (io.write_all bs c)
          (λ _ c'. sent c' ≡ sent c ++ bs)
          (λ _ c'. (n : ℕ) × (sent c' ≡ sent c ++ take n bs))
  pub flush_lem : (c : C) → Ends (io.flush c) (λ _ c'. sent c' ≡ sent c) (λ _ c'. sent c' ≡ sent c)

-- `read n` is `read` into a slice of `n` bytes; the answer is what lies at its front.
pub record Read (R : Type 0) : Type 0 where
  pub read : ℕ → Io R ErrorKind Bytes
  pub read_exact : ℕ → Io R ReadExactError Bytes

-- `Inv` is what the reader keeps of its own state between calls.
pub record IsRead {R : Type 0} (io : Read R) (Inv : R → Type 0) (unread : R → Bytes) : Type 0 where
  -- Nothing is delivered only at the end of the stream, or into an empty slice.
  pub read_lem :
      (n : ℕ) (r : R)
      → Inv r
      → Ends
          (io.read n r)
          (λ bs r'.
            Inv r'
            × (length bs ≤ n)
            × (unread r ≡ bs ++ unread r')
            × (bs ≡ [] → (n ≡ 0) ⊎ (unread r ≡ [])))
          (λ _ _. Unit {0})
  -- The slice is filled, or the stream ends before, or it fails.
  pub read_exact_lem :
      (n : ℕ) (r : R)
      → Inv r
      → Ends
          (io.read_exact n r)
          (λ bs r'. Inv r' × (length bs ≡ n) × (unread r ≡ bs ++ unread r'))
          (λ _ _. Unit {0})

-- The trait `BufRead`: `consume` drops bytes that `fill_buf` has shown.
pub record BufRead (R : Type 0) : Type 0 where
  pub fill_buf : Io R ErrorKind Bytes
  pub consume : ℕ → Io R ErrorKind (Unit {0})

pub record IsBufRead {R : Type 0} (io : BufRead R) (Inv : R → Type 0) (unread : R → Bytes)
    : Type 0 where
  pub fill_buf_lem :
      (r : R)
      → Inv r
      → Ends
          (io.fill_buf r)
          (λ bs r'.
            Inv r'
            × (unread r' ≡ unread r)
            × ((rest : Bytes) × (unread r ≡ bs ++ rest))
            × (bs ≡ [] → unread r ≡ []))
          (λ _ _. Unit {0})
