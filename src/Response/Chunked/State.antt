-- ===== src/Response/Chunked/State.antt =====
-- response/chunked.rs: `ChunkState`.
use reqwless.Base.{ℕ, zero, suc, ◌-◌, ◌%◌, ◌^◌, Bool, true, false, min}

-- What is left of the current chunk is a `u32`.
pub data ChunkState : Type 0 where
  no_chunk : ChunkState
  not_empty : ℕ → ChunkState
  empty : ChunkState

-- `ChunkState::consume`: the amount is cut to a `u32`. The result comes with the state left behind.
unfoldable pub consume : ChunkState → ℕ → ℕ × ChunkState
consume (ChunkState.not_empty remaining) amt =
    let consumed = min (amt % 2 ^ 32) remaining in
    (consumed, ChunkState.not_empty (remaining - consumed))
consume state amt = (0, state)

unfoldable pub len : ChunkState → ℕ
len (ChunkState.not_empty n) = n
len state = 0

-- `== ChunkState::Empty`
abbrev pub is_empty : ChunkState → Bool
is_empty ChunkState.empty = true
is_empty state = false

-- The state for the length that was read.
abbrev pub of_length : ℕ → ChunkState
of_length zero = ChunkState.empty
of_length (suc n) = ChunkState.not_empty (suc n)
