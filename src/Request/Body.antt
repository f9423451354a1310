-- ===== src/Request/Body.antt =====
-- request.rs: the trait `RequestBody` and the bodies that the crate provides.
use reqwless.Base.{ℕ, Bytes, length, Option, none, some, Io, pure}
use reqwless.Errors.{ErrorKind}
use reqwless.Connection.{Write}

pub record RequestBody (B : Type 0) : Type 1 where
  pub len : B → Option ℕ
  pub write : {W : Type 0} → Write W → B → Io W ErrorKind (Unit {0})

-- `impl RequestBody for ()`
abbrev pub no_body : RequestBody (Unit {0})
no_body = record { len = λ _. none; write = λ _ _. pure tt }

-- `impl RequestBody for &[u8]`
abbrev pub slice_body : RequestBody Bytes
slice_body = record { len = λ bs. some (length bs); write = λ w bs. w.write_all bs }

module _ {T : Type 0} (inner : RequestBody T) where
  abbrev option_len : Option T → Option ℕ
  option_len none = none
  option_len (some b) = inner.len b

  abbrev option_write : {W : Type 0} → Write W → Option T → Io W ErrorKind (Unit {0})
  option_write w none = pure tt
  option_write w (some b) = inner.write w b

  -- `impl RequestBody for Option<T>`
  abbrev pub option_body : RequestBody (Option T)
  option_body = record { len = option_len; write = option_write }
