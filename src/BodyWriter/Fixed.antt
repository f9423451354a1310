-- ===== src/BodyWriter/Fixed.antt =====
-- body_writer/fixed.rs: `FixedBodyWriter`, which counts the bytes that it hands on.
pub mod Laws
use reqwless.Base.{ℕ, Bytes, length, Io, ◌>>=◌, ◌>>◌, pure, lift, modify, zoom}
use reqwless.Base.Words.{Target, add_usize}
use reqwless.Errors.{ErrorKind}
use reqwless.Connection.{Write}

pub record FixedBodyWriter (C : Type 0) : Type 0 where
  pub conn : C
  pub count : ℕ

unfoldable pub new : {C : Type 0} → C → FixedBodyWriter C
new c = record { conn = c; count = 0 }

unfoldable pub written : {C : Type 0} → FixedBodyWriter C → ℕ
written w = w.count

abbrev on_conn : {C A : Type 0} → Io C ErrorKind A → Io (FixedBodyWriter C) ErrorKind A
on_conn = zoom (λ w. w.conn) (λ w c. record w { conn = c })

-- The bytes are counted once the connection has taken them.
unfoldable pub add : {C : Type 0} → Target → ℕ → Io (FixedBodyWriter C) ErrorKind (Unit {0})
add t n = do count ← (λ w. lift (add_usize t w.count n) w); modify (λ w. record w { count = count })

module _ {C : Type 0} (t : Target) (conn : Write C) where
  unfoldable pub write : Bytes → Io (FixedBodyWriter C) ErrorKind ℕ
  write buf = do n ← on_conn (conn.write buf); add t n; pure n

  unfoldable pub write_all : Bytes → Io (FixedBodyWriter C) ErrorKind (Unit {0})
  write_all buf = do on_conn (conn.write_all buf); add t (length buf)

  unfoldable pub flush : Io (FixedBodyWriter C) ErrorKind (Unit {0})
  flush = on_conn conn.flush
