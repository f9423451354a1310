-- ===== src/Examples.antt =====
-- Concrete interfaces and inputs: a connection that takes all bytes, and the crate `hex`.
pub mod Writers
pub mod Loop
pub mod Buffering
pub mod Readers
pub mod Requests
pub mod Responses
pub mod Reading
pub mod Client
pub mod Sending
pub mod Clients
pub mod Bodies
pub mod Whole
use reqwless.Base.{
  ℕ, ◌+◌, ◌*◌, ◌≤◌, ◌≡◌, refl, sym, ◌∙◌, ap, arith, [], ◌∷◌, ◌++◌, none, some, true, Option,
}
use reqwless.Base.{Bytes, length, take, take_all, ◌==◌, ==_iff, if◌then◌else◌, ok, Ends, ends_ok}
use reqwless.Base.Words.{Target}
use reqwless.Hex.{Hex, IsHex, encoding, decoding}
use reqwless.Connection.{Write, IsWrite}

-- A 32-bit target.
abbrev pub thumb : Target
thumb = record { size = 4; overflow_checks = true }

-- The connection is the bytes that it was handed.
abbrev pub wire_io : Write Bytes
wire_io = record {
  write = λ bs c. (ok (length bs), c ++ bs);
  write_all = λ bs c. (ok tt, c ++ bs);
  flush = λ c. (ok tt, c);
}

pub wire_io-IsWrite : IsWrite wire_io (λ c. c)
wire_io-IsWrite = record {
  write_lem = λ bs c.
      ends_ok (length bs) (c ++ bs) refl
        (omega arith, ap (λ z. c ++ z) (sym (take_all (length bs) bs (omega arith))));
  write_all_lem = λ bs c. ends_ok tt (c ++ bs) refl refl;
  flush_lem = λ c. ends_ok tt c refl refl;
}

abbrev pub hex_crate : Hex
hex_crate = record {
  encode_to_slice = λ bs n. if n == 2 * length bs then some (encoding bs) else none;
  decode_to_slice = λ cs n. if length cs == 2 * n then decoding cs else none;
}

pub hex_crate-IsHex : IsHex hex_crate
hex_crate-IsHex = record {
  encode_to_slice_lem = λ bs n _ e. rw ((==_iff n (2 * length bs)).1 e);
  decode_to_slice_lem = λ cs n e. rw ((==_iff (length cs) (2 * n)).1 e);
}
