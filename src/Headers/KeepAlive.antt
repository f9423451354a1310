-- ===== src/Headers/KeepAlive.antt =====
-- headers.rs: `KeepAlive` and its parser.
pub mod Laws
use reqwless.Base.{
  ℕ, List, [], ◌∷◌, map, Bytes, Option, none, some, Outcome, ok, err, if◌then◌else◌,
}
use reqwless.Text.{text, split, trim, eq_ignore_ascii_case}
use reqwless.Text.Utf8.{from_utf8}
use reqwless.Text.Decimal.{parse_unsigned}

-- The parameters are of `u8`.
pub record KeepAlive : Type 0 where
  pub timeout : Option ℕ
  pub max : Option ℕ

-- What a failure of `from_utf8` says is dropped by every caller.
pub data Utf8Error : Type 0 where
  utf8_error : Utf8Error

abbrev pub fresh : KeepAlive
fresh = record { timeout = none; max = none }

-- The match on a key: a value that is no `u8` leaves the parameter without a value.
unfoldable pub set_parameter : List ℕ → List ℕ → KeepAlive → KeepAlive
set_parameter key value keep_alive =
    if eq_ignore_ascii_case key (text "timeout")
    then record keep_alive { timeout = parse_unsigned 256 value }
    else if eq_ignore_ascii_case key (text "max")
    then record keep_alive { max = parse_unsigned 256 value }
    else keep_alive

-- The first two parts at `=`; what follows a second `=` is not looked at.
abbrev pub read_pair : List (List ℕ) → KeepAlive → KeepAlive
read_pair (key ∷ value ∷ more) keep_alive = set_parameter key value keep_alive
read_pair _ keep_alive = keep_alive

unfoldable pub read_parts : List (List ℕ) → KeepAlive → KeepAlive
read_parts [] keep_alive = keep_alive
read_parts (part ∷ parts) keep_alive =
    read_parts parts (read_pair (map trim (split b'=' part)) keep_alive)

abbrev pub of_text : Option (List ℕ) → Outcome Utf8Error KeepAlive
of_text none = err utf8_error
of_text (some s) = ok (read_parts (split b',' s) fresh)

-- `TryFrom<&[u8]> for KeepAlive`
unfoldable pub try_from : Bytes → Outcome Utf8Error KeepAlive
try_from from = of_text (from_utf8 from)
