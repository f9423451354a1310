-- ===== src/Headers/KeepAlive/Laws.antt =====
-- headers.rs: what the parser of `KeepAlive` reads from a header that names both parameters.
use reqwless.Base.{
  ℕ, ◌<◌, ◌≡◌, ◌≢◌, refl, ap, ◌∙◌, arith, false, List, [], ◌∷◌, ◌++◌, map, All, All-append,
  All-mono, Bytes, none, some, Outcome, ok,
}
use reqwless.Text.{
  text, split, trim, trim_start, trim_end, is_whitespace, eq_ignore_ascii_case, to_ascii_lowercase,
}
use reqwless.Text.Utf8.{from_utf8-ascii}
use reqwless.Text.Decimal.{
  decimal, parse_unsigned, IsDigit, decimal-IsDigit, parse_unsigned-decimal,
}
use reqwless.Text.Split.{split-append, split_whole, trim-solid}
use reqwless.Headers.KeepAlive.{
  KeepAlive, Utf8Error, fresh, try_from, read_parts, read_pair, set_parameter,
}

digit-IsWhitespace : (c : ℕ) → IsDigit c → is_whitespace c ≡ false
unfolding is_whitespace
digit-IsWhitespace c h = ground arith

trim_digits : (v : List ℕ) → All IsDigit v → trim v ≡ v
trim_digits v h = trim-solid v (All-mono IsDigit _ v digit-IsWhitespace h)

-- A part that is a key and digits.
read_parameter :
    (key v : List ℕ) (k : KeepAlive)
    → All (λ c. c ≢ b'=') key
    → All IsDigit v
    → read_pair (map trim (split b'=' (key ++ (b'=' ∷ v)))) k ≡ set_parameter (trim key) v k
read_parameter key v k hk hv =
    ap (λ parts. read_pair (map trim parts) k)
      (split-append b'=' key v hk
        ∙ ap (λ z. key ∷ z) (split_whole b'=' v (All-mono IsDigit _ v (λ c d. omega arith) hv)))
    ∙ ap (λ z. set_parameter (trim key) z k) (trim_digits v hv)

two_parameters : List ℕ → List ℕ → Bytes
two_parameters v w = text "timeout=" ++ (v ++ (text ", max=" ++ w))

two_parts :
    (v w : List ℕ)
    → All IsDigit v
    → All IsDigit w
    → split b',' (two_parameters v w) ≡ (text "timeout=" ++ v) ∷ (text " max=" ++ w) ∷ []
unfolding two_parameters
two_parts v w hv hw =
    split-append b',' (text "timeout=" ++ v) (text " max=" ++ w)
      (All-append (λ c. c ≢ b',') (text "timeout=") v (omega arith) (avoid v hv))
    ∙ ap (λ z. (text "timeout=" ++ v) ∷ z)
        (split_whole b',' (text " max=" ++ w)
          (All-append (λ c. c ≢ b',') (text " max=") w (omega arith) (avoid w hw)))
  where
    avoid : (u : List ℕ) → All IsDigit u → All (λ c. c ≢ b',') u
    avoid u h = All-mono IsDigit _ u (λ c d. omega arith) h

ascii : (v w : List ℕ) → All IsDigit v → All IsDigit w → All (λ c. c < 128) (two_parameters v w)
unfolding two_parameters
ascii v w hv hw =
    All-append (λ c. c < 128) (text "timeout=") (v ++ (text ", max=" ++ w)) (omega arith)
      (All-append (λ c. c < 128) v (text ", max=" ++ w) (digits v hv)
        (All-append (λ c. c < 128) (text ", max=") w (omega arith) (digits w hw)))
  where
    digits : (u : List ℕ) → All IsDigit u → All (λ c. c < 128) u
    digits u h = All-mono IsDigit _ u (λ c d. omega arith) h

read_two :
    (v w : List ℕ)
    → All IsDigit v
    → All IsDigit w
    → read_parts ((text "timeout=" ++ v) ∷ (text " max=" ++ w) ∷ []) fresh
      ≡ record { timeout = parse_unsigned 256 v; max = parse_unsigned 256 w }
unfolding read_parts set_parameter trim_start trim_end is_whitespace eq_ignore_ascii_case
    to_ascii_lowercase
read_two v w hv hw =
    rw
      (
        read_parameter (text "timeout") v fresh (omega arith) hv,
        read_parameter (text " max") w (record { timeout = parse_unsigned 256 v; max = none })
            (omega arith) hw,
      )
      refl

of_text_parts : List (List ℕ) → Outcome Utf8Error KeepAlive
of_text_parts parts = ok (read_parts parts fresh)

-- A header that gives both parameters as digits is parsed: a parameter has the value of its digits
-- if that is below 256, and no value otherwise.
pub try_from-digits :
    (v w : List ℕ)
    → All IsDigit v
    → All IsDigit w
    → try_from (text "timeout=" ++ (v ++ (text ", max=" ++ w)))
      ≡ ok (record { timeout = parse_unsigned 256 v; max = parse_unsigned 256 w })
unfolding try_from two_parameters of_text_parts
try_from-digits v w hv hw =
    rw (from_utf8-ascii (two_parameters v w) (ascii v w hv hw)) (
      ap (λ parts. of_text_parts parts) (two_parts v w hv hw) ∙ ap (λ k. ok k) (read_two v w hv hw))

-- Two parameters below 256, printed in decimal, are read back from the header that names them.
pub try_from-decimal :
    (timeout max : ℕ)
    → timeout < 256
    → max < 256
    → try_from (text "timeout=" ++ (decimal 8 timeout ++ (text ", max=" ++ decimal 8 max)))
      ≡ ok (record { timeout = some timeout; max = some max })
try_from-decimal timeout max ht hm =
    try_from-digits (decimal 8 timeout) (decimal 8 max) (decimal-IsDigit 8 timeout)
      (decimal-IsDigit 8 max)
    ∙ ap (λ o. ok (record { timeout = o; max = parse_unsigned 256 (decimal 8 max) }))
        (parse_unsigned-decimal 256 7 timeout ht ht)
    ∙ ap (λ o. ok (record { timeout = some timeout; max = o }))
        (parse_unsigned-decimal 256 7 max hm hm)
