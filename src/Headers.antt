-- ===== src/Headers.antt =====
-- headers.rs: `ContentType` and `TransferEncoding`.
pub mod Laws
pub mod KeepAlive
pub use reqwless.Text.{text}
use reqwless.Base.{Bytes, bytes_eq, if◌then◌else◌, Option, none, some}

pub data ContentType : Type 0 where
  text_html text_plain application_json application_cbor application_octet_stream : ContentType

-- `From<&[u8]> for ContentType`
unfoldable pub from : Bytes → ContentType
from bytes =
    if bytes_eq bytes (text "application/json")
    then ContentType.application_json
    else if bytes_eq bytes (text "application/cbor")
    then ContentType.application_cbor
    else if bytes_eq bytes (text "text/html")
    then ContentType.text_html
    else if bytes_eq bytes (text "text/plain")
    then ContentType.text_plain
    else ContentType.application_octet_stream

unfoldable pub content_type_as_str : ContentType → Bytes
content_type_as_str ContentType.text_html = text "text/html"
content_type_as_str ContentType.text_plain = text "text/plain"
content_type_as_str ContentType.application_json = text "application/json"
content_type_as_str ContentType.application_cbor = text "application/cbor"
content_type_as_str ContentType.application_octet_stream = text "application/octet-stream"

pub data TransferEncoding : Type 0 where
  chunked compress deflate gzip : TransferEncoding

-- `TryFrom<&[u8]> for TransferEncoding`; `none` is the error `()`.
unfoldable pub try_from : Bytes → Option TransferEncoding
try_from value =
    if bytes_eq value (text "chunked")
    then some TransferEncoding.chunked
    else if bytes_eq value (text "compress")
    then some TransferEncoding.compress
    else if bytes_eq value (text "deflate")
    then some TransferEncoding.deflate
    else if bytes_eq value (text "gzip")
    then some TransferEncoding.gzip
    else none

unfoldable pub transfer_encoding_as_str : TransferEncoding → Bytes
transfer_encoding_as_str TransferEncoding.deflate = text "deflate"
transfer_encoding_as_str TransferEncoding.chunked = text "chunked"
transfer_encoding_as_str TransferEncoding.compress = text "compress"
transfer_encoding_as_str TransferEncoding.gzip = text "gzip"
