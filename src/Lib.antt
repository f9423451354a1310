-- ===== src/Lib.antt =====
-- reqwless, an HTTP client for embedded devices: a model of its core in cubical type theory.
--
-- The client writes a request's header and body to a connection and reads the response. A body goes
-- through one of three writers (body_writer/): the fixed-length one counts what it sends, the chunked
-- one sends each slice as a chunk, and the buffering chunked one gathers chunks in a buffer that may
-- hold prewritten bytes, the request's header. Paths below are from src/ of the repository.
--
-- Files:
--   Text           the standard library on strings: UTF-8 (Utf8), decimal numbers (Decimal), split and trim
--                  (Split)
--   Base           shared helpers: outcomes and state passing (Effects), what is known
--                  of errors (Failures), lists (Lists), Rust's slice
--                  operations with their bounds checks (Slices), the target's usize (Words)
--   Hex            the crate hex, an interface, and hexadecimal numbers
--   Errors         lib.rs: Error, kind and the conversions
--   Connection     the traits Read and Write of embedded_io_async, as interfaces with their documented
--                  behaviour; sequences of calls (Calls), what a call puts on the wire (Puts), the
--                  default write_all (Loop), the errors passed on from a connection (Failure)
--   BodyWriter     body_writer/: Header (write_chunked_header), Chunked (ChunkedBodyWriter), Fixed
--                  (FixedBodyWriter), Buffering (BufferingChunkedBodyWriter), and Body, the chunked
--                  coding as a specification
--   Reader         reader.rs: ReadBuffer (Buffer) and BufferingReader, lib.rs: TryBufRead
--   Response       response/: status codes (Status), Response and its body (Parsed), Response::read (Read,
--                  with the known headers in Fields, what they are of all headers in
--                  Fields/Described, and its errors in Misses), headers (Iterator),
--                  BodyReader (Body; from the response to the whole body in Whole),
--                  ResponseBody::read_to_end and discard (Collect), FixedLengthBodyReader
--                  (FixedLength) and ChunkedBodyReader (Chunked, its state in State, its read_to_end
--                  in Collect)
--   Headers        headers.rs: ContentType, TransferEncoding and KeepAlive
--   Request        request.rs: Request, its bodies (Body), its builder (Builder) and write_header (Head);
--                  heapless strings and the crate base64 are an interface
--   Client         client.rs: HttpConnection, its requests (Send), HttpRequestHandle (Handle),
--                  HttpResource and its builder (Resource), HttpClient (Connect); lib.rs: TryBufRead of
--                  a connection (Buffer). What the connections of other crates promise is in Carriers,
--                  what is sent of a body in Bodies, of a request in Wire, and a whole send in Exchange
--   Examples       concrete interfaces and inputs
--
-- Each method on &mut self is a function from a state to an outcome and the state left behind, on every
-- exit. An outcome is a result, an error or a panic; a panic is a failed assertion, an index out of
-- range or a checked overflow. usize has a width and its overflow checks as parameters of the model; what is counted in
-- one (the bytes of a fixed body, those that are discarded, the position among the headers) panics or
-- wraps as it does.
-- The default write_all of the trait is a parameter, and its loop ends as each write takes a byte at
-- least. Loops are structural where the source's are bounded: a size line by the room in its buffer of
-- ten bytes, reading to the end by the room in the buffer, as each round adds a byte at least, decimal
-- digits by the bits of usize. The loop of Response::read has the
-- room left in its buffer for fuel, as each round adds a byte at least. BodyReader::discard and
-- ChunkedBodyReader::read_to_end are bounded by fuel and answer none without it: more fuel than bytes
-- to come is enough for the first, and none is for the second where the peer stops within a chunk.
--
-- httparse, heapless, base64, hex, nourl, buffered_io, the network and the TLS crates are parameters:
-- records of operations, with records of what they document where a theorem relies on it. The library
-- is built with one TLS crate, with the other, or with none, which is a parameter too. A buffer that is
-- lent to a call is part of the state or of the result; what Response::read leaves in it when it fails
-- is not modelled.
--
-- Not modelled: logging (fmt.rs), the derived and handwritten Debug and defmt output, and the fields of
-- the TLS configuration, which are handed to the TLS crate as they are. async is read as sequential
-- code, as each method awaits its calls in order; a call that is dropped before it ends is not modelled.
pub mod Base
pub mod Text
pub mod Hex
pub mod Errors
pub mod Connection
pub mod BodyWriter
pub mod Reader
pub mod Response
pub mod Headers
pub mod Request
pub mod Client
pub mod Examples
