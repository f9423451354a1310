-- ===== src/Examples/Sending.antt =====
-- Requests on concrete connections, as the tests of client.rs make them.
use reqwless.Base.{
  ◌≡◌, refl, sym, ◌∙◌, ap, subst, arith, List, [], ◌∷◌, ◌++◌, none, some, replicate,
}
use reqwless.Base.{Bytes, ok, ◌>>=◌, pure, Ends}
use reqwless.Text.{text}
use reqwless.Connection.{IsWrite}
use reqwless.Connection.Calls.{Call, run}
use reqwless.Request.{default, Request, as_str}
use reqwless.Request.Body.{RequestBody}
use reqwless.Request.Head.{
  write_header, write_str, write_field, write_option, write_fields, write_base, write_auth,
  write_body_fields,
}
use reqwless.Request.Laws.{head}
use reqwless.Client.{HttpConnection, write, http_write}
use reqwless.Client
use reqwless.Client.Send.{write_request, send}
use reqwless.Client.Carriers.{http_write-IsWrite}
use reqwless.Client.Bodies.{payload, Makes}
use reqwless.Client.Wire.{IsRoomyConnection, SizedWire, write_request_lem}
use reqwless.Client.Exchange.{Exchanged, send_lem}
use reqwless.BodyWriter.Buffering
use reqwless.Examples.{thumb, hex_crate, hex_crate-IsHex}
use reqwless.Examples.Loop.{write_all_loop-IsLoop}
use reqwless.Examples.Client.{
  Socket, Waiting, transport, transport-IsTransport, accepted, own, unread, out, reads,
  socket_write, socket_write-IsFlush, waiting_write-IsFlush,
}
use reqwless.Examples.Requests.{encoders, encoders-IsEncoders, base64}
use reqwless.Examples.Reading.{crates, crates-IsCrates}

http_write-IsWrite_example : IsWrite (http_write transport own) out
http_write-IsWrite_example =
    http_write-IsWrite transport (λ s. s.out) accepted (λ s. s.out) transport-IsTransport own
      (write_all_loop-IsLoop (write transport))

-- The body of unknown length in two parts.
abbrev parts : List Call
parts = Call.write_all (text "PART1") ∷ Call.write_all (text "PART2") ∷ []

abbrev two_parts : RequestBody (Unit {0})
two_parts = record { len = λ _. none; write = λ w _. run w parts >>= λ _. pure tt }

two_parts-Makes : Makes two_parts tt parts
two_parts-Makes = record { write_eq = λ W w. refl }

abbrev request : Request (Unit {0})
request = record default { body = some tt }

abbrev connection : HttpConnection Socket Waiting Socket
connection = HttpConnection.plain_buffered (record {
  socket = record { out = []; incoming = 10 ∷ 11 ∷ 12 ∷ 13 ∷ [] };
  waiting = [];
  room = 128;
})

abbrev waiting_head : HttpConnection Socket Waiting Socket
waiting_head = HttpConnection.plain_buffered (record {
  socket = record { out = []; incoming = 10 ∷ 11 ∷ 12 ∷ 13 ∷ [] };
  waiting = text "GET / HTTP/1.1\r\nTransfer-Encoding: chunked\r\n\r\n";
  room = 82;
})

head_waits :
    write_header (http_write transport own) thumb encoders two_parts request connection
    ≡ (ok tt, waiting_head)
unfolding write_header write_str write_field write_option write_fields write_base write_auth
    write_body_fields Client.write as_str
head_waits = refl

roomy :
    (c' : HttpConnection Socket Waiting Socket)
    → write_header (http_write transport own) thumb encoders two_parts request connection
      ≡ (ok tt, c')
    → IsRoomyConnection thumb transport c'
roomy c' e =
    subst (IsRoomyConnection thumb transport) (ap (λ r. r.1) (sym head_waits ∙ e))
      (omega arith, omega arith, (λ z. absurd (omega (arith, z))))

write_request_lem_example :
    Ends
      (write_request thumb hex_crate transport own encoders two_parts request connection)
      (λ _ c'.
        (wire : Bytes) × SizedWire thumb none (payload parts) wire
        × (out c' ≡ head thumb base64 two_parts request ++ wire))
      (λ _ _. Unit {0})
write_request_lem_example =
    write_request_lem thumb hex_crate (omega arith) hex_crate-IsHex transport own (λ s. s.out)
      accepted (λ s. s.out) transport-IsTransport (write_all_loop-IsLoop (write transport))
      (write_all_loop-IsLoop (Buffering.write thumb hex_crate socket_write)) two_parts tt parts
      two_parts-Makes tt encoders base64 request connection encoders-IsEncoders refl tt tt
      (omega arith) tt roomy

send_lem_example :
    Ends
      (send thumb hex_crate transport own
        (crates 200 [])
        encoders
        two_parts
        request
        (replicate 8 0)
        connection)
      (Exchanged thumb hex_crate
        (omega arith)
        hex_crate-IsHex
        transport
        own
        (λ s. s.out)
        accepted
        (λ s. s.out)
        transport-IsTransport
        (λ s. s.out)
        (λ w. w.socket.out)
        (λ s. s.out)
        socket_write-IsFlush
        waiting_write-IsFlush
        socket_write-IsFlush
        (write_all_loop-IsLoop (write transport))
        (write_all_loop-IsLoop (Buffering.write thumb hex_crate socket_write))
        (crates 200 [])
        (crates-IsCrates 200 [] (omega arith))
        unread
        reads
        base64
        two_parts
        tt
        parts
        request
        (replicate 8 0)
        connection)
      (λ _ _. Unit {0})
send_lem_example =
    send_lem thumb hex_crate (omega arith) hex_crate-IsHex transport own (λ s. s.out) accepted
      (λ s. s.out) transport-IsTransport (λ s. s.out) (λ w. w.socket.out) (λ s. s.out)
      socket_write-IsFlush waiting_write-IsFlush socket_write-IsFlush
      (write_all_loop-IsLoop (write transport))
      (write_all_loop-IsLoop (Buffering.write thumb hex_crate socket_write)) (crates 200 [])
      (crates-IsCrates 200 [] (omega arith)) unread reads two_parts tt parts two_parts-Makes tt
      encoders base64 request (replicate 8 0) connection encoders-IsEncoders refl tt tt
      (omega arith) tt roomy
