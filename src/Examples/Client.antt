-- ===== src/Examples/Client.antt =====
-- `HttpConnection`, its handles and its clients on concrete connections.
use reqwless.Base.{
  ℕ, zero, suc, ◌+◌, ◌-◌, ◌≤◌, ◌<◌, ◌≡◌, refl, subst, sym, ap, ◌∙◌, arith, ◌⊎◌, inl, inr, [], ◌∷◌,
  ◌++◌, append_assoc, append-nil, replicate,
}
use reqwless.Base.{
  Bytes, length, length-append, take, drop, take_all, take-append, length-take, take-append-drop,
  leb, Bool-cases, if◌then◌else◌,
}
use reqwless.Base.{Outcome, ok, err, Ends, ends_ok, ends_err}
use reqwless.Errors.{ErrorKind, ReadExactError}
use reqwless.Connection.{Write, Read, IsWrite, IsRead}
use reqwless.Client.{HttpConnection, Transport, Provided, wrapped, write, http_write, http_read}
use reqwless.Client
use reqwless.BodyWriter.Buffering
use reqwless.Client.Carriers.{IsTransport, IsFlush, handed}
use reqwless.Examples.{thumb, hex_crate}
use reqwless.Examples.Loop.{write_all_loop}

-- What the peer was handed, and what it has still to deliver.
pub record Socket : Type 0 where
  pub out : Bytes
  pub incoming : Bytes

-- A buffered writer: what waits at the front of its buffer, and how much room is behind.
pub record Waiting : Type 0 where
  pub socket : Socket
  pub waiting : Bytes
  pub room : ℕ

abbrev hand : Bytes → Socket → Socket
hand bs s = record s { out = s.out ++ bs }

abbrev pub socket_write : Write Socket
socket_write = record {
  write = λ bs s. (ok (length bs), hand bs s);
  write_all = λ bs s. (ok tt, hand bs s);
  flush = λ s. (ok tt, s);
}

abbrev pub socket_read : Read Socket
socket_read = record {
  read = λ n s. (ok (take n s.incoming), record s { incoming = drop n s.incoming });
  read_exact = λ n s. (err ReadExactError.unexpected_eof, s);
}

-- What does not fit is written through.
abbrev accept : Bytes → Waiting → Waiting
accept bs w =
    if leb (length bs) w.room
    then record { socket = w.socket; waiting = w.waiting ++ bs; room = w.room - length bs }
    else record {
      socket = hand (w.waiting ++ bs) w.socket;
      waiting = [];
      room = length w.waiting + w.room;
    }

abbrev pub waiting_write : Write Waiting
waiting_write = record {
  write = λ bs w. (ok (length bs), accept bs w);
  write_all = λ bs w. (ok tt, accept bs w);
  flush = λ w. (
    ok tt,
    record { socket = hand w.waiting w.socket; waiting = []; room = length w.waiting + w.room },
  );
}

abbrev on_socket : {E A : Type 0} → Waiting → Outcome E A × Socket → Outcome E A × Waiting
on_socket w (r, s) = (r, record w { socket = s })

abbrev pub waiting_read : Read Waiting
waiting_read = record {
  read = λ n w. on_socket w (socket_read.read n w.socket);
  read_exact = λ n w. on_socket w (socket_read.read_exact n w.socket);
}

abbrev pub transport : Transport Socket Waiting Socket
transport = record {
  plain_write = socket_write;
  plain_read = socket_read;
  buffered_write = waiting_write;
  buffered_read = waiting_read;
  tls_write = socket_write;
  tls_read = socket_read;
  new_buffered = λ s buf. record { socket = s; waiting = []; room = length buf };
  split = λ w. (w.socket, w.waiting ++ replicate w.room 0, length w.waiting);
  rejoin = λ s buf w. record w { socket = s };
  clear = λ w. record { socket = w.socket; waiting = []; room = length w.waiting + w.room };
}

abbrev pub accepted : Waiting → Bytes
accepted w = w.socket.out ++ w.waiting

socket_write-IsWrite : IsWrite socket_write (λ s. s.out)
socket_write-IsWrite = record {
  write_lem = λ bs s.
      ends_ok (length bs) (hand bs s) refl
        (omega arith, ap (λ z. s.out ++ z) (sym (take_all (length bs) bs (omega arith))));
  write_all_lem = λ bs s. ends_ok tt (hand bs s) refl refl;
  flush_lem = λ s. ends_ok tt s refl refl;
}

accept_lem : (bs : Bytes) (w : Waiting) → accepted (accept bs w) ≡ accepted w ++ bs
accept_lem bs w = elim (Bool-cases (leb (length bs) w.room)) [
  | inl fits ↦ rw fits (sym (append_assoc w.socket.out w.waiting bs))
  | inr more ↦ rw more (
      append-nil (w.socket.out ++ (w.waiting ++ bs)) ∙ sym (append_assoc w.socket.out w.waiting bs))
]

waiting_write-IsWrite : IsWrite waiting_write accepted
waiting_write-IsWrite = record {
  write_lem = λ bs w. ends_ok (length bs) (accept bs w) refl (
    omega arith,
    accept_lem bs w ∙ ap (λ z. accepted w ++ z) (sym (take_all (length bs) bs (omega arith))),
  );
  write_all_lem = λ bs w. ends_ok tt (accept bs w) refl (accept_lem bs w);
  flush_lem = λ w. ends_ok tt _ refl (append-nil (w.socket.out ++ w.waiting));
}

abbrev count : {X : Type 0} → Outcome ErrorKind ℕ × X → ℕ
count (ok n, x) = n
count (_, x) = 0

whole-IsEager :
    {X : Type 0} (f : Bytes → X → X) (b : ℕ) (bs : Bytes) (c c' : X) (n : ℕ)
    → ◌≡◌ {A = Outcome ErrorKind ℕ × X} (ok (length (b ∷ bs)), f (b ∷ bs) c) (ok n, c')
    → 0 < n
whole-IsEager f b bs c c' n e = let l : length (b ∷ bs) ≡ n = ap count e in omega (arith, l)

pub transport-IsTransport : IsTransport transport (λ s. s.out) accepted (λ s. s.out)
transport-IsTransport = record {
  plain_lem = socket_write-IsWrite;
  buffered_lem = waiting_write-IsWrite;
  tls_lem = socket_write-IsWrite;
  plain_eager = whole-IsEager hand;
  buffered_eager = whole-IsEager accept;
  tls_eager = whole-IsEager hand;
  new_lem = λ s buf. append-nil s.out;
  split_lem = λ w. (
    omega (arith, length-append w.waiting (replicate w.room 0)),
    ap (λ z. w.socket.out ++ z)
        (sym (take-append w.waiting (replicate w.room 0) (length w.waiting) refl)),
  );
  clear_lem = λ s buf w. append-nil s.out;
}

pub socket_write-IsFlush : IsFlush socket_write (λ s. s.out) (λ s. s.out)
socket_write-IsFlush c c' e = refl

pub waiting_write-IsFlush : IsFlush waiting_write accepted (λ w. w.socket.out)
waiting_write-IsFlush w w' e =
    let flushed = (waiting_write.flush w).1 in
    let same : flushed ≡ w' = ap (λ r. r.1) e in
    subst (λ z. z.socket.out ≡ accepted z) same (sym (append-nil (w.socket.out ++ w.waiting)))

abbrev pub own : Provided Socket Waiting Socket
own = record {
  write_all = write_all_loop (write transport);
  read_exact = λ n c. (err ReadExactError.unexpected_eof, c);
  chunk_write_all = write_all_loop (Buffering.write thumb hex_crate socket_write);
}

abbrev pub unread : HttpConnection Socket Waiting Socket → Bytes
unread (HttpConnection.plain s) = s.incoming
unread (HttpConnection.plain_buffered w) = w.socket.incoming
unread (HttpConnection.tls s) = s.incoming

abbrev pub out : HttpConnection Socket Waiting Socket → Bytes
out = handed (λ s. s.out) accepted (λ s. s.out)

stop : (n : ℕ) (r : Bytes) → take n r ≡ [] → (n ≡ 0) ⊎ (r ≡ [])
stop zero r e = inl refl
stop (suc n) [] e = inr refl
stop (suc n) (b ∷ r) e = cc

pub reads : (all : Bytes) → IsRead (http_read transport own) (λ c. out c ≡ all) unread
unfolding Client.read
reads all = record {
  read_lem = delivered;
  read_exact_lem = λ n c _. ends_err ReadExactError.unexpected_eof c refl tt;
}
  where
    delivered :
        (n : ℕ) (c : HttpConnection Socket Waiting Socket)
        → out c ≡ all
        → Ends
            (Client.read transport n c)
            (λ bs c'.
              (out c' ≡ all)
              × (length bs ≤ n)
              × (unread c ≡ bs ++ unread c')
              × (bs ≡ [] → (n ≡ 0) ⊎ (unread c ≡ [])))
            (λ _ _. Unit {0})
    delivered n (HttpConnection.plain s) e = ends_ok (take n s.incoming) _ refl (
      e,
      omega (arith, length-take n s.incoming),
      sym (take-append-drop n s.incoming),
      stop n s.incoming,
    )
    delivered n (HttpConnection.plain_buffered w) e = ends_ok (take n w.socket.incoming) _ refl (
      e,
      omega (arith, length-take n w.socket.incoming),
      sym (take-append-drop n w.socket.incoming),
      stop n w.socket.incoming,
    )
    delivered n (HttpConnection.tls s) e = ends_ok (take n s.incoming) _ refl (
      e,
      omega (arith, length-take n s.incoming),
      sym (take-append-drop n s.incoming),
      stop n s.incoming,
    )
