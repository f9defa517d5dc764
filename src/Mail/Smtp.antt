-- ===== src/Mail/Smtp.antt =====
-- src/mail/smtp.rs: a connection to the mail server. What passes over it is logged, the newest first; a
-- function that takes `&mut self` returns the connection with its result.
pub mod Reply
pub mod Ehlo
pub mod Auth
pub mod Keep
pub mod Open
pub mod Submit
use nvme_disk_mon.Common.{
  ℕ, Bool, true, false, List, [], ◌∷◌, Option, none, some, Bytes, Result, ok, err,
}
use nvme_disk_mon.Mail.Errors.{IoError, SmtpStage, MailError, not_connected, smtp_transport}
use nvme_disk_mon.Mail.Smtp.Ehlo.{Capabilities}
use nvme_disk_mon.Mail.Smtp.Reply.{Reader, Response, read_response_from}

-- The other side of a stream: what it says, and what becomes of each write and of each flush in turn;
-- those behind the end of a list succeed.
pub record Peer : Type 0 where
  pub reader : Reader
  pub writes : List (Option IoError)
  pub flushes : List (Option IoError)

-- `SmtpStream`: `plain none` where the socket was taken out for the handshake
pub data SmtpStream : Type 0 where
  plain : Option Peer → SmtpStream
  tls : Peer → SmtpStream

-- `sent` says whether the stream was encrypted, and whether the stream took all the bytes.
pub data Event : Type 0 where
  sent : Bool → SmtpStage → Bytes → Bool → Event
  replied : SmtpStage → ℕ → Event
  closed : Event

pub record SmtpConnection : Type 0 where
  pub stream : SmtpStream
  pub capabilities : Capabilities
  pub trace : List Event

abbrev pub Smtp : Type 0 → Type 0
Smtp A = SmtpConnection → SmtpConnection × Result A MailError

infixl 5 ◌>>=◌ ◌>>◌
unfoldable pub then_with :
    {A B : Type 0}
    → (A → Smtp B)
    → SmtpConnection × Result A MailError
    → SmtpConnection × Result B MailError
then_with f (c, ok a) = f a c
then_with f (c, err error) = (c, err error)

abbrev pub ◌>>=◌ : {A B : Type 0} → Smtp A → (A → Smtp B) → Smtp B
m >>= f = λ c. then_with f (m c)

abbrev pub ◌>>◌ : {B : Type 0} → Smtp (Unit {0}) → Smtp B → Smtp B
m >> k = m >>= λ _. k

abbrev pub return : {A : Type 0} → A → Smtp A
return a = λ c. (c, ok a)

abbrev pub fail : {A : Type 0} → MailError → Smtp A
fail error = λ c. (c, err error)

abbrev pub lift : {A : Type 0} → Result A MailError → Smtp A
lift result = λ c. (c, result)

-- `.map_err(f)`
unfoldable pub map_err :
    {A : Type 0}
    → (MailError → MailError)
    → SmtpConnection × Result A MailError
    → SmtpConnection × Result A MailError
map_err f (c, ok a) = (c, ok a)
map_err f (c, err error) = (c, err (f error))

-- `if b { return Err(error) }`
abbrev pub fail_if : Bool → MailError → Smtp (Unit {0})
fail_if true error = fail error
fail_if false error = return tt

unfoldable pub is_tls : SmtpStream → Bool
is_tls (plain peer) = false
is_tls (tls peer) = true

unfoldable pub peer_of : SmtpStream → Option Peer
peer_of (plain peer) = peer
peer_of (tls peer) = some peer

-- The stream with its peer as it is after a step.
unfoldable pub with_peer : SmtpStream → Peer → SmtpStream
with_peer (plain _) peer = plain (some peer)
with_peer (tls _) peer = tls peer

unfoldable pub next_outcome : List (Option IoError) → Option IoError
next_outcome [] = none
next_outcome (outcome ∷ _) = outcome

unfoldable pub later_outcomes : List (Option IoError) → List (Option IoError)
later_outcomes [] = []
later_outcomes (_ ∷ outcomes) = outcomes

abbrev is_none : Option IoError → Bool
is_none none = true
is_none (some _) = false

-- `stream.write_all(bytes)`; the bytes that an interrupted write has sent count as sent.
unfoldable pub write_stream :
    SmtpStage → Bytes → Option Peer → SmtpConnection → SmtpConnection × Option IoError
unfolding is_tls with_peer next_outcome later_outcomes
write_stream stage bytes none c = (c, some not_connected)
write_stream stage bytes (some peer) c =
    let outcome = next_outcome peer.writes in
    (
      record c {
        stream = with_peer c.stream (record peer { writes = later_outcomes peer.writes });
        trace = sent (is_tls c.stream) stage bytes (is_none outcome) ∷ c.trace;
      },
      outcome,
    )

-- `stream.flush()`
unfoldable pub flush_stream : Option Peer → SmtpConnection → SmtpConnection × Option IoError
unfolding with_peer next_outcome later_outcomes
flush_stream none c = (c, some not_connected)
flush_stream (some peer) c = (
  record c { stream = with_peer c.stream (record peer { flushes = later_outcomes peer.flushes }) },
  next_outcome peer.flushes,
)

-- `.map_err(..)` of an I/O result
unfoldable pub io_result :
    (IoError → MailError)
    → SmtpConnection × Option IoError
    → SmtpConnection × Result (Unit {0}) MailError
io_result error (c, none) = (c, ok tt)
io_result error (c, some source) = (c, err (error source))

unfoldable pub write_bytes : (IoError → MailError) → SmtpStage → Bytes → Smtp (Unit {0})
unfolding io_result write_stream peer_of
write_bytes error stage bytes = λ c. io_result error (write_stream stage bytes (peer_of c.stream) c)

unfoldable pub flush : (IoError → MailError) → Smtp (Unit {0})
unfolding io_result flush_stream peer_of
flush error = λ c. io_result error (flush_stream (peer_of c.stream) c)

-- `write_all`, with `write_and_flush`
unfoldable pub write_all : SmtpStage → Bytes → Smtp (Unit {0})
unfolding write_bytes flush
write_all stage bytes = do
  write_bytes (smtp_transport stage) stage bytes
  flush (smtp_transport stage)

unfoldable pub read_stream :
    SmtpStage
    → Peer
    → SmtpConnection
    → Result (Response × Bytes) IoError
    → SmtpConnection × Result Response MailError
unfolding with_peer
read_stream stage peer c (err source) = (c, err (smtp_transport stage source))
read_stream stage peer c (ok (response, rest)) =
    let reader = record peer.reader { incoming = rest } in
    (
      record c {
        stream = with_peer c.stream (record peer { reader = reader });
        trace = replied stage response.code ∷ c.trace;
      },
      ok response,
    )

unfoldable pub read_peer :
    SmtpStage → Option Peer → SmtpConnection → SmtpConnection × Result Response MailError
unfolding read_stream
read_peer stage none c = (c, err (smtp_transport stage not_connected))
read_peer stage (some peer) c = read_stream stage peer c (read_response_from peer.reader)

unfoldable pub read_response : SmtpStage → Smtp Response
unfolding read_peer peer_of
read_response stage = λ c. read_peer stage (peer_of c.stream) c

unfoldable pub command : SmtpStage → Bytes → Smtp Response
unfolding write_all read_response
command stage bytes = do write_all stage bytes; read_response stage

-- `shutdown`, whose result is dropped
unfoldable pub shutdown : Smtp (Unit {0})
shutdown = λ c. (record c { trace = closed ∷ c.trace }, ok tt)
