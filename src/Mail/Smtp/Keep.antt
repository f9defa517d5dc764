-- ===== src/Mail/Smtp/Keep.antt =====
-- What the steps of a session of src/mail/smtp.rs keep: a test that all events pass, and whether the
-- stream has TLS. The laws of a test are an instance.
use nvme_disk_mon.Common.{
  ℕ, ◌≡◌, ◌∙◌, refl, Bool, true, false, Option, none, some, Bytes, Result, ok, err, if◌then◌else◌,
  all, arith,
}
use nvme_disk_mon.Mail.Errors.{SmtpStage, MailError, IoError}
use nvme_disk_mon.Mail.Smtp.Reply.{Response, read_response_from}
use nvme_disk_mon.Mail.Smtp.{
  Peer, SmtpStream, Event, sent, replied, closed, SmtpConnection, Smtp, ◌>>=◌, then_with, is_tls,
  peer_of, with_peer, is_none, next_outcome, write_stream, flush_stream, io_result, write_bytes,
  flush, write_all, read_stream, read_peer, read_response, command, shutdown, fail_if, fail, return,
  lift,
}

-- A test of events that every reply passes, and the end of the connection.
pub record EventTest (test : Event → Bool) : Type 0 where
  pub replies : (stage : SmtpStage) (code : ℕ) → test (replied stage code) ≡ true
  pub closes : test closed ≡ true

-- What may be sent at a stage, over a stream with TLS or without.
abbrev pub Sendable : (Event → Bool) → Bool → SmtpStage → Bytes → Type 0
Sendable test encrypted stage bytes =
    (complete : Bool) → test (sent encrypted stage bytes complete) ≡ true

-- All events pass the test, and the stream has TLS or not.
pub record IsKept (test : Event → Bool) (encrypted : Bool) (c : SmtpConnection) : Type 0 where
  pub tested : all test c.trace ≡ true
  pub stream : is_tls c.stream ≡ encrypted

is_tls-with_peer :
    (stream : SmtpStream) (peer : Peer) → is_tls (with_peer stream peer) ≡ is_tls stream
unfolding is_tls with_peer
is_tls-with_peer (SmtpStream.plain p) peer = refl
is_tls-with_peer (SmtpStream.tls p) peer = refl

-- What holds behind a step, by its result.
abbrev pub Post :
    {A : Type 0} → (Event → Bool) → Bool → SmtpConnection × Result A MailError → Type 0
Post test after (c, ok a) = IsKept test after c
Post test after (c, err error) = all test c.trace ≡ true

pub record Triple {A : Type 0} (test : Event → Bool) (before : Bool) (m : Smtp A) (after : Bool)
    : Type 0 where
  pub run : (c : SmtpConnection) → IsKept test before c → Post test after (m c)

module _ {test : Event → Bool} where
  bind-Post :
      {A B : Type 0} (t u : Bool) (f : A → Smtp B) (r : SmtpConnection × Result A MailError)
      → ((a : A) → Triple test t (f a) u)
      → Post test t r
      → Post test u (then_with f r)
  unfolding then_with
  bind-Post t u f (d, ok a) q x = (q a).run d x
  bind-Post t u f (d, err error) q x = x

  pub Triple-bind :
      {A B : Type 0} {s t u : Bool} {m : Smtp A} {f : A → Smtp B}
      → Triple test s m t
      → ((a : A) → Triple test t (f a) u)
      → Triple test s (m >>= f) u
  Triple-bind {t = t} {u = u} {m = m} {f = f} p q = record {
    run = λ c h. bind-Post t u f (m c) q (p.run c h);
  }

  pub Triple-if :
      {A : Type 0} {s t : Bool} (b : Bool) {m n : Smtp A}
      → Triple test s m t
      → Triple test s n t
      → Triple test s (if b then m else n) t
  Triple-if true p q = p
  Triple-if false p q = q

  pub Triple-return : {A : Type 0} {s : Bool} (a : A) → Triple test s (return a) s
  Triple-return a = record { run = λ c h. h }

  pub Triple-fail : {A : Type 0} {s t : Bool} (e : MailError) → Triple test s (fail {A = A} e) t
  Triple-fail e = record { run = λ c h. h.tested }

  pub Triple-fail_if : {s : Bool} (b : Bool) (e : MailError) → Triple test s (fail_if b e) s
  Triple-fail_if true e = Triple-fail e
  Triple-fail_if false e = Triple-return tt

  pub Triple-lift : {A : Type 0} {s : Bool} (r : Result A MailError) → Triple test s (lift r) s
  Triple-lift (ok a) = Triple-return a
  Triple-lift (err e) = Triple-fail e

  io-Post :
      (s : Bool) (error : IoError → MailError) (r : SmtpConnection × Option IoError)
      → IsKept test s r.0
      → Post test s (io_result error r)
  unfolding io_result
  io-Post s error (c, none) h = h
  io-Post s error (c, some e) h = h.tested

-- A chain of whose last state nothing more is asked.
pub record Tested {A : Type 0} (test : Event → Bool) (before : Bool) (m : Smtp A) : Type 0 where
  pub run : (c : SmtpConnection) → IsKept test before c → all test (m c).0.trace ≡ true

bind-Tested :
    {A B : Type 0} (test : Event → Bool) (s : Bool) (f : A → Smtp B)
    (r : SmtpConnection × Result A MailError)
    → Post test s r
    → ((a : A) → Tested test s (f a))
    → all test (then_with f r).0.trace ≡ true
unfolding then_with
bind-Tested test s f (c, ok a) h k = (k a).run c h
bind-Tested test s f (c, err error) h k = h

pub Tested-bind :
    {A B : Type 0} {test : Event → Bool} {s t : Bool} {m : Smtp A} {f : A → Smtp B}
    → Triple test s m t
    → ((a : A) → Tested test t (f a))
    → Tested test s (m >>= f)
Tested-bind {test = test} {t = t} {m = m} {f = f} p q = record {
  run = λ c h. bind-Tested test t f (m c) (p.run c h) q;
}

module _ {test : Event → Bool} ⦃laws : EventTest test⦄ where
  write-IsKept :
      (s : Bool) (stage : SmtpStage) (bytes : Bytes) (p : Option Peer) (c : SmtpConnection)
      → Sendable test s stage bytes
      → IsKept test s c
      → IsKept test s (write_stream stage bytes p c).0
  unfolding write_stream
  write-IsKept s stage bytes none c e h = h
  write-IsKept s stage bytes (some p) c e h = record {
    tested = ground (arith, h.tested, h.stream, e (is_none (next_outcome p.writes)));
    stream = is_tls-with_peer c.stream _ ∙ h.stream;
  }

  pub write_bytes-IsKept :
      (s : Bool) (error : IoError → MailError) (stage : SmtpStage) (bytes : Bytes)
      → Sendable test s stage bytes
      → Triple test s (write_bytes error stage bytes) s
  unfolding write_bytes
  write_bytes-IsKept s error stage bytes e = record {
    run = λ c h.
        io-Post s error (write_stream stage bytes (peer_of c.stream) c)
          (write-IsKept s stage bytes (peer_of c.stream) c e h);
  }

  flush_stream-IsKept :
      (s : Bool) (p : Option Peer) (c : SmtpConnection)
      → IsKept test s c
      → IsKept test s (flush_stream p c).0
  unfolding flush_stream
  flush_stream-IsKept s none c h = h
  flush_stream-IsKept s (some p) c h = record {
    tested = h.tested;
    stream = is_tls-with_peer c.stream _ ∙ h.stream;
  }

  pub flush-IsKept : (s : Bool) (error : IoError → MailError) → Triple test s (flush error) s
  unfolding flush
  flush-IsKept s error = record {
    run = λ c h.
        io-Post s error (flush_stream (peer_of c.stream) c)
          (flush_stream-IsKept s (peer_of c.stream) c h);
  }

  pub write_all-IsKept :
      (s : Bool) (stage : SmtpStage) (bytes : Bytes)
      → Sendable test s stage bytes
      → Triple test s (write_all stage bytes) s
  unfolding write_all
  write_all-IsKept s stage bytes e =
      Triple-bind (write_bytes-IsKept s _ stage bytes e) (λ _. flush-IsKept s _)

  read_stream-IsKept :
      (s : Bool) (stage : SmtpStage) (p : Peer) (c : SmtpConnection)
      (r : Result (Response × Bytes) IoError)
      → IsKept test s c
      → Post test s (read_stream stage p c r)
  unfolding read_stream
  read_stream-IsKept s stage p c (err e) h = h.tested
  read_stream-IsKept s stage p c (ok (response, rest)) h = record {
    tested = ground (arith, h.tested, laws.replies stage response.code);
    stream = is_tls-with_peer c.stream _ ∙ h.stream;
  }

  read_peer-IsKept :
      (s : Bool) (stage : SmtpStage) (p : Option Peer) (c : SmtpConnection)
      → IsKept test s c
      → Post test s (read_peer stage p c)
  unfolding read_peer
  read_peer-IsKept s stage none c h = h.tested
  read_peer-IsKept s stage (some p) c h =
      read_stream-IsKept s stage p c (read_response_from p.reader) h

  pub read_response-IsKept : (s : Bool) (stage : SmtpStage) → Triple test s (read_response stage) s
  unfolding read_response
  read_response-IsKept s stage = record {
    run = λ c h. read_peer-IsKept s stage (peer_of c.stream) c h;
  }

  pub command-IsKept :
      (s : Bool) (stage : SmtpStage) (bytes : Bytes)
      → Sendable test s stage bytes
      → Triple test s (command stage bytes) s
  unfolding command
  command-IsKept s stage bytes e =
      Triple-bind (write_all-IsKept s stage bytes e) (λ _. read_response-IsKept s stage)

  pub shutdown-IsKept : (s : Bool) → Triple test s shutdown s
  unfolding shutdown
  shutdown-IsKept s = record {
    run = λ c h. record { tested = ground (arith, h.tested, laws.closes); stream = h.stream };
  }
