-- ===== src/Mail/Smtp/Open/Keep.antt =====
-- What the beginning of a session of src/mail/smtp.rs keeps, for a test that the commands of this part
-- pass.
use nvme_disk_mon.Common.{
  ℕ, ◌≡◌, refl, sym, ap, subst, either, Bool, true, false, not, List, [], ◌∷◌, ◌++◌, none, some,
  Bytes, bytes, Result, ok, err, ◌==◌, all, contains, eqb, bytes_key, arith,
}
use nvme_disk_mon.Config.{MailConfig, SmtpTlsMode, start_tls_required, implicit_tls, as_str}
use nvme_disk_mon.Mail.Errors.{
  SmtpStage, greeting, ehlo, start_tls, auth, MailError, IoError, start_tls_unavailable,
  auth_mechanism_unavailable,
}
use nvme_disk_mon.Mail.Smtp.{Peer, SmtpStream, SmtpConnection, Event, is_tls}
use nvme_disk_mon.Mail.Smtp.Auth.{SmtpAuth, mechanism, encode_auth}
use nvme_disk_mon.Mail.Smtp.Open.{
  close_with, auth_rejected, require_code, set_capabilities, say_ehlo, Opened, opened, finish_auth,
  answer_challenge, challenge_answer, upgraded, upgrade_stream, upgrade_tls, start_if_offered,
  start_encryption, encrypt_if_required, greet, first_stream, fresh, authenticate_if_offered,
  authenticate, begin_session, open_stream, open_peer, Attempt, open_authenticated_smtp_blocking,
}
use nvme_disk_mon.Mail.Smtp.Reply.{Response}
use nvme_disk_mon.Mail.Stuffing.{crlf}
use nvme_disk_mon.Mail.Smtp.Keep.{
  EventTest, Sendable, IsKept, Post, Triple, Triple-bind, Triple-if, Triple-return, Triple-fail,
  Triple-fail_if, Triple-lift, command-IsKept, read_response-IsKept, shutdown-IsKept,
}

-- A test that lets EHLO pass, STARTTLS in the clear, and AUTH over TLS.
pub record OpenTest (test : Event → Bool) : Type 0 where
  pub basic : EventTest test
  pub ehlos : (encrypted : Bool) (text : Bytes) → Sendable test encrypted ehlo text
  pub starts : (text : Bytes) → Sendable test false start_tls text
  pub auths : (text : Bytes) → Sendable test true auth text

-- Whether the stream is encrypted from the beginning.
abbrev pub is_implicit : SmtpTlsMode → Bool
is_implicit implicit_tls = true
is_implicit start_tls_required = false

module _ {test : Event → Bool} ⦃laws : OpenTest test⦄ where
  instance abbrev basic_laws : EventTest test
  basic_laws = laws.basic

  pub require_code-IsKept :
      {s : Bool} (stage : SmtpStage) (code : ℕ) (r : Response)
      → Triple test s (require_code stage code r) s
  unfolding require_code
  require_code-IsKept stage code r = Triple-fail_if _ _

  close_with-IsKept : {s t : Bool} (e : MailError) → Triple test s (close_with e) t
  unfolding close_with
  close_with-IsKept {s = s} e = Triple-bind (shutdown-IsKept s) (λ _. Triple-fail e)

  say_ehlo-IsKept : (s : Bool) → Triple test s say_ehlo s
  unfolding say_ehlo set_capabilities
  say_ehlo-IsKept s = Triple-bind (command-IsKept s ehlo _ (laws.ehlos s _)) (λ r.
      Triple-bind (require_code-IsKept ehlo 250 r)
        (λ _. record { run = λ c h. record { tested = h.tested; stream = h.stream } }))

  finish_auth-IsKept :
      (method : SmtpAuth) (r : Response) → Triple test true (finish_auth method r) true
  unfolding finish_auth
  finish_auth-IsKept method r =
      Triple-if (r.code == 235) (Triple-return tt) (close_with-IsKept (auth_rejected method r.code))

  answer_challenge-IsKept :
      (method : SmtpAuth) (encoded : Bytes) (r : Response)
      → Triple test true (answer_challenge method encoded r) true
  unfolding answer_challenge
  answer_challenge-IsKept method encoded r =
      Triple-if (r.code == 334)
        (command-IsKept true auth (challenge_answer method encoded) (laws.auths _))
        (Triple-return r)

  module _ (open_tls : Bytes → Peer → Result Peer MailError) where
    upgraded-IsKept :
        (c : SmtpConnection) (r : Result Peer MailError)
        → IsKept test false c
        → Post test true (upgraded open_tls c r)
    unfolding upgraded is_tls
    upgraded-IsKept c (ok peer) h = record { tested = h.tested; stream = refl }
    upgraded-IsKept c (err e) h = h.tested

    upgrade_stream-IsKept :
        (host : Bytes) (stream : SmtpStream) (c : SmtpConnection)
        → IsKept test false c
        → Post test true (upgrade_stream open_tls host stream c)
    unfolding upgrade_stream
    upgrade_stream-IsKept host (SmtpStream.plain (some tcp)) c h =
        upgraded-IsKept c (open_tls host tcp) h
    upgrade_stream-IsKept host (SmtpStream.plain none) c h = h.tested
    upgrade_stream-IsKept host (SmtpStream.tls peer) c h = h.tested

    upgrade_tls-IsKept : (host : Bytes) → Triple test false (upgrade_tls open_tls host) true
    unfolding upgrade_tls
    upgrade_tls-IsKept host = record { run = λ c h. upgrade_stream-IsKept host c.stream c h }

    start_if_offered-IsKept :
        (offered : Bool) (host : Bytes)
        → Triple test false (start_if_offered open_tls offered host) true
    unfolding start_if_offered
    start_if_offered-IsKept offered host =
        Triple-if (not offered) (close_with-IsKept start_tls_unavailable) (
          Triple-bind (command-IsKept false start_tls (bytes "STARTTLS\r\n") (laws.starts _)) (λ r.
            Triple-bind (require_code-IsKept start_tls 220 r)
              (λ _. Triple-bind (upgrade_tls-IsKept host) (λ _. say_ehlo-IsKept true))))

    start_encryption-IsKept :
        (host : Bytes) → Triple test false (start_encryption open_tls host) true
    unfolding start_encryption
    start_encryption-IsKept host = record {
      run = λ c h. (start_if_offered-IsKept c.capabilities.starttls host).run c h;
    }

    encrypt-IsKept :
        (mode : SmtpTlsMode) (host : Bytes)
        → Triple test (is_implicit mode) (encrypt_if_required open_tls mode host) true
    unfolding encrypt_if_required
    encrypt-IsKept start_tls_required host = start_encryption-IsKept host
    encrypt-IsKept implicit_tls host = Triple-return tt

    greet-IsKept :
        (cfg : MailConfig) → Triple test (is_implicit cfg.smtp_tls_mode) (greet open_tls cfg) true
    unfolding greet
    greet-IsKept cfg =
        let s = is_implicit cfg.smtp_tls_mode in
        Triple-bind (read_response-IsKept s greeting) (λ r.
          Triple-bind (require_code-IsKept greeting 220 r) (λ _.
            Triple-bind (say_ehlo-IsKept s) (λ _. encrypt-IsKept cfg.smtp_tls_mode cfg.smtp_host)))

    first_stream-IsKept :
        (mode : SmtpTlsMode) (host : Bytes) (tcp : Peer) (stream : SmtpStream)
        → first_stream open_tls mode host tcp ≡ ok stream
        → IsKept test (is_implicit mode) (fresh open_tls stream)
    unfolding first_stream fresh is_tls
    first_stream-IsKept start_tls_required host tcp stream e = record {
      tested = refl;
      stream = ground arith;
    }
    first_stream-IsKept implicit_tls host tcp stream e = record {
      tested = refl;
      stream = ground arith;
    }

    module _ (base64 : Bytes → Bytes) where
      authenticate-IsKept :
          (offered : Bool) (cfg : MailConfig) (method : SmtpAuth)
          → Triple test true (authenticate_if_offered open_tls base64 offered cfg method) true
      unfolding authenticate_if_offered
      authenticate-IsKept offered cfg method =
          Triple-if (not offered)
            (close_with-IsKept (auth_mechanism_unavailable (mechanism method)))
            (Triple-bind (Triple-lift (encode_auth base64 cfg method)) (λ encoded.
              Triple-bind
                (command-IsKept true auth
                  (bytes "AUTH " ++ mechanism method ++ b' ' ∷ encoded ++ crlf) (laws.auths _))
                (λ r.
                  Triple-bind (answer_challenge-IsKept method encoded r)
                    (λ last. finish_auth-IsKept method last))))

      begin_session-IsKept :
          (cfg : MailConfig) (method : SmtpAuth)
          → Triple test
              (is_implicit cfg.smtp_tls_mode)
              (begin_session open_tls base64 cfg method)
              true
      unfolding begin_session authenticate
      begin_session-IsKept cfg method = Triple-bind (greet-IsKept cfg) (λ _. record {
        run = λ c h.
            (authenticate-IsKept (contains c.capabilities.auth (mechanism method)) cfg method).run c
              h;
      })

-- All events pass the test, and an open connection has TLS and no other events.
pub record IsOpened (test : Event → Bool) (o : Opened) : Type 0 where
  pub tested : all test o.0 ≡ true
  pub kept : (c : SmtpConnection) → o.1 ≡ ok c → IsKept test true c
  pub logged : (c : SmtpConnection) → o.1 ≡ ok c → c.trace ≡ o.0

module _ {test : Event → Bool} where
  opened-IsOpened :
      (r : SmtpConnection × Result (Unit {0}) MailError)
      → Post test true r
      → IsOpened test (opened r)
  unfolding opened
  opened-IsOpened (c, ok _) h = record {
    tested = h.tested;
    kept = λ d e. subst (IsKept test true) (ok-ok c d e) h;
    logged = λ d e. ap (λ x. x.trace) (sym (ok-ok c d e));
  }
    where
      ok-ok :
          (c d : SmtpConnection) → ◌≡◌ {A = Result SmtpConnection MailError} (ok c) (ok d) → c ≡ d
      ok-ok c d e = ground arith
  opened-IsOpened (c, err error) h = record {
    tested = h;
    kept = λ d e. ground arith;
    logged = λ d e. ground arith;
  }

  unopened-IsOpened : (error : MailError) → IsOpened test ([], err error)
  unopened-IsOpened error = record {
    tested = refl;
    kept = λ d e. ground arith;
    logged = λ d e. ground arith;
  }

module _ {test : Event → Bool} ⦃laws : OpenTest test⦄
    (open_tls : Bytes → Peer → Result Peer MailError) (base64 : Bytes → Bytes) where
  open_stream-IsOpened :
      (cfg : MailConfig) (method : SmtpAuth) (r : Result SmtpStream MailError)
      → ((stream : SmtpStream)
          → r ≡ ok stream
          → IsKept test (is_implicit cfg.smtp_tls_mode) (fresh open_tls stream))
      → IsOpened test (open_stream open_tls base64 cfg method r)
  unfolding open_stream
  open_stream-IsOpened cfg method (err error) h = unopened-IsOpened error
  open_stream-IsOpened cfg method (ok stream) h =
      opened-IsOpened (begin_session open_tls base64 cfg method (fresh open_tls stream)) (
        (begin_session-IsKept open_tls base64 cfg method).run (fresh open_tls stream)
          (h stream refl))

  open_peer-IsOpened :
      (cfg : MailConfig) (method : SmtpAuth) (r : Result Peer MailError)
      → IsOpened test (open_peer open_tls base64 cfg method r)
  unfolding open_peer
  open_peer-IsOpened cfg method (err error) = unopened-IsOpened error
  open_peer-IsOpened cfg method (ok tcp) =
      open_stream-IsOpened cfg method (first_stream open_tls cfg.smtp_tls_mode cfg.smtp_host tcp)
        (first_stream-IsKept open_tls cfg.smtp_tls_mode cfg.smtp_host tcp)

  pub open-IsOpened :
      (verifier : Bool) (resolved : Bytes → ℕ → Result (List Attempt) IoError) (cfg : MailConfig)
      (method : SmtpAuth)
      → IsOpened test
          (open_authenticated_smtp_blocking open_tls base64 verifier resolved cfg method)
  unfolding open_authenticated_smtp_blocking
  open-IsOpened verifier resolved cfg method =
      either (IsOpened test) (not (eqb (as_str cfg.smtp_auth_method) (mechanism method)))
        (unopened-IsOpened _)
        (either (IsOpened test) (not verifier) (unopened-IsOpened _)
          (open_peer-IsOpened cfg method _))
