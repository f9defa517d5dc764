-- ===== src/Mail/Send/Once.antt =====
-- The loops of src/mail/mod.rs send a message again only where no server can have it.
use nvme_disk_mon.Common.{
  ℕ, zero, suc, ◌≡◌, sym, ◌∙◌, either, inl, inr, true, Result, ok, err, arith, Bool-cases,
}
use nvme_disk_mon.Mail.Errors.{MailError, is_transient_smtp_error, mark_refresh_attempted}
use nvme_disk_mon.Mail.Send.{
  OAuthTokenMode, runtime, force_refresh, transient_retry_limit, pause, retry_or_return, retry_loop,
  mark_result, submit_opened, marked_attempt, after_refresh, wants_refresh, send_loop,
  send_acquired, send_oauth_mail_with,
}

mark-transient :
    (e : MailError) → is_transient_smtp_error (mark_refresh_attempted e) ≡ is_transient_smtp_error e
unfolding is_transient_smtp_error mark_refresh_attempted
mark-transient e = ground arith

-- The laws of a world: what holds where another session may begin, and what holds at the end.
pub record World (S : Type 0) : Type 1 where
  pub wait : ℕ → S → S
  pub Ready : S → Type 0
  pub Ended : S → Type 0
  pub ended : (s : S) → Ready s → Ended s
  pub waited : (delay : ℕ) (s : S) → Ready s → Ready (wait delay s)

-- A result, after whose transient error another session may begin.
abbrev pub IsResult : {S A : Type 0} → World S → S × Result A MailError → Type 0
IsResult w (s, ok a) = w.Ended s
IsResult w (s, err e) = w.Ended s × (is_transient_smtp_error e ≡ true → w.Ready s)

abbrev pub IsOpening :
    {S Session : Type 0} → World S → (Session → Type 0) → S × Result Session MailError → Type 0
IsOpening w Good (s, ok session) = w.Ready s × Good session
IsOpening w Good (s, err e) = w.Ready s

module _ {S : Type 0} (w : World S) where
  ended-result : {A : Type 0} (r : S × Result A MailError) → IsResult w r → w.Ended r.0
  ended-result (s, ok a) h = h
  ended-result (s, err e) h = h.0

  retry-Ended :
      {A : Type 0} (retry : S → S × Result A MailError) (r : S × Result A MailError)
      → ((s : S) → w.Ready s → w.Ended (retry s).0)
      → IsResult w r
      → w.Ended (retry_or_return retry r).0
  unfolding retry_or_return
  retry-Ended retry (s, ok a) k h = h
  retry-Ended retry (s, err e) k h = elim (Bool-cases (is_transient_smtp_error e)) [
    | inl t ↦ rw (t, retry_or_return) (k s (h.1 t))
    | inr t ↦ rw (t, retry_or_return) h.0
  ]

  paused : (n : ℕ) (s : S) → w.Ready s → w.Ready (pause w.wait n s)
  unfolding pause
  paused n s h = w.waited _ s h

  pub retry_loop-Ended :
      {A : Type 0} (attempt : S → S × Result A MailError)
      → ((s : S) → w.Ready s → IsResult w (attempt s))
      → (n : ℕ) (s : S) → w.Ready s
      → w.Ended (retry_loop w.wait n attempt s).0
  unfolding retry_loop
  retry_loop-Ended attempt k zero s h = ended-result (attempt s) (k s h)
  retry_loop-Ended attempt k (suc n) s h =
      retry-Ended (λ d. retry_loop w.wait n attempt (pause w.wait n d)) (attempt s)
        (λ d ready. retry_loop-Ended attempt k n (pause w.wait n d) (paused n d ready)) (k s h)

  mark-IsResult :
      {A : Type 0} (r : S × Result A MailError) → IsResult w r → IsResult w (mark_result w.wait r)
  unfolding mark_result
  mark-IsResult (s, ok a) h = h
  mark-IsResult (s, err e) h = (h.0, λ t. h.1 (sym (mark-transient e) ∙ t))

  module _ {Token Session A : Type 0} (Good : Session → Type 0)
      (acquire : OAuthTokenMode → S → S × Result Token MailError)
      (open_session : Token → S → S × Result Session MailError)
      (submit : Session → S → S × Result A MailError)
      (acquired : (mode : OAuthTokenMode) (s : S) → w.Ready s → w.Ready (acquire mode s).0)
      (openings : (token : Token) (s : S) → w.Ready s → IsOpening w Good (open_session token s))
      (submits : (session : Session) (s : S)
        → Good session
        → w.Ready s
        → IsResult w (submit session s)) where
    opened-IsResult :
        (r : S × Result Session MailError)
        → IsOpening w Good r
        → IsResult w (submit_opened w.wait acquire open_session submit r)
    unfolding submit_opened
    opened-IsResult (s, ok session) h = submits session s h.1 h.0
    opened-IsResult (s, err e) h = (w.ended s h, λ _. h)

    opening-Ready : (r : S × Result Session MailError) → IsOpening w Good r → w.Ready r.0
    opening-Ready (s, ok session) h = h.0
    opening-Ready (s, err e) h = h

    after_refresh-Ended :
        (n : ℕ) (r : S × Result Token MailError)
        → w.Ready r.0
        → w.Ended (after_refresh w.wait acquire open_session submit n r).0
    unfolding after_refresh marked_attempt
    after_refresh-Ended n (s, ok token) h =
        retry_loop-Ended (marked_attempt w.wait acquire open_session submit token)
          (λ d ready.
            mark-IsResult (submit_opened w.wait acquire open_session submit (open_session token d))
              (opened-IsResult (open_session token d) (openings token d ready)))
          n s h
    after_refresh-Ended n (s, err e) h = w.ended s h

    send_loop-Ended :
        (n : ℕ) (token : Token) (s : S)
        → w.Ready s
        → w.Ended (send_loop w.wait acquire open_session submit n token s).0
    unfolding send_loop
    send_loop-Ended zero token s h =
        let opening = openings token s h in
        let ready = acquired force_refresh _ (opening-Ready (open_session token s) opening) in
        either (λ (r : S × Result A MailError). w.Ended r.0)
          (wants_refresh w.wait acquire open_session submit (open_session token s).1)
          (after_refresh-Ended zero _ ready)
          (ended-result _ (opened-IsResult (open_session token s) opening))
    send_loop-Ended (suc n) token s h =
        let opening = openings token s h in
        let ready = acquired force_refresh _ (opening-Ready (open_session token s) opening) in
        either (λ (r : S × Result A MailError). w.Ended r.0)
          (wants_refresh w.wait acquire open_session submit (open_session token s).1)
          (after_refresh-Ended (suc n) _ ready)
          (retry-Ended
            (λ d. send_loop w.wait acquire open_session submit n token (pause w.wait n d))
            (submit_opened w.wait acquire open_session submit (open_session token s))
            (λ d again. send_loop-Ended n token (pause w.wait n d) (paused n d again))
            (opened-IsResult (open_session token s) opening))

    send_acquired-Ended :
        (r : S × Result Token MailError)
        → w.Ready r.0
        → w.Ended (send_acquired w.wait acquire open_session submit r).0
    unfolding send_acquired
    send_acquired-Ended (s, ok token) h = send_loop-Ended transient_retry_limit token s h
    send_acquired-Ended (s, err e) h = w.ended s h

    pub send_oauth_mail_with-Ended :
        (s : S) → w.Ready s → w.Ended (send_oauth_mail_with w.wait acquire open_session submit s).0
    unfolding send_oauth_mail_with
    send_oauth_mail_with-Ended s h = send_acquired-Ended (acquire runtime s) (acquired runtime s h)
