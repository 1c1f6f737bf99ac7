-- ===== src/Smtp/Steps.antt =====
-- What each step of the client does to its tally.
use mathlib.Core.List.{append-nil}
use tianya.Prelude.{
  ℕ, zero, suc, ◌≡◌, refl, sym, ◌∙◌, ap, ◌⊎◌, true, false, some, List, [], ◌∷◌, ◌++◌, arith, inl,
  inr, Bool-cases, Option-cases, leb,
}
use tianya.Text.{Text, codes, equal}
use tianya.Boost.{Boost}
use tianya.Imf.{InternetMailFormat, Base64, mail_data}
use tianya.Smtp.{
  ErrorCode, permission_denied, Channel, connect, sent, handshake, Smtp, check_smtp_response,
  check_server_cap, server_cap_handler, server_cap_handlers,
}
use tianya.Smtp.Session.{
  Completion, RcptTos, Point, Session, wait_at, fail, write_on, async_write, consume, receive,
  after, after_write, check_status_for, after_read, begin, login, start_tls, async_handshake,
  finish_rcpts, send_rcpt, send_rcpt_tos, rcpt_after, rcpt_checked, send_mail_data,
}
use tianya.Smtp.Tally.{
  waits, reports, connects, Tally, Ready, Going, At, IsBounded, quiet, again, telling, at_limit,
  waits-append, connects-append, reports-append,
}

module _ (b : Boost) (e : Base64) (imf : InternetMailFormat) where
  fail-IsBounded : (x : ErrorCode) (t : Smtp) → Going imf t → IsBounded b e imf (fail x t)
  unfolding fail wait_at
  fail-IsBounded x t h = elim (Bool-cases (leb t.retry_count 20)) [
    | inl f ↦ rw (f, fail) (again (ground arith) h.0, h.1)
    | inr f ↦
        rw (f, fail)
          (x, (at_limit t.retry_count (ground (arith, h.0.within)) (telling (some x) h.0)))
  ]

  pub after-IsBounded :
      (c : Completion) (next : Smtp → Session) (t : Smtp)
      → Going imf t
      → ((u : Smtp) → Going imf u → IsBounded b e imf (next u))
      → IsBounded b e imf (after c next t)
  unfolding after
  after-IsBounded c next t h more = elim (Option-cases c.ec) [
    | inl f ↦ rw (f, after) (more t h)
    | inr (x, f) ↦ rw (f, after) (fail-IsBounded x t h)
  ]

  pub after_write-IsBounded :
      (c : Completion) (p : Point) (t : Smtp)
      → Going imf t
      → ((u : Smtp) → Going imf u → At b e imf p u)
      → IsBounded b e imf (after_write c p t)
  unfolding after_write consume wait_at
  after_write-IsBounded c p t h more = after-IsBounded c (wait_at p) (consume c t) h more

  check_status_for-IsBounded :
      (code : ℕ) (next : Smtp → Session) (t : Smtp)
      → Going imf t
      → ((u : Smtp) → Going imf u → IsBounded b e imf (next u))
      → IsBounded b e imf (check_status_for b code next t)
  unfolding check_status_for
  check_status_for-IsBounded code next t h more =
      elim (Option-cases (check_smtp_response b code t.readbuf).ec) [
        | inl f ↦ rw (f, check_status_for) (more _ h)
        | inr (x, f) ↦ rw (f, check_status_for) (fail-IsBounded x _ h)
      ]

  pub after_read-IsBounded :
      (c : Completion) (code : ℕ) (next : Smtp → Session) (t : Smtp)
      → Going imf t
      → ((u : Smtp) → Going imf u → IsBounded b e imf (next u))
      → IsBounded b e imf (after_read b c code next t)
  unfolding after_read receive
  after_read-IsBounded c code next t h more =
      after-IsBounded c (check_status_for b code next) (receive c t) h
        (λ u g. check_status_for-IsBounded code next u g more)

  pub sent-Going :
      (t : Smtp) (c : Channel) (s : Text)
      → Going imf t
      → Tally (t.log ++ sent c s ∷ []) t.retry_count (suc t.retry_count) [] × (t.imf ≡ imf)
  unfolding waits connects reports
  sent-Going t c s h = (quiet (sent c s) refl refl refl h.0, h.1)

  pub login-IsBounded : (t : Smtp) → Going imf t → IsBounded b e imf (login t)
  unfolding login async_write write_on wait_at
  login-IsBounded t h = sent-Going t _ _ h

  pub start_tls-IsBounded : (t : Smtp) → Going imf t → IsBounded b e imf (start_tls t)
  unfolding start_tls write_on wait_at
  start_tls-IsBounded t h = elim (Option-cases t.sslsocket) [
    | inl f ↦ rw (f, start_tls) (login-IsBounded t h)
    | inr (n, f) ↦ rw (f, start_tls) (sent-Going t _ _ h)
  ]

  pub async_handshake-IsBounded : (t : Smtp) → Going imf t → IsBounded b e imf (async_handshake t)
  unfolding async_handshake wait_at waits connects reports
  async_handshake-IsBounded t h = elim (Option-cases t.sslsocket) [
    | inl f ↦ rw (f, async_handshake) h
    | inr (n, f) ↦ rw (f, async_handshake) (quiet (handshake n) refl refl refl h.0, h.1)
  ]

  server_cap_handlers-Going :
      (caps : List Text) (t : Smtp) → Going imf t → Going imf (server_cap_handlers caps t)
  unfolding server_cap_handlers server_cap_handler
  server_cap_handlers-Going [] t h = h
  server_cap_handlers-Going (cap ∷ caps) t h =
      server_cap_handlers-Going caps (server_cap_handler cap t) (handled (Bool-cases _))
    where
      handled :
          (equal cap (codes "STARTTLS") ≡ true) ⊎ (equal cap (codes "STARTTLS") ≡ false)
          → Going imf (server_cap_handler cap t)
      handled (inl f) = rw (f, server_cap_handler) h
      handled (inr f) = rw (f, server_cap_handler) h

  pub check_server_cap-Going : (t : Smtp) → Going imf t → Going imf (check_server_cap b t)
  unfolding check_server_cap
  check_server_cap-Going t h =
      let found = check_smtp_response b 250 t.readbuf in
      server_cap_handlers-Going found.caps (record t { readbuf = found.rest }) h

  finish_rcpts-IsBounded : (n : ℕ) (t : Smtp) → Going imf t → IsBounded b e imf (finish_rcpts n t)
  unfolding finish_rcpts async_write write_on wait_at
  finish_rcpts-IsBounded zero t h = fail-IsBounded permission_denied t h
  finish_rcpts-IsBounded (suc n) t h = sent-Going t _ _ h

  pub send_rcpt_tos-IsBounded :
      (rcpts : List Text) (n : ℕ) (t : Smtp)
      → Going imf t
      → IsBounded b e imf (send_rcpt_tos rcpts n t)
  unfolding send_rcpt_tos send_rcpt wait_at
  send_rcpt_tos-IsBounded [] n t h = finish_rcpts-IsBounded n t h
  send_rcpt_tos-IsBounded (r ∷ rs) n t h = sent-Going t _ _ h

  pub rcpt_after-IsBounded :
      (c : Completion) (op : RcptTos) (next : Smtp → Session) (t : Smtp)
      → Going imf t
      → ((u : Smtp) → Going imf u → IsBounded b e imf (next u))
      → IsBounded b e imf (rcpt_after c op next t)
  unfolding rcpt_after
  rcpt_after-IsBounded c op next t h more = elim (Option-cases c.ec) [
    | inl f ↦ rw (f, rcpt_after) (more t h)
    | inr (x, f) ↦ rw (f, rcpt_after) (finish_rcpts-IsBounded op.sended_rcpt t h)
  ]

  pub rcpt_checked-IsBounded :
      (op : RcptTos) (otherwise : Smtp → Session) (t : Smtp)
      → Going imf t
      → ((u : Smtp) → Going imf u → IsBounded b e imf (otherwise u))
      → IsBounded b e imf (rcpt_checked b op otherwise t)
  unfolding rcpt_checked
  rcpt_checked-IsBounded op otherwise t h more =
      elim (Option-cases (check_smtp_response b 250 t.readbuf).ec) [
        | inl f ↦ rw (f, rcpt_checked) (send_rcpt_tos-IsBounded op.later (suc op.sended_rcpt) _ h)
        | inr (x, f) ↦ rw (f, rcpt_checked) (more _ h)
      ]

  pub send_mail_data-IsBounded : (t : Smtp) → Going imf t → IsBounded b e imf (send_mail_data b e t)
  unfolding send_mail_data async_write write_on wait_at
  send_mail_data-IsBounded t h = elim (Option-cases (mail_data b e t.imf)) [
    | inl f ↦ rw (f, send_mail_data) ((t.retry_count, h.0), (ap (mail_data b e) (sym h.1) ∙ f))
    | inr (m, f) ↦ rw (f, send_mail_data) (sent-Going t _ _ h)
  ]

  pub begin-IsBounded : (t : Smtp) → Ready imf t → IsBounded b e imf (begin t)
  unfolding begin wait_at waits connects reports
  begin-IsBounded t (h, m) = (
    record {
      paused = waits-append t.log _ ∙ append-nil (waits t.log) ∙ h.paused;
      tried = omega (arith, connects-append t.log (connect t.query ∷ []), h.tried);
      told = reports-append t.log _ ∙ ap (λ l. l ++ []) h.told;
      within = h.within;
    },
    m,
  )
