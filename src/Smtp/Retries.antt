-- ===== src/Smtp/Retries.antt =====
-- How often the client tries, how long it waits between the tries, and what it reports.

use tianya.Prelude.{
  ℕ, ◌≡◌, refl, sym, ◌∙◌, ap, Option, none, some, List, [], ◌∷◌, arith, inl, inr, Option-cases,
}
use tianya.Text.{Text, codes}
use tianya.Boost.{Boost}
use tianya.Imf.{InternetMailFormat, get_header, Base64}
use tianya.Smtp.{sendmail, field, smtp, Effect, Smtp, check_server_cap}
use tianya.Smtp.Session.{
  Completion, Point, Session, starting, connecting, welcome, ehlo_sent, ehlo_read, tls_sent,
  tls_read, handshaking, auth_sent, auth_read, from_sent, from_read, rcpt_sent, rcpt_read,
  again_sent, again_read, data_sent, data_read, mail_sent, mail_read, succeeded, failed, broken_off,
  wait_at, write_on, async_write, consume, receive, after_write, ehlo, login, start_tls,
  async_handshake, mail_from, send_rcpt, send_rcpt_tos, send_rcpt_again, rcpt_checked,
  send_mail_data, report_success, resume, run, async_sendmail,
}
use tianya.Smtp.Tally.{waits, reports, connects, pauses, Ready, At, IsBounded, telling}
use tianya.Smtp.Steps.{
  after-IsBounded, after_write-IsBounded, after_read-IsBounded, sent-Going, login-IsBounded,
  start_tls-IsBounded, async_handshake-IsBounded, check_server_cap-Going, send_rcpt_tos-IsBounded,
  rcpt_after-IsBounded, rcpt_checked-IsBounded, send_mail_data-IsBounded, begin-IsBounded,
}

resume-IsBounded :
    (b : Boost) (e : Base64) (imf : InternetMailFormat) (c : Completion) (p : Point) (t : Smtp)
    → At b e imf p t
    → IsBounded b e imf (resume b e c p t)
unfolding resume wait_at after_write consume receive ehlo mail_from async_write write_on send_rcpt
    send_rcpt_again report_success
resume-IsBounded b e imf c starting t h = begin-IsBounded b e imf t h
resume-IsBounded b e imf c connecting t h =
    after-IsBounded b e imf c (λ u. wait_at welcome (record u { readbuf = [] })) t h (λ u g. g)
resume-IsBounded b e imf c welcome t h =
    after_read-IsBounded b e imf c 220 ehlo t h (λ u g. sent-Going b e imf u _ _ g)
resume-IsBounded b e imf c ehlo_sent t h = after_write-IsBounded b e imf c ehlo_read t h (λ u g. g)
resume-IsBounded b e imf c ehlo_read t h =
    after-IsBounded b e imf c (λ u. start_tls (check_server_cap b u)) (receive c t) h
      (λ u g.
        start_tls-IsBounded b e imf (check_server_cap b u) (check_server_cap-Going b e imf u g))
resume-IsBounded b e imf c tls_sent t h = after_write-IsBounded b e imf c tls_read t h (λ u g. g)
resume-IsBounded b e imf c tls_read t h =
    after_read-IsBounded b e imf c 220 async_handshake t h (async_handshake-IsBounded b e imf)
resume-IsBounded b e imf c handshaking t h =
    after-IsBounded b e imf c login t h (login-IsBounded b e imf)
resume-IsBounded b e imf c auth_sent t h = after_write-IsBounded b e imf c auth_read t h (λ u g. g)
resume-IsBounded b e imf c auth_read t h =
    after_read-IsBounded b e imf c 235 mail_from t h (λ u g. sent-Going b e imf u _ _ g)
resume-IsBounded b e imf c from_sent t h = after_write-IsBounded b e imf c from_read t h (λ u g. g)
resume-IsBounded b e imf c from_read t h =
    after_read-IsBounded b e imf c 250 (λ u. send_rcpt_tos u.rcpts 0 u) t h
      (λ u g. send_rcpt_tos-IsBounded b e imf u.rcpts 0 u g)
resume-IsBounded b e imf c (rcpt_sent op) t h =
    rcpt_after-IsBounded b e imf c op (wait_at (rcpt_read op)) t h (λ u g. g)
resume-IsBounded b e imf c (rcpt_read op) t h =
    rcpt_after-IsBounded b e imf c op (rcpt_checked b op (send_rcpt_again op)) (receive c t) h
      (λ u g.
        rcpt_checked-IsBounded b e imf op (send_rcpt_again op) u g
          (λ v k. sent-Going b e imf v _ _ k))
resume-IsBounded b e imf c (again_sent op) t h =
    rcpt_after-IsBounded b e imf c op (wait_at (again_read op)) t h (λ u g. g)
resume-IsBounded b e imf c (again_read op) t h =
    rcpt_after-IsBounded b e imf c op (rcpt_checked b op (send_rcpt_tos op.later op.sended_rcpt))
      (receive c t) h
      (λ u g.
        rcpt_checked-IsBounded b e imf op (send_rcpt_tos op.later op.sended_rcpt) u g
          (λ v k. send_rcpt_tos-IsBounded b e imf op.later op.sended_rcpt v k))
resume-IsBounded b e imf c data_sent t h = after_write-IsBounded b e imf c data_read t h (λ u g. g)
resume-IsBounded b e imf c data_read t h =
    after_read-IsBounded b e imf c 354 (send_mail_data b e) t h (send_mail_data-IsBounded b e imf)
resume-IsBounded b e imf c mail_sent t h = after_write-IsBounded b e imf c mail_read t h (λ u g. g)
resume-IsBounded b e imf c mail_read t h =
    after_read-IsBounded b e imf c 250 report_success t h (λ u g. (u.retry_count, telling none g.0))
resume-IsBounded b e imf c succeeded t h = h
resume-IsBounded b e imf c failed t h = h
resume-IsBounded b e imf c broken_off t h = h

run-IsBounded :
    (b : Boost) (e : Base64) (imf : InternetMailFormat) (cs : List Completion) (s : Session)
    → IsBounded b e imf s
    → IsBounded b e imf (run b e cs s)
unfolding run
run-IsBounded b e imf [] s h = h
run-IsBounded b e imf (c ∷ cs) s h =
    run-IsBounded b e imf cs _ (resume-IsBounded b e imf c s.point s.self h)

fresh :
    (imf : InternetMailFormat) (t : Smtp)
    → t.log ≡ []
    → t.retry_count ≡ 0
    → t.imf ≡ imf
    → Ready imf t
unfolding waits connects reports pauses
fresh imf t l r m =
    (rw (l, r) (record { paused = refl; tried = refl; told = refl; within = omega arith }), m)

retry_count_of : Option Smtp → ℕ
retry_count_of none = 0
retry_count_of (some t) = t.retry_count

log_of : Option Smtp → List Effect
log_of none = []
log_of (some t) = t.log

imf_of : InternetMailFormat → Option Smtp → InternetMailFormat
imf_of imf none = imf
imf_of imf (some t) = t.imf

not_made : {t : Smtp} → some t ≡ none → ⊥
not_made h = cc

sendmail-Ready :
    (b : Boost) (imf : InternetMailFormat) (u t : Smtp)
    → u.log ≡ []
    → sendmail b imf u ≡ some t
    → Ready imf t
unfolding sendmail log_of retry_count_of imf_of
sendmail-Ready b imf u t l h = elim (Option-cases (field (codes "to") (get_header imf))) [
  | inl f ↦ absurd (not_made (sym h ∙ rw (f, sendmail) refl))
  | inr (to, f) ↦
      fresh imf t (sym (ap log_of h) ∙ rw (f, sendmail) l)
        (sym (ap retry_count_of h) ∙ rw (f, sendmail) refl)
        (sym (ap (imf_of imf) h) ∙ rw (f, sendmail) refl)
]

-- A mail that is sent by a new client, whatever the server and the connection do: there are at most
-- 22 connections, and the pauses between them are 30, 40, 50 seconds and so on, at most 21 of them. A
-- run that has ended has called the handler once, unless an exception ended it, which happens only to
-- a mail that cannot be written, as its body is in parts; before its end a run has not called the
-- handler. An error is only reported after all 22 tries.
pub async_sendmail-IsBounded :
    (b : Boost) (e : Base64) (cs : List Completion) (user passwd server : Text)
    (imf : InternetMailFormat) (t : Smtp)
    → sendmail b imf (smtp b e user passwd server imf) ≡ some t
    → IsBounded b e imf (async_sendmail b e cs t)
unfolding async_sendmail wait_at smtp
async_sendmail-IsBounded b e cs user passwd server imf t h =
    run-IsBounded b e imf cs _ (sendmail-Ready b imf (smtp b e user passwd server imf) t refl h)
