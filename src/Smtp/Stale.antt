-- ===== src/Smtp/Stale.antt =====
-- What a failed write leaves in m_writebuf, and where it goes.
use mathlib.Core.List.{append_assoc}
use tianya.Prelude.{
  suc, ◌+◌, ◌*◌, ◌≡◌, refl, ◌∙◌, ap, true, none, some, List, [], ◌∷◌, ◌++◌, leb, drop,
}
use tianya.Text.{Text, codes}
use tianya.Boost.{Boost}
use tianya.Imf.{Base64}
use tianya.Smtp.{ErrorCode, Effect, plain, connect, sent, wait, Smtp, check_smtp_response}
use tianya.Smtp.Session.{
  Completion, Point, Session, starting, welcome, ehlo_sent, tls_sent, auth_sent, from_sent,
  data_sent, mail_sent, wait_at, fail, write_on, consume, receive, after, after_write,
  check_status_for, after_read, begin, ehlo, resume, run,
}

-- The points at which a write of m_writebuf is pending.
pub data IsWriting : Point → Type 0 where
  at_ehlo : IsWriting ehlo_sent
  at_tls : IsWriting tls_sent
  at_auth : IsWriting auth_sent
  at_from : IsWriting from_sent
  at_data : IsWriting data_sent
  at_mail : IsWriting mail_sent

after_fails :
    (c : Completion) (err : ErrorCode) (next : Smtp → Session) (t : Smtp)
    → c.ec ≡ some err
    → after c next t ≡ fail err t
unfolding after
after_fails c err next t h = rw (h, after) refl

consume_fails :
    (c : Completion) (err : ErrorCode) (t : Smtp)
    → c.ec ≡ some err
    → consume c t ≡ record t { writebuf = drop c.transferred t.writebuf }
unfolding consume
consume_fails c err t h = rw (h, consume) refl

after_write_fails :
    (c : Completion) (err : ErrorCode) (p : Point) (t : Smtp)
    → c.ec ≡ some err
    → after_write c p t ≡ fail err (record t { writebuf = drop c.transferred t.writebuf })
unfolding after_write
after_write_fails c err p t h =
    after_fails c err (wait_at p) (consume c t) h ∙ ap (fail err) (consume_fails c err t h)

resume_fails :
    (b : Boost) (e : Base64) (c : Completion) (err : ErrorCode) (p : Point) (t : Smtp)
    → IsWriting p
    → c.ec ≡ some err
    → resume b e c p t ≡ fail err (record t { writebuf = drop c.transferred t.writebuf })
unfolding resume
resume_fails b e c err _ t at_ehlo h = after_write_fails c err _ t h
resume_fails b e c err _ t at_tls h = after_write_fails c err _ t h
resume_fails b e c err _ t at_auth h = after_write_fails c err _ t h
resume_fails b e c err _ t at_from h = after_write_fails c err _ t h
resume_fails b e c err _ t at_data h = after_write_fails c err _ t h
resume_fails b e c err _ t at_mail h = after_write_fails c err _ t h

retries :
    (err : ErrorCode) (t : Smtp)
    → leb t.retry_count 20 ≡ true
    → fail err t
      ≡ wait_at starting (record t {
        retry_count = suc t.retry_count;
        log = t.log ++ wait (suc t.retry_count * 10 + 20) ∷ [];
      })
unfolding fail
retries err t h = rw (h, fail) refl

after_goes_on :
    (c : Completion) (next : Smtp → Session) (t : Smtp) → c.ec ≡ none → after c next t ≡ next t
unfolding after
after_goes_on c next t h = rw (h, after) refl

abbrev ehlo_command : Smtp → Text
ehlo_command t = codes "EHLO " ++ t.mailserver ++ codes "\r\n"

greeted :
    (b : Boost) (t : Smtp)
    → (check_smtp_response b 220 t.readbuf).ec ≡ none
    → (check_status_for b 220 ehlo t).self.log
      ≡ t.log ++ sent (plain t.socket) (t.writebuf ++ ehlo_command t) ∷ []
unfolding check_status_for ehlo write_on wait_at
greeted b t h = rw (h, check_status_for) refl

-- A try from its start to the first command.
opened :
    (b : Boost) (e : Base64) (c1 c2 c3 : Completion) (t : Smtp)
    → c2.ec ≡ none
    → c3.ec ≡ none
    → (check_smtp_response b 220 c3.received).ec ≡ none
    → (run b e (c1 ∷ c2 ∷ c3 ∷ []) (wait_at starting t)).self.log
      ≡ (t.log ++ connect t.query ∷ [])
        ++ sent (plain (suc t.socket)) (t.writebuf ++ ehlo_command t) ∷ []
unfolding run resume wait_at begin after_read receive
opened b e c1 c2 c3 t h2 h3 ok =
    ap (λ s. (resume b e c3 s.point s.self).self.log)
      (after_goes_on c2 (λ u. wait_at welcome (record u { readbuf = [] })) (begin t).self h2)
    ∙ ap (λ s. s.self.log)
        (after_goes_on c3 (check_status_for b 220 ehlo)
          (record ((begin t).self) { readbuf = c3.received }) h3)
    ∙ greeted b (record ((begin t).self) { readbuf = c3.received }) ok

-- The effects of a pause and of the new try up to its first command.
abbrev pub retried : Smtp → Text → List Effect
retried t stale =
    wait (suc t.retry_count * 10 + 20)
    ∷ connect t.query
    ∷ sent (plain (suc t.socket)) (stale ++ ehlo_command t)
    ∷ []

-- When a write of m_writebuf fails and tries are left, the part that was not sent stays in the buffer:
-- after the pause, if the server is reached and greets with 220, the new connection begins with the
-- rest of the old command and not with EHLO.
pub run_resends :
    (b : Boost) (e : Base64) (c c1 c2 c3 : Completion) (err : ErrorCode) (p : Point) (t : Smtp)
    → IsWriting p
    → c.ec ≡ some err
    → leb t.retry_count 20 ≡ true
    → c2.ec ≡ none
    → c3.ec ≡ none
    → (check_smtp_response b 220 c3.received).ec ≡ none
    → (run b e (c ∷ c1 ∷ c2 ∷ c3 ∷ []) (wait_at p t)).self.log
      ≡ t.log ++ retried t (drop c.transferred t.writebuf)
unfolding run wait_at
run_resends b e c c1 c2 c3 err p t w h small h2 h3 ok =
    ap (λ s. (run b e (c1 ∷ c2 ∷ c3 ∷ []) s).self.log)
      (resume_fails b e c err p t w h ∙ retries err _ small)
    ∙ opened b e c1 c2 c3 _ h2 h3 ok
    ∙ append_assoc (t.log ++ _ ∷ []) (_ ∷ []) (_ ∷ [])
    ∙ append_assoc t.log (_ ∷ []) (_ ∷ _ ∷ [])
