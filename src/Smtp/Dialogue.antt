-- ===== src/Smtp/Dialogue.antt =====
-- The client with a server that says yes: the whole dialogue, without TLS.
use mathlib.Core.List.{append-nil, append_assoc, foldl}
use tianya.Prelude.{ℕ, suc, ◌≡◌, refl, sym, ◌∙◌, ap, false, none, some, List, [], ◌∷◌, ◌++◌, All}
use tianya.Text.{Text, codes, equal}
use tianya.Boost.{Boost}
use tianya.Imf.{Base64, mail_data}
use tianya.Smtp.{
  plain, Effect, connect, sent, reported, Smtp, check_smtp_response, server_cap_handler,
  server_cap_handlers, check_server_cap,
}
use tianya.Smtp.Session.{
  Completion, RcptTos, Session, starting, data_sent, mail_sent, succeeded, broken_off, wait_at,
  fail, write_on, async_write, channel, consume, receive, after, after_write, check_status_for,
  after_read, begin, ehlo, login, start_tls, mail_from, finish_rcpts, send_rcpt, send_rcpt_tos,
  rcpt_after, rcpt_checked, send_rcpt_again, send_mail_data, report_success, resume, run,
}

-- What a server answers: the greeting, its answer to EHLO, and its answers to the commands.
pub record Server : Type 0 where
  pub greeting : Text
  pub hello : Text
  pub login : Text
  pub ok : Text
  pub go : Text

-- The answer is one that is taken, and nothing is left of it.
abbrev pub IsTaken : Boost → ℕ → Text → Type 0
IsTaken b code s =
    (caps : List Text) × (check_smtp_response b code s
      ≡ record { ec = none; rest = []; caps = caps })

-- The server greets, offers no TLS, and agrees to everything.
pub record IsWilling (b : Boost) (s : Server) : Type 0 where
  pub greets : IsTaken b 220 s.greeting
  pub caps : List Text
  pub says_hello : check_smtp_response b 250 s.hello ≡ record { ec = none; rest = []; caps = caps }
  pub no_tls : All (λ c. equal c (codes "STARTTLS") ≡ false) caps
  pub lets_in : IsTaken b 235 s.login
  pub agrees : IsTaken b 250 s.ok
  pub says_go : IsTaken b 354 s.go

abbrev pub done : Completion
done = record { ec = none; transferred = 0; received = [] }

abbrev pub got : Text → Completion
got s = record { ec = none; transferred = 0; received = s }

-- The completions of one recipient after the other.
abbrev pub for_rcpts : Server → List Text → List Completion → List Completion
for_rcpts s [] rest = rest
for_rcpts s (r ∷ rs) rest = done ∷ got s.ok ∷ for_rcpts s rs rest

-- The completions of a whole run.
abbrev pub answers_to : Server → List Text → List Completion
answers_to s rcpts =
    done
    ∷ done
    ∷ got s.greeting
    ∷ done
    ∷ got s.hello
    ∷ done
    ∷ got s.login
    ∷ done
    ∷ got s.ok
    ∷ for_rcpts s rcpts (done ∷ got s.go ∷ done ∷ got s.ok ∷ [])

-- What is said to the server on socket n.
abbrev pub rcpt_commands : ℕ → List Text → List Effect
rcpt_commands n [] = []
rcpt_commands n (r ∷ rs) =
    sent (plain n) (codes "rcpt to: " ++ r ++ codes "\r\n") ∷ rcpt_commands n rs

abbrev pub opening : Smtp → List Effect
opening t =
    connect t.query
    ∷ sent (plain (suc t.socket)) (codes "EHLO " ++ t.mailserver ++ codes "\r\n")
    ∷ sent (plain (suc t.socket)) (codes "AUTH PLAIN " ++ t.auth ++ codes "\r\n")
    ∷ sent (plain (suc t.socket)) (codes "MAIL FROM: <" ++ t.mailaddr ++ codes ">\r\n")
    ∷ []

abbrev pub closing : ℕ → Text → List Effect
closing n mail =
    sent (plain n) (codes "DATA\r\n")
    ∷ sent (plain n) (mail ++ codes "\r\n.\r\n")
    ∷ reported none
    ∷ []

abbrev pub dialogue : Smtp → List Text → Text → List Effect
dialogue t rcpts mail =
    opening t ++ rcpt_commands (suc t.socket) rcpts ++ closing (suc t.socket) mail

-- The client in its dialogue: on a new socket, without TLS, with empty buffers, and with a log.
abbrev pub talking : Smtp → List Text → List Effect → Smtp
talking t rcpts log = record t {
  socket = suc t.socket;
  sslsocket = none;
  readbuf = [];
  writebuf = [];
  rcpts = rcpts;
  log = log;
}

abbrev say : List Effect → Effect → List Effect
say log e = log ++ e ∷ []

check_status_for_taken :
    (b : Boost) (code : ℕ) (next : Smtp → Session) (t : Smtp)
    → IsTaken b code t.readbuf
    → check_status_for b code next t ≡ next (record t { readbuf = [] })
unfolding check_status_for
check_status_for_taken b code next t (caps, h) =
    ap
      (λ found. elim found.ec [
        | none ↦ next (record t { readbuf = found.rest })
        | some e ↦ fail e (record t { readbuf = found.rest })
      ])
      h

server_cap_handlers_none :
    (caps : List Text) (t : Smtp)
    → All (λ c. equal c (codes "STARTTLS") ≡ false) caps
    → server_cap_handlers caps t ≡ t
unfolding server_cap_handlers server_cap_handler
server_cap_handlers_none [] t h = refl
server_cap_handlers_none (c ∷ caps) t (h, hs) =
    rw (h, server_cap_handler) (server_cap_handlers_none caps t hs)

check_server_cap_plain :
    (b : Boost) (s : Server) (t : Smtp)
    → IsWilling b s
    → t.readbuf ≡ s.hello
    → check_server_cap b t ≡ record t { readbuf = [] }
unfolding check_server_cap
check_server_cap_plain b s t w e =
    ap (λ found. server_cap_handlers found.caps (record t { readbuf = found.rest }))
      (ap (check_smtp_response b 250) e ∙ w.says_hello)
    ∙ server_cap_handlers_none w.caps (record t { readbuf = [] }) w.no_tls

rcpt_checked_taken :
    (b : Boost) (op : RcptTos) (next : Smtp → Session) (t : Smtp)
    → IsTaken b 250 t.readbuf
    → rcpt_checked b op next t
      ≡ send_rcpt_tos op.later (suc op.sended_rcpt) (record t { readbuf = [] })
unfolding rcpt_checked
rcpt_checked_taken b op next t (caps, h) =
    ap
      (λ found. elim found.ec [
        | none ↦ send_rcpt_tos op.later (suc op.sended_rcpt) (record t { readbuf = found.rest })
        | some e ↦ next (record t { readbuf = found.rest })
      ])
      h

-- The recipients taken, with those of before.
abbrev taken : ℕ → List Text → ℕ
taken n [] = n
taken n (r ∷ rs) = taken (suc n) rs

abbrev at_rcpt : Text → List Text → ℕ → RcptTos
at_rcpt r rs n = record { current = r; later = rs; sended_rcpt = n }

rcpts_run :
    (b : Boost) (e : Base64) (s : Server) (t : Smtp) (all : List Text)
    → IsWilling b s
    → (rs : List Text) (n : ℕ) (log : List Effect) (rest : List Completion)
    → run b e (for_rcpts s rs rest) (send_rcpt_tos rs n (talking t all log))
      ≡ run b e rest (
          finish_rcpts
            (taken n rs)
            (talking t all (foldl say log (rcpt_commands (suc t.socket) rs))))
unfolding run resume send_rcpt_tos send_rcpt rcpt_after receive wait_at channel
rcpts_run b e s t all w [] n log rest = refl
rcpts_run b e s t all w (r ∷ rs) n log rest =
    let l = say log (sent (plain (suc t.socket)) (codes "rcpt to: " ++ r ++ codes "\r\n")) in
    ap (run b e (for_rcpts s rs rest)) (
      rcpt_checked_taken b (at_rcpt r rs n) (send_rcpt_again (at_rcpt r rs n))
        (record (talking t all l) { readbuf = s.ok }) w.agrees)
    ∙ rcpts_run b e s t all w rs (suc n) l rest

finish_rcpts_taken :
    (rs : List Text) (n : ℕ) (t : Smtp)
    → finish_rcpts (taken (suc n) rs) t ≡ async_write data_sent (codes "DATA\r\n") t
unfolding finish_rcpts
finish_rcpts_taken [] n t = refl
finish_rcpts_taken (r ∷ rs) n t = finish_rcpts_taken rs (suc n) t

foldl-say : (xs log : List Effect) → foldl say log xs ≡ log ++ xs
foldl-say [] log = sym (append-nil log)
foldl-say (x ∷ xs) log = foldl-say xs (say log x) ∙ append_assoc log (x ∷ []) xs

said :
    (log a b c : List Effect) → foldl say (foldl say (foldl say log a) b) c ≡ log ++ (a ++ b ++ c)
said log a b c =
    foldl-say c _
    ∙ ap (λ l. l ++ c) (foldl-say b _ ∙ ap (λ l. l ++ b) (foldl-say a log))
    ∙ append_assoc (log ++ a) b c
    ∙ append_assoc log a (b ++ c)
    ∙ ap (λ l. log ++ l) (sym (append_assoc a b c))

-- From the connection to the first recipient.
run-opening :
    (b : Boost) (e : Base64) (s : Server) (t : Smtp) (rcpts : List Text) (rest : List Completion)
    → IsWilling b s
    → run b e
        (done
          ∷ done
          ∷ got s.greeting
          ∷ done
          ∷ got s.hello
          ∷ done
          ∷ got s.login
          ∷ done
          ∷ got s.ok
          ∷ rest)
        (wait_at starting (record t { sslsocket = none; writebuf = []; rcpts = rcpts }))
      ≡ run b e rest (send_rcpt_tos rcpts 0 (talking t rcpts (foldl say t.log (opening t))))
unfolding run resume begin after_read after_write after consume receive ehlo login start_tls
    mail_from async_write write_on wait_at channel
run-opening b e s t rcpts rest w =
    let n = suc t.socket in
    let l1 = say t.log (connect t.query) in
    let l2 = say l1 (sent (plain n) (codes "EHLO " ++ t.mailserver ++ codes "\r\n")) in
    let l3 = say l2 (sent (plain n) (codes "AUTH PLAIN " ++ t.auth ++ codes "\r\n")) in
    let l4 = say l3 (sent (plain n) (codes "MAIL FROM: <" ++ t.mailaddr ++ codes ">\r\n")) in
    ap (run b e (done ∷ got s.hello ∷ done ∷ got s.login ∷ done ∷ got s.ok ∷ rest)) (
      check_status_for_taken b 220 ehlo (record (talking t rcpts l1) { readbuf = s.greeting })
        w.greets)
    ∙ ap (λ u. run b e (done ∷ got s.login ∷ done ∷ got s.ok ∷ rest) (start_tls u))
        (check_server_cap_plain b s (record (talking t rcpts l2) { readbuf = s.hello }) w refl)
    ∙ ap (run b e (done ∷ got s.ok ∷ rest)) (
        check_status_for_taken b 235 mail_from (record (talking t rcpts l3) { readbuf = s.login })
          w.lets_in)
    ∙ ap (run b e rest) (
        check_status_for_taken b 250 (λ u. send_rcpt_tos u.rcpts 0 u)
          (record (talking t rcpts l4) { readbuf = s.ok }) w.agrees)

-- From DATA to the report.
run-closing :
    (b : Boost) (e : Base64) (s : Server) (t : Smtp) (rcpts : List Text) (mail : Text)
    (log : List Effect)
    → IsWilling b s
    → mail_data b e t.imf ≡ some mail
    → run b e
        (done ∷ got s.go ∷ done ∷ got s.ok ∷ [])
        (async_write data_sent (codes "DATA\r\n") (talking t rcpts log))
      ≡ wait_at succeeded (talking t rcpts (foldl say log (closing (suc t.socket) mail)))
unfolding run resume after_read after_write after consume receive send_mail_data report_success
    async_write write_on wait_at channel
run-closing b e s t rcpts mail log w m =
    let n = suc t.socket in
    let l1 = say log (sent (plain n) (codes "DATA\r\n")) in
    let l2 = say l1 (sent (plain n) (mail ++ codes "\r\n.\r\n")) in
    ap (run b e (done ∷ got s.ok ∷ [])) (
      check_status_for_taken b 354 (send_mail_data b e)
        (record (talking t rcpts l1) { readbuf = s.go }) w.says_go)
    ∙ ap
        (λ o. run b e (done ∷ got s.ok ∷ []) (elim o [
          | none ↦ wait_at broken_off (talking t rcpts l1)
          | some mail ↦ async_write mail_sent (mail ++ codes "\r\n.\r\n") (talking t rcpts l1)
        ]))
        m
    ∙ check_status_for_taken b 250 report_success (record (talking t rcpts l2) { readbuf = s.ok })
        w.agrees

-- With a server that takes every command and offers no TLS, a mail with at least one recipient goes
-- through in one try: the client says exactly what the protocol wants, each recipient once and in
-- order, then the mail, and reports success.
pub run_succeeds :
    (b : Boost) (e : Base64) (s : Server) (t : Smtp) (r : Text) (rs : List Text) (mail : Text)
    → IsWilling b s
    → mail_data b e t.imf ≡ some mail
    → run b e
        (answers_to s (r ∷ rs))
        (wait_at starting (record t { sslsocket = none; writebuf = []; rcpts = r ∷ rs }))
      ≡ wait_at succeeded (talking t (r ∷ rs) (t.log ++ dialogue t (r ∷ rs) mail))
run_succeeds b e s t r rs mail w m =
    let n = suc t.socket in
    let close = done ∷ got s.go ∷ done ∷ got s.ok ∷ [] in
    let opened = foldl say t.log (opening t) in
    let told = foldl say opened (rcpt_commands n (r ∷ rs)) in
    run-opening b e s t (r ∷ rs) (for_rcpts s (r ∷ rs) close) w
    ∙ rcpts_run b e s t (r ∷ rs) w (r ∷ rs) 0 opened close
    ∙ ap (run b e close) (finish_rcpts_taken rs 0 (talking t (r ∷ rs) told))
    ∙ run-closing b e s t (r ∷ rs) mail told w m
    ∙ ap (λ l. wait_at succeeded (talking t (r ∷ rs) l))
        (said t.log (opening t) (rcpt_commands n (r ∷ rs)) (closing n mail))
