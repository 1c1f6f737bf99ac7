-- ===== src/Smtp/Session.antt =====
-- smtp::operator() and send_rcpt_tos_op as a state machine: each point at which the coroutines wait,
-- and what they do when the pending operation completes.
use tianya.Prelude.{
  ℕ, zero, suc, ◌+◌, ◌*◌, Option, none, some, List, [], ◌∷◌, ◌++◌, leb, if◌then◌else◌, drop,
}
use tianya.Text.{Text, codes}
use tianya.Boost.{Boost}
use tianya.Imf.{Base64, mail_data}
use tianya.Smtp.{
  ErrorCode, permission_denied, Channel, plain, secure, connect, sent, handshake, wait, reported,
  Smtp, check_smtp_response, check_server_cap,
}

-- How a pending operation completes: with an error or not, the characters of the buffer that a write
-- sent before its error, and the characters that a read took in.
pub record Completion : Type 0 where
  pub ec : Option ErrorCode
  pub transferred : ℕ
  pub received : Text

-- The loop of send_rcpt_tos_op: the address under way, those after it, and how many were taken.
pub record RcptTos : Type 0 where
  pub current : Text
  pub later : List Text
  pub sended_rcpt : ℕ

pub data Point : Type 0 where
  starting : Point
  connecting : Point
  welcome : Point
  ehlo_sent : Point
  ehlo_read : Point
  tls_sent : Point
  tls_read : Point
  handshaking : Point
  auth_sent : Point
  auth_read : Point
  from_sent : Point
  from_read : Point
  rcpt_sent : RcptTos → Point
  rcpt_read : RcptTos → Point
  again_sent : RcptTos → Point
  again_read : RcptTos → Point
  data_sent : Point
  data_read : Point
  mail_sent : Point
  mail_read : Point
  succeeded : Point
  failed : Point
  broken_off : Point

pub record Session : Type 0 where
  pub self : Smtp
  pub point : Point

unfoldable pub wait_at : Point → Smtp → Session
wait_at p t = record { self = t; point = p }

-- An error anywhere: another try after a pause, or the report.
unfoldable pub fail : ErrorCode → Smtp → Session
unfolding wait_at
fail e t =
    if leb t.retry_count 20
    then wait_at starting (record t {
      retry_count = suc t.retry_count;
      log = t.log ++ wait (suc t.retry_count * 10 + 20) ∷ [];
    })
    else wait_at failed
        (record t { retry_count = suc t.retry_count; log = t.log ++ reported (some e) ∷ [] })

unfoldable pub channel : Smtp → Channel
channel t = elim t.sslsocket [ none ↦ plain t.socket | some n ↦ secure n ]

-- A command goes behind what is left in m_writebuf, and all of it is written.
unfoldable pub write_on : Channel → Point → Text → Smtp → Session
unfolding wait_at
write_on c p command t = wait_at p (record t {
  writebuf = t.writebuf ++ command;
  log = t.log ++ sent c (t.writebuf ++ command) ∷ [];
})

-- async_write of the class: over TLS once there is a stream for it.
unfoldable pub async_write : Point → Text → Smtp → Session
unfolding write_on channel
async_write p command t = write_on (channel t) p command t

-- A write takes what it sent out of m_writebuf.
unfoldable pub consume : Completion → Smtp → Smtp
consume c t = record t {
  writebuf = elim c.ec [ none ↦ [] | some e ↦ drop c.transferred t.writebuf ];
}

unfoldable pub receive : Completion → Smtp → Smtp
receive c t = record t { readbuf = t.readbuf ++ c.received }

unfoldable pub after : Completion → (Smtp → Session) → Smtp → Session
unfolding fail
after c next t = elim c.ec [ none ↦ next t | some e ↦ fail e t ]

unfoldable pub after_write : Completion → Point → Smtp → Session
unfolding after consume wait_at
after_write c p t = after c (wait_at p) (consume c t)

-- check_status_for, check_wellcome_msg and check_login_status, with what follows.
unfoldable pub check_status_for : Boost → ℕ → (Smtp → Session) → Smtp → Session
unfolding check_smtp_response fail
check_status_for b code next t =
    let found = check_smtp_response b code t.readbuf in
    let u = record t { readbuf = found.rest } in elim found.ec [ none ↦ next u | some e ↦ fail e u ]

unfoldable pub after_read : Boost → Completion → ℕ → (Smtp → Session) → Smtp → Session
unfolding after receive check_status_for
after_read b c code next t = after c (check_status_for b code next) (receive c t)

unfoldable pub begin : Smtp → Session
unfolding wait_at
begin t =
    wait_at connecting (record t { socket = suc t.socket; log = t.log ++ connect t.query ∷ [] })

unfoldable pub ehlo : Smtp → Session
unfolding write_on
ehlo t = write_on (plain t.socket) ehlo_sent (codes "EHLO " ++ t.mailserver ++ codes "\r\n") t

unfoldable pub login : Smtp → Session
unfolding async_write
login t = async_write auth_sent (codes "AUTH PLAIN " ++ t.auth ++ codes "\r\n") t

-- STARTTLS, if there is a TLS stream.
unfoldable pub start_tls : Smtp → Session
unfolding write_on login
start_tls t = elim t.sslsocket [
  | none ↦ login t
  | some n ↦ write_on (plain t.socket) tls_sent (codes "STARTTLS\r\n") t
]

unfoldable pub async_handshake : Smtp → Session
unfolding wait_at
async_handshake t =
    wait_at handshaking
      (elim t.sslsocket [ none ↦ t | some n ↦ record t { log = t.log ++ handshake n ∷ [] } ])

unfoldable pub mail_from : Smtp → Session
unfolding async_write
mail_from t = async_write from_sent (codes "MAIL FROM: <" ++ t.mailaddr ++ codes ">\r\n") t

-- The end of send_rcpt_tos_op: an error only if no address was taken.
unfoldable pub finish_rcpts : ℕ → Smtp → Session
unfolding fail async_write
finish_rcpts zero t = fail permission_denied t
finish_rcpts (suc n) t = async_write data_sent (codes "DATA\r\n") t

-- Its own m_writebuf is empty whenever it writes: a write that fails ends it.
unfoldable pub send_rcpt : Point → Text → Smtp → Session
unfolding wait_at channel
send_rcpt p command t = wait_at p (record t { log = t.log ++ sent (channel t) command ∷ [] })

unfoldable pub send_rcpt_tos : List Text → ℕ → Smtp → Session
unfolding send_rcpt finish_rcpts
send_rcpt_tos [] n t = finish_rcpts n t
send_rcpt_tos (rcpt ∷ rcpts) n t =
    send_rcpt (rcpt_sent (record { current = rcpt; later = rcpts; sended_rcpt = n }))
      (codes "rcpt to: " ++ rcpt ++ codes "\r\n") t

unfoldable pub send_rcpt_again : RcptTos → Smtp → Session
unfolding send_rcpt
send_rcpt_again op t =
    send_rcpt (again_sent op) (codes "rcpt to: <" ++ op.current ++ codes ">\r\n") t

-- An error of the connection leaves the loop.
unfoldable pub rcpt_after : Completion → RcptTos → (Smtp → Session) → Smtp → Session
unfolding finish_rcpts
rcpt_after c op next t = elim c.ec [ none ↦ next t | some e ↦ finish_rcpts op.sended_rcpt t ]

-- An answer is checked: 250 counts, and another one leads to the second form or the next address.
unfoldable pub rcpt_checked : Boost → RcptTos → (Smtp → Session) → Smtp → Session
unfolding check_smtp_response send_rcpt_tos
rcpt_checked b op otherwise t =
    let found = check_smtp_response b 250 t.readbuf in
    let u = record t { readbuf = found.rest } in
    elim found.ec [ none ↦ send_rcpt_tos op.later (suc op.sended_rcpt) u | some e ↦ otherwise u ]

-- send_mail_data: an exception ends the run.
unfoldable pub send_mail_data : Boost → Base64 → Smtp → Session
unfolding mail_data async_write wait_at
send_mail_data b e t = elim (mail_data b e t.imf) [
  | none ↦ wait_at broken_off t
  | some mail ↦ async_write mail_sent (mail ++ codes "\r\n.\r\n") t
]

unfoldable pub report_success : Smtp → Session
unfolding wait_at
report_success t = wait_at succeeded (record t { log = t.log ++ reported none ∷ [] })

unfoldable pub resume : Boost → Base64 → Completion → Point → Smtp → Session
unfolding wait_at begin after after_read after_write consume receive ehlo login start_tls
    async_handshake mail_from send_rcpt_tos send_rcpt_again rcpt_after rcpt_checked send_mail_data
    report_success check_server_cap
resume b e c starting t = begin t
resume b e c connecting t = after c (λ u. wait_at welcome (record u { readbuf = [] })) t
resume b e c welcome t = after_read b c 220 ehlo t
resume b e c ehlo_sent t = after_write c ehlo_read t
resume b e c ehlo_read t = after c (λ u. start_tls (check_server_cap b u)) (receive c t)
resume b e c tls_sent t = after_write c tls_read t
resume b e c tls_read t = after_read b c 220 async_handshake t
resume b e c handshaking t = after c login t
resume b e c auth_sent t = after_write c auth_read t
resume b e c auth_read t = after_read b c 235 mail_from t
resume b e c from_sent t = after_write c from_read t
resume b e c from_read t = after_read b c 250 (λ u. send_rcpt_tos u.rcpts 0 u) t
resume b e c (rcpt_sent op) t = rcpt_after c op (wait_at (rcpt_read op)) t
resume b e c (rcpt_read op) t =
    rcpt_after c op (rcpt_checked b op (send_rcpt_again op)) (receive c t)
resume b e c (again_sent op) t = rcpt_after c op (wait_at (again_read op)) t
resume b e c (again_read op) t =
    rcpt_after c op (rcpt_checked b op (send_rcpt_tos op.later op.sended_rcpt)) (receive c t)
resume b e c data_sent t = after_write c data_read t
resume b e c data_read t = after_read b c 354 (send_mail_data b e) t
resume b e c mail_sent t = after_write c mail_read t
resume b e c mail_read t = after_read b c 250 report_success t
resume b e c succeeded t = wait_at succeeded t
resume b e c failed t = wait_at failed t
resume b e c broken_off t = wait_at broken_off t

unfoldable pub run : Boost → Base64 → List Completion → Session → Session
unfolding resume
run b e [] s = s
run b e (c ∷ cs) s = run b e cs (resume b e c s.point s.self)

-- async_sendmail: the coroutine is started, and what is completed drives it.
unfoldable pub async_sendmail : Boost → Base64 → List Completion → Smtp → Session
unfolding run wait_at
async_sendmail b e cs t = run b e cs (wait_at starting t)
