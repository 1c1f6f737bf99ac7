-- ===== src/Smtp/Protocol.antt =====
-- The order of an SMTP dialogue as a grammar of the server's answers, and the client's runs against it.
use tianya.Prelude.{ℕ, suc, ◌≡◌, none, some, List, [], ◌∷◌}
use tianya.Text.{Text}
use tianya.Boost.{Boost}
use tianya.Imf.{Base64}
use tianya.Smtp.{Smtp, check_smtp_response}
use tianya.Smtp.Session.{
  Completion, Point, Session, starting, connecting, welcome, ehlo_sent, ehlo_read, tls_sent,
  tls_read, handshaking, auth_sent, auth_read, from_sent, from_read, rcpt_sent, rcpt_read,
  again_sent, again_read, data_sent, data_read, mail_sent, mail_read, succeeded, failed, broken_off,
  receive, resume,
}

-- The codes of the positive answers of a server since the connection, the last in front: how far a
-- dialogue has come by them.
pub data Greeted : List ℕ → Type 0 where
  greeted : Greeted (220 ∷ [])

-- The greeting, and the leave to begin TLS.
pub data Secured : List ℕ → Type 0 where
  secured : {heard : List ℕ} → Greeted heard → Secured (220 ∷ heard)

pub data Opened : List ℕ → Type 0 where
  in_plain : {heard : List ℕ} → Greeted heard → Opened heard
  over_tls : {heard : List ℕ} → Secured heard → Opened heard

pub data LoggedIn : List ℕ → Type 0 where
  logged_in : {heard : List ℕ} → Opened heard → LoggedIn (235 ∷ heard)

-- The sender was taken, and then this many recipients.
pub data Taken : ℕ → List ℕ → Type 0 where
  sender : {heard : List ℕ} → LoggedIn heard → Taken 0 (250 ∷ heard)
  recipient : {n : ℕ} {heard : List ℕ} → Taken n heard → Taken (suc n) (250 ∷ heard)

-- DATA may be sent when one recipient was taken at least.
abbrev pub Ready : List ℕ → Type 0
Ready heard = (n : ℕ) × Taken (suc n) heard

pub data Asked : List ℕ → Type 0 where
  asked : {heard : List ℕ} → Ready heard → Asked (354 ∷ heard)

pub data Delivered : List ℕ → Type 0 where
  delivered : {heard : List ℕ} → Asked heard → Delivered (250 ∷ heard)

-- What the server must have answered for the client to be at a point: before a connection and after
-- the last try, nothing is asked.
abbrev pub Earned : Point → List ℕ → Type 0
Earned starting heard = Unit
Earned connecting heard = Unit
Earned welcome heard = heard ≡ []
Earned ehlo_sent heard = Greeted heard
Earned ehlo_read heard = Greeted heard
Earned tls_sent heard = Greeted heard
Earned tls_read heard = Greeted heard
Earned handshaking heard = Secured heard
Earned auth_sent heard = Opened heard
Earned auth_read heard = Opened heard
Earned from_sent heard = LoggedIn heard
Earned from_read heard = LoggedIn heard
Earned (rcpt_sent op) heard = Taken op.sended_rcpt heard
Earned (rcpt_read op) heard = Taken op.sended_rcpt heard
Earned (again_sent op) heard = Taken op.sended_rcpt heard
Earned (again_read op) heard = Taken op.sended_rcpt heard
Earned data_sent heard = Ready heard
Earned data_read heard = Ready heard
Earned mail_sent heard = Asked heard
Earned mail_read heard = Asked heard
Earned succeeded heard = Delivered heard
Earned failed heard = Unit
Earned broken_off heard = Asked heard

-- An answer that has been read, beside those before: it counts if it has the code.
unfoldable pub hear : Boost → ℕ → Completion → Smtp → List ℕ → List ℕ
unfolding receive
hear b code c t heard = elim c.ec [
  | some e ↦ heard
  | none ↦ elim (check_smtp_response b code (receive c t).readbuf).ec [
    | some e ↦ heard
    | none ↦ code ∷ heard
  ]
]

-- What an observer of the server's answers notes when an operation completes: a new connection begins
-- a new note; an answer is noted by the code that the command before it calls for. The answer to EHLO
-- is a list of what the server can do, and counts for nothing.
unfoldable pub observe : Boost → Completion → Point → Smtp → List ℕ → List ℕ
unfolding hear
observe b c connecting t heard = []
observe b c welcome t heard = hear b 220 c t heard
observe b c tls_read t heard = hear b 220 c t heard
observe b c auth_read t heard = hear b 235 c t heard
observe b c from_read t heard = hear b 250 c t heard
observe b c (rcpt_read op) t heard = hear b 250 c t heard
observe b c (again_read op) t heard = hear b 250 c t heard
observe b c data_read t heard = hear b 354 c t heard
observe b c mail_read t heard = hear b 250 c t heard
observe b c _ t heard = heard

-- The answers over a run.
unfoldable pub answers : Boost → Base64 → List Completion → Session → List ℕ → List ℕ
unfolding observe
answers b e [] s heard = heard
answers b e (c ∷ cs) s heard =
    answers b e cs (resume b e c s.point s.self) (observe b c s.point s.self heard)

abbrev IsEarned : List ℕ → Session → Type 0
IsEarned heard s = Earned s.point heard
