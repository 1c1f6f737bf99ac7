-- ===== src/Smtp.antt =====
-- src/smtpclient/smtp.hpp, src/smtpclient/smtp.cpp: the SMTP client that mails a post. This file has
-- its state, the constructor, and the reader of the server's answers; the children have the coroutine.
pub mod Session
pub mod Tally
pub mod Steps
pub mod Retries
pub mod Stale
pub mod Protocol
pub mod Dialogue
pub mod Reply
pub mod Tests
use tianya.Prelude.{
  ℕ, zero, suc, ◌+◌, pos, Bool, true, false, Option, none, some, List, [], ◌∷◌, ◌++◌, ◌==◌,
  if◌then◌else◌, drop,
}
use tianya.Text.{Text, codes, contains, find_last_of, is_empty, equal}
use tianya.Boost.{Boost, capture}
use tianya.Util.{put_int}
use tianya.Imf.{InternetMailFormat, Base64, get_header, mail_address_split}

pub data ErrorCode : Type 0 where
  protocol_error : ErrorCode
  permission_denied : ErrorCode
  system : ℕ → ErrorCode

-- The sockets are numbered; a TLS stream stands on the socket that there was when it was made.
pub data Channel : Type 0 where
  plain : ℕ → Channel
  secure : ℕ → Channel

-- What the client does to the world: a connection, a write, a TLS handshake, a pause before the next
-- try, and the call of the handler.
pub data Effect : Type 0 where
  connect : Text × Text → Effect
  sent : Channel → Text → Effect
  handshake : ℕ → Effect
  wait : ℕ → Effect
  reported : Option ErrorCode → Effect

pub record Smtp : Type 0 where
  pub mailaddr : Text
  pub mailserver : Text
  pub auth : Text
  pub query : Text × Text
  pub imf : InternetMailFormat
  pub socket : ℕ
  pub sslsocket : Option ℕ
  pub readbuf : Text
  pub writebuf : Text
  pub rcpts : List Text
  pub retry_count : ℕ
  pub log : List Effect

-- The server's name, if none is given: that of the address, or that of QQ.
unfoldable default_mailserver : Text → Text → Text
unfolding is_empty contains find_last_of
default_mailserver user given =
    if is_empty given
    then (if contains (codes "@") user
        then codes "smtp."
          ++ elim (find_last_of (codes "@") user) [ none ↦ user | some i ↦ drop (suc i) user ]
        else codes "smtp.qq.com")
    else given

abbrev server_pattern : Text
server_pattern = codes "(.*):([0-9]+)"

-- The host and the port that are looked up.
unfoldable server_query : Boost → Text → Text × Text
server_query b server = elim (b.regex_search server_pattern server) [
  | none ↦ (server, codes "25")
  | some what ↦ (capture what 1, capture what 2)
]

-- The constructor: the token is "\0user\0passwd".
unfoldable pub smtp : Boost → Base64 → Text → Text → Text → InternetMailFormat → Smtp
unfolding default_mailserver server_query
smtp b e user passwd server imf = record {
  mailaddr = user;
  mailserver = default_mailserver user server;
  auth = e.encode (0 ∷ user ++ 0 ∷ passwd);
  query = server_query b (default_mailserver user server);
  imf = imf;
  socket = 0;
  sslsocket = none;
  readbuf = [];
  writebuf = [];
  rcpts = [];
  retry_count = 0;
  log = [];
}

-- What check_smtp_response finds: the error, the rest of the buffer, and the texts of the lines that
-- it hands to the callback, in order.
pub record Checked : Type 0 where
  pub ec : Option ErrorCode
  pub rest : Text
  pub caps : List Text

abbrev final_pattern : ℕ → Text
final_pattern code = put_int (pos code) ++ codes " (.*)?"

abbrev more_pattern : ℕ → Text
more_pattern code = put_int (pos code) ++ codes "-(.*)?"

-- What one line means: the answer is complete, there is more of it, or it is another answer.
pub data Line : Type 0 where
  final : Text → Line
  more : Text → Line
  blank : Line
  wrong : Line

unfoldable pub read_line : Boost → ℕ → Text → Line
unfolding is_empty
read_line b code line =
    if is_empty line then blank else elim (b.regex_match (final_pattern code) line) [
      | some what ↦ final (capture what 1)
      | none ↦ elim (b.regex_match (more_pattern code) line) [
        | some what ↦ more (capture what 1)
        | none ↦ wrong
      ]
    ]

-- After a line: the loop ends, or goes on with the texts so far.
unfoldable pub after_line : (List Text → Checked) → List Text → Text → Line → Checked
after_line next caps rest (final cap) = record { ec = none; rest = rest; caps = caps ++ cap ∷ [] }
after_line next caps rest (more cap) = next (caps ++ cap ∷ [])
after_line next caps rest blank = next caps
after_line next caps rest wrong = record { ec = some protocol_error; rest = rest; caps = caps }

-- The loop over std::getline, with the characters of the line so far.
unfoldable pub check_lines : Boost → ℕ → List Text → Text → Text → Checked
unfolding read_line after_line
check_lines b code caps line [] =
    after_line (λ caps. record { ec = some protocol_error; rest = []; caps = caps }) caps []
      (read_line b code (b.trim_right line))
check_lines b code caps line (c ∷ cs) =
    let longer = check_lines b code caps (line ++ c ∷ []) cs in
    if c == b'\n'
    then after_line (λ caps. check_lines b code caps [] cs) caps cs
        (read_line b code (b.trim_right line))
    else longer

unfoldable pub check_smtp_response : Boost → ℕ → Text → Checked
unfolding check_lines
check_smtp_response b code buffer = check_lines b code [] [] buffer

unfoldable pub server_cap_handler : Text → Smtp → Smtp
unfolding equal
server_cap_handler cap t =
    if equal cap (codes "STARTTLS") then record t { sslsocket = some (t.socket) } else t

unfoldable pub server_cap_handlers : List Text → Smtp → Smtp
unfolding server_cap_handler
server_cap_handlers [] t = t
server_cap_handlers (cap ∷ caps) t = server_cap_handlers caps (server_cap_handler cap t)

-- The error of check_server_cap is left aside by its caller.
unfoldable pub check_server_cap : Boost → Smtp → Smtp
unfolding check_smtp_response server_cap_handlers
check_server_cap b t =
    let found = check_smtp_response b 250 t.readbuf in
    server_cap_handlers found.caps (record t { readbuf = found.rest })

abbrev pub rcpt_pattern : Text
rcpt_pattern = codes "[A-Za-z0-9\\._\\-]*@[A-Za-z0-9\\._\\-]*"

unfoldable pub find_rcpts : Boost → List Text → List Text
find_rcpts b [] = []
find_rcpts b (mail ∷ mails) = elim (b.regex_search rcpt_pattern mail) [
  | none ↦ find_rcpts b mails
  | some what ↦ capture what 0 ∷ find_rcpts b mails
]

-- header.at, which throws on a field that is not there.
unfoldable pub field : Text → List (Text × Text) → Option Text
unfolding equal
field name [] = none
field name ((key, value) ∷ fields) = if equal key name then some value else field name fields

-- async_sendmail up to the start of the coroutine.
unfoldable pub sendmail : Boost → InternetMailFormat → Smtp → Option Smtp
unfolding field find_rcpts mail_address_split get_header
sendmail b imf t = elim (field (codes "to") (get_header imf)) [
  | none ↦ none
  | some to ↦ some (record t {
    retry_count = 0;
    rcpts = t.rcpts ++ find_rcpts b (mail_address_split b to);
    imf = imf;
    writebuf = [];
  })
]
