-- ===== src/Smtp/Tests.antt =====
-- The SMTP client on a concrete server: a stand-in for the regular expressions of the answers, and
-- the answers of a run.
use tianya.Prelude.{
  ◌++◌, ℕ, ◌-◌, ◌≤◌, ◌≡◌, refl, false, Option, none, some, List, [], ◌∷◌, arith, if◌then◌else◌,
  length, take, drop,
}
use tianya.Text.Find.{IsFree}
use tianya.Text.{mem_char, Text, codes, starts_with, equal}
use tianya.Boost.{Boost}
use tianya.Util.{put_int}
use tianya.Sample.{plain}
use tianya.Imf.{
  InternetMailFormat, mail_data, internet_mail_format, text, Base64, checked_newline_append,
}
use tianya.Imf.Lines.{column, column-checked_newline_append}
use tianya.Smtp.{
  protocol_error, system, Smtp, smtp, read_line, more, final, wrong, sendmail, check_smtp_response,
  rcpt_pattern,
}
use tianya.Smtp.Session.{Completion, starting, auth_sent, succeeded, wait_at, run, async_sendmail}
use tianya.Smtp.Reply.{IsMore, check_smtp_response_accepts, check_smtp_response_refuses}
use tianya.Smtp.Dialogue.{Server, IsWilling, talking, dialogue, answers_to, run_succeeds}
use tianya.Smtp.Protocol
use tianya.Smtp.Tally.{reports, IsBounded}
use tianya.Smtp.Retries.{async_sendmail-IsBounded}
use tianya.Smtp.Stale.{at_auth, retried, run_resends}

-- A pattern that ends in "(.*)?" matches the texts that begin as it does; a mail address is a text
-- that is one; a server has no port.
abbrev match_prefix : Text → Text → Option (List Text)
match_prefix pattern s =
    let head = take (length pattern - 5) pattern in
    if starts_with head s then some (s ∷ drop (length head) s ∷ []) else none

abbrev pub server : Boost
server = record plain {
  regex_match = match_prefix;
  regex_search = λ pattern s. if equal pattern rcpt_pattern then some (s ∷ []) else none;
}

abbrev pub same_text : Base64
same_text = record { encode = λ s. s; encode_lines = λ n s. s; decode = λ s. s }

abbrev mail : InternetMailFormat
mail = internet_mail_format ((codes "to", codes "a@b") ∷ []) false (text (codes "hi")) none

abbrev ok : Text → Completion
ok s = record { ec = none; transferred = 0; received = s }

abbrev broken : ℕ → Completion
broken n = record { ec = some (system 32); transferred = n; received = [] }

abbrev client : Smtp
client = smtp server same_text (codes "me@b") (codes "pw") [] mail

abbrev ready : Smtp
ready = record client { rcpts = codes "a@b" ∷ [] }

-- A whole run: the greeting, EHLO, AUTH, MAIL FROM, one address in its second form, DATA, the mail.
abbrev answers : List Completion
answers =
    ok []
    ∷ ok []
    ∷ ok (codes "220 hi\n")
    ∷ ok []
    ∷ ok (codes "250-b\n250 SIZE\n")
    ∷ ok []
    ∷ ok (codes "235 ok\n")
    ∷ ok []
    ∷ ok (codes "250 ok\n")
    ∷ ok []
    ∷ ok (codes "501 no\n")
    ∷ ok []
    ∷ ok (codes "250 ok\n")
    ∷ ok []
    ∷ ok (codes "354 go\n")
    ∷ ok []
    ∷ ok (codes "250 ok\n")
    ∷ []

begun : sendmail server mail client ≡ some ready
unfolding sendmail smtp
begun = refl

answered : (async_sendmail server same_text answers ready).point ≡ succeeded
unfolding async_sendmail starts_with put_int smtp
answered = refl

reported_once : reports (async_sendmail server same_text answers ready).self.log ≡ none ∷ []
unfolding async_sendmail reports starts_with put_int smtp
reported_once = refl

async_sendmail-IsBounded_example :
    IsBounded server same_text mail (async_sendmail server same_text answers ready)
async_sendmail-IsBounded_example =
    async_sendmail-IsBounded server same_text answers (codes "me@b") (codes "pw") [] mail ready
      begun

abbrev busy : Smtp
busy = record ready { socket = 1; writebuf = codes "AUTH PLAIN x\r\n"; retry_count = 20 }

greeting : (check_smtp_response server 220 (codes "220 hi\n")).ec ≡ none
unfolding check_smtp_response starts_with put_int
greeting = refl

run_resends_example :
    (run server same_text
      (broken 5 ∷ ok [] ∷ ok [] ∷ ok (codes "220 hi\n") ∷ [])
      (wait_at auth_sent busy)).self.log
    ≡ retried busy (codes "PLAIN x\r\n")
unfolding smtp
run_resends_example =
    run_resends server same_text (broken 5) (ok []) (ok []) (ok (codes "220 hi\n")) (system 32)
      auth_sent busy at_auth refl refl refl refl greeting

abc-IsFree : IsFree (codes "\r\n") (codes "abc")
unfolding mem_char
abc-IsFree = (refl, (refl, (refl, tt)))

column-checked_newline_append_example :
    column 0 (checked_newline_append (codes "subject: ") (codes "abc")) ≤ 78
column-checked_newline_append_example =
    column-checked_newline_append (codes "subject: ") (codes "abc") abc-IsFree (omega arith)
      (omega arith)

more_line : read_line server 250 (codes "250-b") ≡ more (codes "b")
unfolding read_line starts_with put_int
more_line = refl

final_line : read_line server 250 (codes "250 SIZE") ≡ final (codes "SIZE")
unfolding read_line starts_with put_int
final_line = refl

wrong_line : read_line server 250 (codes "501 no") ≡ wrong
unfolding read_line starts_with put_int
wrong_line = refl

capability-IsMore : IsMore server 250 (codes "250-b", codes "b")
capability-IsMore = ((refl, (refl, (refl, (refl, (refl, tt))))), more_line)

check_smtp_response_accepts_example :
    check_smtp_response server 250 (codes "250-b\n250 SIZE\nrest")
    ≡ record { ec = none; rest = codes "rest"; caps = codes "b" ∷ codes "SIZE" ∷ [] }
check_smtp_response_accepts_example =
    check_smtp_response_accepts server 250 ((codes "250-b", codes "b") ∷ []) (codes "250 SIZE")
      (codes "SIZE") (codes "rest") (capability-IsMore, tt)
      (refl, (refl, (refl, (refl, (refl, (refl, (refl, (refl, tt)))))))) final_line

check_smtp_response_refuses_test :
    check_smtp_response server 250 (codes "250-b\n501 no\n")
    ≡ record { ec = some protocol_error; rest = []; caps = codes "b" ∷ [] }
check_smtp_response_refuses_test =
    check_smtp_response_refuses server 250 ((codes "250-b", codes "b") ∷ []) (codes "501 no") []
      (capability-IsMore, tt) (refl, (refl, (refl, (refl, (refl, (refl, tt)))))) wrong_line

abbrev pub friendly : Server
friendly = record {
  greeting = codes "220 hi\n";
  hello = codes "250-b\n250 SIZE\n";
  login = codes "235 in\n";
  ok = codes "250 ok\n";
  go = codes "354 go\n";
}

pub friendly-IsWilling : IsWilling server friendly
unfolding check_smtp_response starts_with put_int equal
friendly-IsWilling = record {
  greets = (codes "hi" ∷ [], refl);
  caps = codes "b" ∷ codes "SIZE" ∷ [];
  says_hello = refl;
  no_tls = (refl, (refl, tt));
  lets_in = (codes "in" ∷ [], refl);
  agrees = (codes "ok" ∷ [], refl);
  says_go = (codes "go" ∷ [], refl);
}

abbrev written_mail : Text
written_mail = codes "to: a@b; \r\ncontent-transfer-encoding: base64\r\n\r\nhi"

mail_text : mail_data server same_text ready.imf ≡ some written_mail
unfolding mail_data equal smtp
mail_text = refl

run_succeeds_example :
    run server same_text (answers_to friendly (codes "a@b" ∷ [])) (
      wait_at starting (record ready { sslsocket = none; writebuf = []; rcpts = codes "a@b" ∷ [] }))
    ≡ wait_at succeeded (
        talking ready
          (codes "a@b" ∷ [])
          (ready.log ++ dialogue ready (codes "a@b" ∷ []) written_mail))
unfolding smtp
run_succeeds_example =
    run_succeeds server same_text friendly ready (codes "a@b") [] written_mail friendly-IsWilling
      mail_text
