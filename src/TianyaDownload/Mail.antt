-- ===== src/TianyaDownload/Mail.antt =====
-- tianya_download::start_send_mail and its callers: the mail that is built from a download and the
-- settings, and what a server is told.
use mathlib.Core.Path.{subst}
use tianya.Prelude.{◌≡◌, refl, ◌∙◌, ap, false, Option, none, some, List, [], ◌∷◌, ◌++◌}
use tianya.Text.{Text, codes, equal}
use tianya.Boost.{Boost}
use tianya.Qt.{Qt, QtLaws}
use tianya.Imf.{
  InternetMailFormat, internet_mail_format, text, Base64, get_header, mail_address_split, mail_data,
}
use tianya.TianyaContext.Machine.{TianyaContext}
use tianya.TianyaContext.Session.{serialize}
use tianya.KindleSettings.{
  KindleSettingDialog, kindlemail_key, usermail_key, passwd_key, open_dialog, kindle_settings,
  open_dialog-kindle_settings,
}
use tianya.Smtp.{Smtp, smtp, find_rcpts, field, sendmail}
use tianya.Smtp.Session.{wait_at, succeeded, async_sendmail}
use tianya.Smtp.Dialogue.{Server, IsWilling, answers_to, talking, dialogue, run_succeeds}

-- A mail that nothing has been set in.
abbrev pub no_mail : InternetMailFormat
no_mail = internet_mail_format [] false (text []) none

-- The recipient that both callers pass on.
unfoldable pub mail_rcpt : (q : Qt) → q.Settings → Text
mail_rcpt q s = q.value s kindlemail_key

-- The MIME message, with the posts as a text file under the title.
unfoldable pub message : (q : Qt) → Boost → q.Settings → TianyaContext → Text → Text → Text
unfolding serialize
message q b s c title rcpt =
    q.mime_message (q.value s usermail_key) rcpt (codes "Convert") (title ++ codes ".txt")
      (serialize b c.posts)

unfoldable pub imf_of :
    (q : Qt) → Boost → q.Settings → TianyaContext → Text → Text → InternetMailFormat
unfolding message
imf_of q b s c title rcpt =
    internet_mail_format
      ((codes "from", q.to_std_string (q.value s usermail_key))
        ∷ (codes "to", q.to_std_string rcpt)
        ∷ (codes "subject", codes "Convert")
        ∷ [])
      false (text []) (some (q.to_std_string (message q b s c title rcpt)))

unfoldable pub client_of : (q : Qt) → Boost → Base64 → q.Settings → Smtp
unfolding smtp
client_of q b e s =
    smtp b e (q.to_std_string (q.value s usermail_key)) (q.to_std_string (q.value s passwd_key)) []
      no_mail

-- The client as it is when its coroutine is started, for the posts of a download and a list_info's
-- title.
unfoldable pub start_send_mail :
    (q : Qt) → Boost → Base64 → q.Settings → TianyaContext → Text → Text → Option Smtp
unfolding client_of imf_of sendmail
start_send_mail q b e s c title rcpt = sendmail b (imf_of q b s c title rcpt) (client_of q b e s)

module _ (q : Qt) (b : Boost) (e : Base64) (srv : Server) (c : TianyaContext) (title : Text) where
  -- What the server is told of the mail: the message with the posts.
  abbrev pub message_of : KindleSettingDialog → Text
  message_of d = q.to_std_string (
      q.mime_message d.usermail d.kindlemail (codes "Convert") (title ++ codes ".txt")
        (serialize b c.posts))

  -- With these settings a client is made that logs in as the user of a dialog, and that mails the posts
  -- to the recipients r and rs in one try.
  pub record Mails (s : q.Settings) (r : Text) (rs : List Text) (d : KindleSettingDialog)
      : Type 0 where
    pub client : Smtp
    pub made : start_send_mail q b e s c title (mail_rcpt q s) ≡ some client
    pub user : client.mailaddr ≡ q.to_std_string d.usermail
    pub token :
        client.auth
        ≡ e.encode (0 ∷ q.to_std_string d.usermail ++ 0 ∷ q.to_std_string d.usermail_passwd)
    pub mailed :
        async_sendmail b e (answers_to srv (r ∷ rs)) client
        ≡ wait_at succeeded (talking client (r ∷ rs) (dialogue client (r ∷ rs) (message_of d)))

  open_dialog-Mails :
      (s : q.Settings) (r : Text) (rs : List Text)
      → IsWilling b srv
      → find_rcpts b (mail_address_split b (q.to_std_string (mail_rcpt q s))) ≡ r ∷ rs
      → Mails s r rs (open_dialog q s)
  unfolding start_send_mail client_of imf_of message sendmail field get_header smtp equal
      open_dialog mail_rcpt async_sendmail mail_data
  open_dialog-Mails s r rs w f =
      let mail = imf_of q b s c title (mail_rcpt q s) in
      let t = record (client_of q b e s) { rcpts = r ∷ rs; imf = mail } in
      record {
        client = t;
        made = ap (λ l. some (record (client_of q b e s) { rcpts = l; imf = mail })) f;
        user = refl;
        token = refl;
        mailed = run_succeeds b e srv t r rs (message_of (open_dialog q s)) w refl;
      }

  -- From the settings dialog to the Kindle: after a dialog that was accepted with addresses and a
  -- password, the posts of a download are mailed as a text file under the post's title. With a
  -- server that takes every command and offers no TLS, the client logs in with the user and the
  -- password of the dialog, names the dialog's recipients, sends the posts, and reports success.
  pub kindle_settings-Mails :
      QtLaws q
      → (exec : KindleSettingDialog → Option KindleSettingDialog) (d : KindleSettingDialog)
      → (s : q.Settings) (r : Text) (rs : List Text) → exec (open_dialog q s) ≡ some d
      → IsWilling b srv
      → find_rcpts b (mail_address_split b (q.to_std_string d.kindlemail)) ≡ r ∷ rs
      → Mails (kindle_settings q exec s) r rs d
  unfolding open_dialog mail_rcpt
  kindle_settings-Mails laws exec d s r rs h w f =
      let saved = kindle_settings q exec s in
      let same = (open_dialog-kindle_settings q laws exec d s h).0 in
      let to =
        ap (λ x. find_rcpts b (mail_address_split b (q.to_std_string x.kindlemail))) same ∙ f in
      subst (λ x. Mails saved r rs x) same (open_dialog-Mails saved r rs w to)
