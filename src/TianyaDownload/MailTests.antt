-- ===== src/TianyaDownload/MailTests.antt =====
-- A download of two posts that is mailed to a friendly server.
use tianya.Prelude.{◌≡◌, refl, negsuc, true, false, [], ◌∷◌}
use tianya.Text.{codes, equal}
use tianya.Imf.{mail_address_split}
use tianya.TianyaContext.Machine.{TianyaContext, state_unkown}
use tianya.Smtp.{find_rcpts}
use tianya.Smtp.Tests.{server, same_text, friendly, friendly-IsWilling}
use tianya.KindleSettings.{kindle_settings}
use tianya.KindleSettings.Tests.{memory, memory-QtLaws, no_settings, mine, fill_in}
use tianya.TianyaDownload.Mail.{Mails, kindle_settings-Mails}

abbrev two_posts : TianyaContext
two_posts = record {
  state = state_unkown;
  author = codes "me";
  posts = codes "one" ∷ codes "two" ∷ [];
  context = [];
  post_url = [];
  next_page_url = [];
  page_index = 1;
  page_count = negsuc 0;
  filter_reply = true;
  users = [];
  abort = false;
  is_open = false;
  log = [];
}

one_rcpt : find_rcpts server (mail_address_split server (codes "a@b")) ≡ codes "a@b" ∷ []
unfolding find_rcpts mail_address_split equal
one_rcpt = refl

kindle_settings-Mails_example :
    Mails memory server same_text friendly two_posts
      (codes "T")
      (kindle_settings memory fill_in no_settings)
      (codes "a@b")
      []
      mine
kindle_settings-Mails_example =
    kindle_settings-Mails memory server same_text friendly two_posts (codes "T") memory-QtLaws
      fill_in mine no_settings (codes "a@b") [] refl friendly-IsWilling one_rcpt
