-- ===== src/Qt.antt =====
-- What the program takes from Qt and from SmtpClient for Qt: the settings, the strings and the MIME
-- message. They are not part of the repository's own code, so they are arguments of what uses them.
use tianya.Prelude.{◌≡◌, ◌≢◌}
use tianya.Text.{Text}

pub record Qt : Type 1 where
  pub Settings : Type 0
  -- QSettings::value(key).toString() and QSettings::setValue
  pub value : Settings → Text → Text
  pub set_value : Text → Text → Settings → Settings
  -- QString::toStdString and QString::toUtf8
  pub to_std_string : Text → Text
  -- MimeMessage::toString for a sender, a recipient and a subject, with one attachment under a name.
  pub mime_message : Text → Text → Text → Text → Text → Text

-- The documented behaviour of QSettings: a key has the value that was set last.
pub record QtLaws (q : Qt) : Type 0 where
  pub value-set_value : (k v : Text) (s : q.Settings) → q.value (q.set_value k v s) k ≡ v
  pub value_other :
      (k j v : Text) (s : q.Settings) → k ≢ j → q.value (q.set_value k v s) j ≡ q.value s j
