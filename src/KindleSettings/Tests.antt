-- ===== src/KindleSettings/Tests.antt =====
-- The settings as a function of the key, and a user who fills the dialog in.
use tianya.Prelude.{◌≡◌, ◌≢◌, refl, Option, some, [], ◌++◌, arith, if◌then◌else◌}
use tianya.Text.{Text, codes, equal, equal_iff}
use tianya.Qt.{Qt, QtLaws}
use tianya.KindleSettings.{
  KindleSettingDialog, kindlemail_key, usermail_key, passwd_key, open_dialog, kindle_settings,
  open_dialog-kindle_settings,
}

abbrev pub memory : Qt
memory = record {
  Settings = Text → Text;
  value = λ s k. s k;
  set_value = λ k v s j. if equal k j then v else s j;
  to_std_string = λ s. s;
  mime_message = λ from to subject name file. name ++ codes "\n" ++ file;
}

pub memory-QtLaws : QtLaws memory
memory-QtLaws = record {
  value-set_value = λ k v s. ground (arith, (equal_iff k k).1 refl);
  value_other = λ k j v s d. ground (arith, d, (equal_iff k j).0);
}

abbrev pub no_settings : Text → Text
no_settings k = []

abbrev pub mine : KindleSettingDialog
mine = record { kindlemail = codes "a@b"; usermail = codes "me@b"; usermail_passwd = codes "pw" }

abbrev pub fill_in : KindleSettingDialog → Option KindleSettingDialog
fill_in shown = some mine

open_dialog-kindle_settings_test :
    (open_dialog memory (kindle_settings memory fill_in no_settings) ≡ mine)
    × ((j : Text)
        → kindlemail_key ≢ j
        → usermail_key ≢ j
        → passwd_key ≢ j
        → kindle_settings memory fill_in no_settings j ≡ [])
open_dialog-kindle_settings_test =
    open_dialog-kindle_settings memory memory-QtLaws fill_in mine no_settings refl
