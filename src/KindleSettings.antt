-- ===== src/KindleSettings.antt =====
-- src/kindlesettingdialog.cpp and TianyaWindow::kindle_settings: the addresses and the password that
-- mails to a Kindle are sent with.
pub mod Tests
use mathlib.Core.Bool.{false≢true}
use tianya.Prelude.{◌≡◌, ◌≢◌, refl, sym, ◌∙◌, false, Option, none, some}
use tianya.Text.{Text, codes, equal, equal_iff}
use tianya.Qt.{Qt, QtLaws}

-- The properties of the dialog, which are the texts of its three lines.
pub record KindleSettingDialog : Type 0 where
  pub kindlemail : Text
  pub usermail : Text
  pub usermail_passwd : Text

abbrev pub kindlemail_key : Text
kindlemail_key = codes "kindle.kindlemail"

abbrev pub usermail_key : Text
usermail_key = codes "kindle.usermail"

abbrev pub passwd_key : Text
passwd_key = codes "kindle.usermail_passwd"

-- The dialog as it opens.
unfoldable pub open_dialog : (q : Qt) → q.Settings → KindleSettingDialog
open_dialog q s = record {
  kindlemail = q.value s kindlemail_key;
  usermail = q.value s usermail_key;
  usermail_passwd = q.value s passwd_key;
}

-- An accepted dialog is stored.
unfoldable pub store : (q : Qt) → KindleSettingDialog → q.Settings → q.Settings
store q d s =
    q.set_value passwd_key d.usermail_passwd
      (q.set_value usermail_key d.usermail (q.set_value kindlemail_key d.kindlemail s))

-- The user, who sees the dialog, leaves it with other texts or cancels it.
unfoldable pub kindle_settings :
    (q : Qt) → (KindleSettingDialog → Option KindleSettingDialog) → q.Settings → q.Settings
unfolding open_dialog store
kindle_settings q exec s = elim (exec (open_dialog q s)) [ none ↦ s | some d ↦ store q d s ]

distinct : (a b : Text) → equal a b ≡ false → a ≢ b
distinct a b h e = false≢true (sym h ∙ (equal_iff a b).1 e)

passwd_usermail : passwd_key ≢ usermail_key
unfolding equal
passwd_usermail = distinct passwd_key usermail_key refl

passwd_kindlemail : passwd_key ≢ kindlemail_key
unfolding equal
passwd_kindlemail = distinct passwd_key kindlemail_key refl

usermail_kindlemail : usermail_key ≢ kindlemail_key
unfolding equal
usermail_kindlemail = distinct usermail_key kindlemail_key refl

module _ (q : Qt) (laws : QtLaws q) where
  pub open_dialog-store :
      (d : KindleSettingDialog) (s : q.Settings) → open_dialog q (store q d s) ≡ d
  unfolding open_dialog store
  open_dialog-store d s =
      let sent = q.set_value kindlemail_key d.kindlemail s in
      let signed = q.set_value usermail_key d.usermail sent in
      let k =
        laws.value_other passwd_key kindlemail_key d.usermail_passwd signed passwd_kindlemail
        ∙ laws.value_other usermail_key kindlemail_key d.usermail sent usermail_kindlemail
        ∙ laws.value-set_value kindlemail_key d.kindlemail s in
      let u =
        laws.value_other passwd_key usermail_key d.usermail_passwd signed passwd_usermail
        ∙ laws.value-set_value usermail_key d.usermail sent in
      let p = laws.value-set_value passwd_key d.usermail_passwd signed in
      λ i. record { kindlemail = k i; usermail = u i; usermail_passwd = p i }

  store_other :
      (d : KindleSettingDialog) (s : q.Settings) (j : Text)
      → kindlemail_key ≢ j
      → usermail_key ≢ j
      → passwd_key ≢ j
      → q.value (store q d s) j ≡ q.value s j
  unfolding store
  store_other d s j k u p =
      laws.value_other passwd_key j d.usermail_passwd _ p
      ∙ laws.value_other usermail_key j d.usermail _ u
      ∙ laws.value_other kindlemail_key j d.kindlemail s k

  pub kindle_settings_accepted :
      (exec : KindleSettingDialog → Option KindleSettingDialog) (d : KindleSettingDialog)
      (s : q.Settings)
      → exec (open_dialog q s) ≡ some d
      → kindle_settings q exec s ≡ store q d s
  unfolding kindle_settings
  kindle_settings_accepted exec d s h = rw (h, kindle_settings) refl

  -- After a dialog that is accepted, a new one opens with the texts that it was left with, and every
  -- other setting is as it was.
  pub open_dialog-kindle_settings :
      (exec : KindleSettingDialog → Option KindleSettingDialog) (d : KindleSettingDialog)
      (s : q.Settings)
      → exec (open_dialog q s) ≡ some d
      → (open_dialog q (kindle_settings q exec s) ≡ d)
        × ((j : Text)
            → kindlemail_key ≢ j
            → usermail_key ≢ j
            → passwd_key ≢ j
            → q.value (kindle_settings q exec s) j ≡ q.value s j)
  open_dialog-kindle_settings exec d s h =
      rw (kindle_settings_accepted exec d s h) (open_dialog-store d s, store_other d s)
