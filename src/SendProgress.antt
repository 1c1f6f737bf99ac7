-- ===== src/SendProgress.antt =====
-- src/sendprogress.cpp: the window that downloads a post and mails it to a Kindle: its progress bar,
-- and the mails that it starts.
pub mod Mails
pub mod Whole
pub mod Tests
use tianya.Prelude.{
  ℕ, zero, suc, ◌+◌, ◌*◌, ◌/◌, ℤ, Bool, true, false, List, [], ◌∷◌, ◌++◌, if◌then◌else◌,
}
use tianya.Text.{Text, codes}
use tianya.TianyaContext.Machine.{TianyaContext}
use tianya.TianyaDownload.{
  TianyaDownload, one_content_fetched, completed, mail_handled, Effect, chunk_download_notify,
  download_progress_report, start_timer, download_complete, mailsend_progress_report, send_complete,
  start_send_mail, next_task, destroy, handle,
}

-- What setValue was last called with: a number, or the share of 80 that a page has of the pages.
pub data Value : Type 0 where
  percent : ℕ → Value
  of_pages : ℤ × ℤ → Value

-- `connected` counts how often the two slots of the mail are connected, `mails` has the download as it
-- was when each mail was built, `closing` tells that the timer runs which deletes the window. A
-- signal of the download is handled at once, so that no effect is left in its log.
pub record SendProgress : Type 0 where
  pub download : TianyaDownload
  pub value : Value
  pub format : Text
  pub connected : ℕ
  pub mails : List TianyaContext
  pub closing : Bool

-- The signals on the worker's thread, the end of a mail there, a turn of the window's thread while the
-- tianya_context is as given, the end of the timer, and the window's closing.
pub data Action : Type 0 where
  chunk_fetched : Text → ℤ × ℤ → Action
  download_ended : Action
  mail_ended : Action
  gui_turn : TianyaContext → Action
  timeout : Action
  closed : Action

abbrev pub loading : Text
loading = codes "%p% - (正在下载全文)"

-- The window when its download has been started.
unfoldable pub new_progress : SendProgress
new_progress = record {
  download = record { is_gone = false; first_chunk = true; connected = true; queue = []; log = [] };
  value = percent 0;
  format = loading;
  connected = 0;
  mails = [];
  closing = false;
}

unfoldable pub set_download_work_percent : ℤ × ℤ → SendProgress → SendProgress
set_download_work_percent p v = record v { value = of_pages p }

-- For a share in hundredths.
unfoldable pub set_send_work_percent : ℕ → SendProgress → SendProgress
set_send_work_percent n v = record v { value = percent (80 + n * 20 / 100) }

unfoldable pub mail_sended : SendProgress → SendProgress
mail_sended v = record v { value = percent 100; format = codes "%p% - (完成)"; closing = true }

-- A slot, as often as it is connected.
unfoldable pub call : ℕ → (SendProgress → SendProgress) → SendProgress → SendProgress
call zero slot v = v
call (suc n) slot v = call n slot (slot v)

-- The slots of each signal but the end of the download.
unfoldable pub on_signal : Effect → SendProgress → SendProgress
unfolding set_download_work_percent set_send_work_percent mail_sended call
on_signal (chunk_download_notify s) v = v
on_signal (download_progress_report p) v = set_download_work_percent p v
on_signal start_timer v = v
on_signal download_complete v = v
on_signal (mailsend_progress_report n) v = call v.connected (set_send_work_percent n) v
on_signal send_complete v = call v.connected mail_sended v

unfoldable pub on_signals : List Effect → SendProgress → SendProgress
unfolding on_signal
on_signals [] v = v
on_signals (e ∷ log) v = on_signals log (on_signal e v)

-- The mail is built of what the tianya_context has; starting it signals half of the way.
unfoldable pub start_sendmail : TianyaContext → SendProgress → SendProgress
unfolding on_signals start_send_mail
start_sendmail c v = on_signals (start_send_mail v.download).log (record v {
  value = percent 80;
  format = codes "%p% - (正在发送邮件)";
  connected = suc v.connected;
  mails = v.mails ++ c ∷ [];
})

-- What the task of a turn has signalled reaches the slots.
unfoldable pub on_effects : TianyaContext → List Effect → SendProgress → SendProgress
unfolding on_signal start_sendmail
on_effects c [] v = v
on_effects c (download_complete ∷ log) v = on_effects c log (start_sendmail c v)
on_effects c (e ∷ log) v = on_effects c log (on_signal e v)

unfoldable pub act : Action → SendProgress → SendProgress
unfolding on_effects
act (chunk_fetched s p) v = record v { download = handle (one_content_fetched s p) v.download }
act download_ended v = record v { download = handle completed v.download }
act mail_ended v = record v { download = handle mail_handled v.download }
act (gui_turn c) v =
    let d = next_task v.download.queue v.download in
    on_effects c d.log (record v { download = record d { log = [] } })
act timeout v = if v.closing then record v { download = destroy v.download } else v
act closed v = record v { download = destroy v.download }

unfoldable pub act_all : List Action → SendProgress → SendProgress
unfolding act
act_all [] v = v
act_all (a ∷ actions) v = act_all actions (act a v)
