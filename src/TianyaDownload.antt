-- ===== src/TianyaDownload.antt =====
-- src/tianya_download.cpp: what ties a download to a window. The signals of tianya_context come on the
-- worker's thread and post tasks; the window's thread runs the tasks in turn.
pub mod Order
pub mod Save
pub mod Mail
pub mod MailTests
pub mod Tests
use tianya.Prelude.{ℕ, ℤ, Bool, true, false, List, [], ◌∷◌, ◌++◌, if◌then◌else◌}
use tianya.Text.{Text}

-- The lambdas that are posted: a chunk with the page and the number of pages at that time, the end of
-- the download, and the end of the mail.
pub data Task : Type 0 where
  chunk_task : Text → ℤ × ℤ → Task
  complete_task : Task
  mail_task : Task

-- The signals of the class, with the mail's progress in hundredths, and the timer.
pub data Effect : Type 0 where
  chunk_download_notify : Text → Effect
  download_progress_report : ℤ × ℤ → Effect
  start_timer : Effect
  download_complete : Effect
  mailsend_progress_report : ℕ → Effect
  send_complete : Effect

pub record TianyaDownload : Type 0 where
  pub is_gone : Bool
  pub first_chunk : Bool
  pub connected : Bool
  pub queue : List Task
  pub log : List Effect

pub data Event : Type 0 where
  one_content_fetched : Text → ℤ × ℤ → Event
  completed : Event
  mail_handled : Event
  gui_turn : Event
  destroyed : Event

unfoldable pub post_on_gui_thread : Task → TianyaDownload → TianyaDownload
post_on_gui_thread task d = record d { queue = d.queue ++ task ∷ [] }

unfoldable pub emit : List Effect → TianyaDownload → TianyaDownload
emit effects d = record d { log = d.log ++ effects }

-- start_send_mail, as far as it signals; it is called on an object that is there.
unfoldable pub start_send_mail : TianyaDownload → TianyaDownload
unfolding emit
start_send_mail d = emit (mailsend_progress_report 50 ∷ []) d

-- The body of a posted lambda behind its guard.
unfoldable pub do_task : Task → TianyaDownload → TianyaDownload
unfolding emit
do_task (chunk_task content progress) d =
    if d.first_chunk
    then emit (chunk_download_notify content ∷ download_progress_report progress ∷ start_timer ∷ [])
        (record d { first_chunk = false })
    else emit (chunk_download_notify content ∷ download_progress_report progress ∷ []) d
do_task complete_task d = emit (download_complete ∷ []) d
do_task mail_task d = emit (mailsend_progress_report 100 ∷ send_complete ∷ []) d

unfoldable pub run_task : Task → TianyaDownload → TianyaDownload
unfolding do_task
run_task task d = if d.is_gone then d else do_task task d

unfoldable pub next_task : List Task → TianyaDownload → TianyaDownload
unfolding run_task
next_task [] d = d
next_task (task ∷ tasks) d = run_task task (record d { queue = tasks })

-- The destructor: both connections are cut. It also calls stop of the tianya_context, whose signals are
-- events here, so that they may come in any number behind it.
unfoldable pub destroy : TianyaDownload → TianyaDownload
destroy d = record d { is_gone = true; connected = false }

unfoldable pub handle : Event → TianyaDownload → TianyaDownload
unfolding post_on_gui_thread next_task destroy
handle (one_content_fetched content progress) d =
    if d.connected then post_on_gui_thread (chunk_task content progress) d else d
handle completed d = if d.connected then post_on_gui_thread complete_task d else d
handle mail_handled d = if d.is_gone then d else post_on_gui_thread mail_task d
handle gui_turn d = next_task d.queue d
handle destroyed d = destroy d

unfoldable pub handle_all : List Event → TianyaDownload → TianyaDownload
unfolding handle
handle_all [] d = d
handle_all (event ∷ events) d = handle_all events (handle event d)
