-- ===== src/NovelViewer.antt =====
-- src/novelviewer.cpp: the window of a post behind its widgets: the text that it shows, its progress
-- bars, the field to find a text, and what it saves.
pub mod Shows
pub mod Saves
pub mod Finder
pub mod Whole
pub mod Tests
use tianya.Prelude.{
  ℕ, zero, suc, ℤ, Bool, true, false, ◌&&◌, not, Option, none, some, List, [], ◌∷◌, ◌++◌, map,
  if◌then◌else◌, is_some,
}
use tianya.Text.{Text, codes}
use tianya.Boost.{Boost}
use tianya.TianyaContext.Machine.{TianyaContext}
use tianya.TianyaContext.Session.{serialize}
use tianya.TianyaDownload.{
  TianyaDownload, Event, Effect, chunk_download_notify, download_progress_report, start_timer,
  download_complete, mailsend_progress_report, send_complete, start_send_mail, handle,
}

-- What setValue was last called with: a page of a number of pages, or hundredths.
pub data Value : Type 0 where
  reset : Value
  share : ℤ × ℤ → Value
  percent : ℕ → Value

-- A bar is expiring when a timer is going to delete it.
pub record ProgressBar : Type 0 where
  pub value : Value
  pub format : Text
  pub expiring : Bool

pub data Focus : Type 0 where
  on_findwindow on_edit : Focus

-- The members, and the state of the widgets: the paragraphs of the text browser, the message of the
-- status bar, the bars of the download and of the mails, whether m_findwindow is set and the
-- shortcut `/` enabled, the widget that was last given
-- the focus, and the texts that were searched for. The passing messages of the tool bar are left out. A signal of the download is handled at
-- once, so that no effect is left in its log.
pub record NovelViewer : Type 0 where
  pub download : TianyaDownload
  pub text : List Text
  pub status : Text
  pub progress_bar : Option ProgressBar
  pub mail_bars : List ProgressBar
  pub findwindow : Bool
  pub temp_shortcut : Bool
  pub focus : Option Focus
  pub finds : List Text

-- What happens to the window.
pub data Action : Type 0 where
  from_download : Event → Action
  find_triggered : Action
  slash_pressed : Action
  esc_pressed : Action
  edited : Text → Action
  mail_triggered : Action
  bar_timeout : Action
  mail_bar_timeout : ℕ → Action

abbrev loading : Text
loading = codes "下载中..."

abbrev new_bar : Text → ProgressBar
new_bar format = record { value = reset; format = format; expiring = false }

unfoldable pub set_value : Value → ProgressBar → ProgressBar
set_value x bar = record bar { value = x }

-- The window when its download has been started. What it asks of the tianya_context is in NovelViewer.Whole.
unfoldable pub new_viewer : NovelViewer
new_viewer = record {
  download = record { is_gone = false; first_chunk = true; connected = true; queue = []; log = [] };
  text = [];
  status = loading;
  progress_bar = some (new_bar (codes "%p%"));
  mail_bars = [];
  findwindow = false;
  temp_shortcut = true;
  focus = none;
  finds = [];
}

unfoldable pub on_bar : (ProgressBar → ProgressBar) → Option ProgressBar → Option ProgressBar
on_bar f none = none
on_bar f (some bar) = some (f bar)

-- The bar that is full, and deleted in three seconds.
unfoldable pub fill : ProgressBar → ProgressBar
fill bar = record bar { value = percent 100; expiring = true }

unfoldable pub sent_bar : ProgressBar → ProgressBar
unfolding fill
sent_bar bar = record (fill bar) { format = codes "发送完成" }

-- The slots of each signal of the download. The timer scrolls the text, which is not in the state.
unfoldable pub on_effect : Effect → NovelViewer → NovelViewer
unfolding on_bar fill sent_bar set_value
on_effect (chunk_download_notify s) v = record v { text = v.text ++ s ∷ []; status = loading }
on_effect (download_progress_report p) v = record v {
  progress_bar = on_bar (set_value (share p)) v.progress_bar;
}
on_effect start_timer v = v
on_effect download_complete v = record v {
  status = codes "下载完成";
  progress_bar = on_bar fill v.progress_bar;
}
on_effect (mailsend_progress_report n) v = record v {
  mail_bars = map (set_value (percent n)) v.mail_bars;
}
on_effect send_complete v = record v { mail_bars = map sent_bar v.mail_bars }

unfoldable pub on_effects : List Effect → NovelViewer → NovelViewer
unfolding on_effect
on_effects [] v = v
on_effects (e ∷ log) v = on_effects log (on_effect e v)

-- The download after one of its functions: what it has signalled reaches the slots.
unfoldable pub deliver : TianyaDownload → NovelViewer → NovelViewer
unfolding on_effects
deliver d v = on_effects d.log (record v { download = record d { log = [] } })

-- Each mail has a bar of its own, which is connected before the mail is started.
unfoldable pub mail_to : NovelViewer → NovelViewer
unfolding deliver
mail_to v =
    deliver (start_send_mail v.download)
      (record v { mail_bars = v.mail_bars ++ new_bar (codes "发送邮件... %p%") ∷ [] })

unfoldable pub showfind_widget : NovelViewer → NovelViewer
showfind_widget v =
    if v.findwindow
    then record v { focus = some on_findwindow }
    else record v { findwindow = true; temp_shortcut = false; focus = some on_edit }

unfoldable pub hidefind_widget : NovelViewer → NovelViewer
hidefind_widget v = record v { findwindow = false; temp_shortcut = true }

-- The text of the field changes or is entered; the field is there as long as its window is.
unfoldable pub find_text : Text → NovelViewer → NovelViewer
find_text s v = if v.findwindow then record v { finds = v.finds ++ s ∷ [] } else v

unfoldable pub expire_bar : Option ProgressBar → Option ProgressBar
expire_bar none = none
expire_bar (some bar) = if bar.expiring then none else some bar

unfoldable pub expire_mail_bar : ℕ → List ProgressBar → List ProgressBar
expire_mail_bar n [] = []
expire_mail_bar zero (bar ∷ bars) = if bar.expiring then bars else bar ∷ bars
expire_mail_bar (suc n) (bar ∷ bars) = bar ∷ expire_mail_bar n bars

unfoldable pub act : Action → NovelViewer → NovelViewer
unfolding deliver mail_to showfind_widget hidefind_widget find_text expire_bar expire_mail_bar
act (from_download e) v = deliver (handle e v.download) v
act find_triggered v = showfind_widget v
act slash_pressed v = if v.temp_shortcut then showfind_widget v else v
act esc_pressed v = hidefind_widget v
act (edited s) v = find_text s v
act mail_triggered v = mail_to v
act bar_timeout v = record v { progress_bar = expire_bar v.progress_bar }
act (mail_bar_timeout n) v = record v { mail_bars = expire_mail_bar n v.mail_bars }

unfoldable pub act_all : List Action → NovelViewer → NovelViewer
unfolding act
act_all [] v = v
act_all (a ∷ actions) v = act_all actions (act a v)

-- What the file dialog leaves: whether it was accepted, and the files selected.
pub record Choice : Type 0 where
  pub accepted : Bool
  pub selected : List Text

unfoldable pub chosen : Bool → List Text → Option Text
chosen accepted [] = none
chosen accepted (file ∷ files) = if accepted then some file else none

-- The file to write, of a dialog that suggests the title for its name.
unfoldable pub save_to : (Text → Choice) → Text → Option Text
unfolding chosen
save_to exec title =
    let choice = exec (title ++ codes ".txt") in chosen choice.accepted choice.selected
