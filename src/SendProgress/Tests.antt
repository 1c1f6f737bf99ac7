-- ===== src/SendProgress/Tests.antt =====
-- A post of one page that is sent to a Kindle.
use tianya.Prelude.{pos, ◌≡◌, refl, true, List, [], ◌∷◌, ◌⊎◌}
use tianya.Text.{codes, contains, equal}
use tianya.Html.{first_quoted, strip_tags}
use tianya.Util.{no_url, ansi_wide}
use tianya.Sample.{plain}
use tianya.TianyaContext.Machine.{TianyaContext, handle_line}
use tianya.TianyaContext.Session.{crawl}
use tianya.TianyaContext.Tests.{reading, one_post}
use tianya.TianyaDownload.{handle, next_task, start_send_mail}
use tianya.SendProgress.{
  Action, chunk_fetched, download_ended, mail_ended, gui_turn, timeout, percent, of_pages,
  new_progress, act_all,
}
use tianya.SendProgress.Mails.{waiting}
use tianya.SendProgress.Whole.{ends_in, act_all-mails}

abbrev whole : TianyaContext
whole = crawl plain no_url one_post (reading true)

-- The window's thread is slow: the first task runs when the download has gone on.
abbrev session : List Action
session =
    chunk_fetched (codes "hi") (pos 1, pos 2)
    ∷ gui_turn (reading true)
    ∷ download_ended
    ∷ gui_turn whole
    ∷ mail_ended
    ∷ gui_turn whole
    ∷ []

bar_fills :
    ((act_all
        (chunk_fetched (codes "hi") (pos 1, pos 2) ∷ gui_turn (reading true) ∷ [])
        new_progress).value
      ≡ of_pages (pos 1, pos 2))
    × ((act_all session new_progress).value ≡ percent 100)
    × ((act_all (timeout ∷ session) new_progress).closing ≡ true)
    × ((act_all (download_ended ∷ gui_turn whole ∷ []) new_progress).value ≡ percent 90)
unfolding act_all handle next_task start_send_mail new_progress
bar_fills = (refl, refl, refl, refl)

act_all-mails_example :
    ((ends_in whole.log ≡ 0) × ((act_all session new_progress).mails ≡ []))
    ⊎ ((ends_in whole.log ≡ 1) × ((act_all session new_progress).mails ≡ whole ∷ []))
unfolding crawl act_all handle_line ansi_wide contains equal first_quoted strip_tags handle
    next_task start_send_mail new_progress waiting
act_all-mails_example =
    act_all-mails plain no_url one_post (reading true) session refl
      (tt, (tt, (tt, (tt, (tt, (tt, tt)))))) (tt, (tt, (tt, (refl, (tt, (refl, tt)))))) refl refl
