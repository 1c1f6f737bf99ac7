-- ===== src/NovelViewer/Tests.antt =====
-- The window of a post while its download runs, with a user who looks for a text and mails the post.
use mathlib.Core.List.{Sublist}
use tianya.Prelude.{pos, ◌≡◌, refl, true, false, none, some, List, [], ◌∷◌, ◌++◌}
use tianya.Text.{codes, contains, equal, is_empty, find_last_of}
use tianya.Html.{first_quoted, strip_tags}
use tianya.Util.{no_url, ansi_wide, parser_url, skip_blank, to_int, read_signed}
use tianya.TianyaContext.Machine.{handle_line, start, is_reply, post_text, add_user}
use tianya.Sample.{plain}
use tianya.TianyaContext.Session.{crawl, serialize, set_filter}
use tianya.TianyaDownload.Save.{start_download, set_filter_reply, save_to_file, write_posts}
use tianya.TianyaContext.Thread.{kept, said}
use tianya.TianyaContext.Thread.Whole.{unknown}
use tianya.TianyaContext.Thread.Pages.{thread, thread_chunks}
use tianya.TianyaContext.Thread.Tests.{
  fresh, pages, talk, address, first_page-IsPage, talk-AreParts,
}
use tianya.NovelViewer.Whole.{open_download, act_all-thread_chunks}
use tianya.TianyaContext.Tests.{reading, one_post}
use tianya.TianyaDownload.{one_content_fetched, completed, gui_turn, handle, start_send_mail}
use tianya.TianyaDownload.Order.{queued}
use tianya.NovelViewer.{
  Action, from_download, slash_pressed, esc_pressed, edited, mail_triggered, bar_timeout,
  new_viewer, act_all, save_to,
}
use tianya.NovelViewer.Shows.{signalled_by}
use tianya.NovelViewer.Saves.{act_all-shows}
use tianya.NovelViewer.Finder.{IsTidy, act_all-typed}

-- A chunk, a search, a mail, the end of the download.
abbrev session : List Action
session =
    from_download (one_content_fetched (codes "hi") (pos 1, pos 1))
    ∷ slash_pressed
    ∷ edited (codes "h")
    ∷ from_download gui_turn
    ∷ slash_pressed
    ∷ edited (codes "hi")
    ∷ mail_triggered
    ∷ from_download completed
    ∷ esc_pressed
    ∷ edited (codes "no")
    ∷ from_download gui_turn
    ∷ bar_timeout
    ∷ []

bars_leave : (act_all session new_viewer).progress_bar ≡ none
unfolding act_all handle start_send_mail new_viewer
bars_leave = refl

act_all-typed_example :
    ((act_all session new_viewer).findwindow ≡ false)
    × IsTidy (act_all session new_viewer)
    × ((act_all session new_viewer).finds ≡ codes "h" ∷ codes "hi" ∷ [])
unfolding new_viewer
act_all-typed_example = act_all-typed session new_viewer refl

-- The download of a post of two pages, and both its chunks, of which the second answers a user.
abbrev two_chunks : List Action
two_chunks =
    from_download (one_content_fetched (codes "ab") (pos 1, pos 2))
    ∷ from_download gui_turn
    ∷ slash_pressed
    ∷ from_download (one_content_fetched (codes "@you") (pos 2, pos 2))
    ∷ from_download completed
    ∷ from_download gui_turn
    ∷ from_download gui_turn
    ∷ []

kept_test : kept (thread_chunks true plain (unknown fresh.users) pages talk) ≡ codes "ab" ∷ []
unfolding contains equal strip_tags is_empty post_text is_reply add_user
kept_test = refl

act_all-thread_chunks_example :
    ((act_all two_chunks new_viewer).text
      ≡ said (thread_chunks true plain (unknown fresh.users) pages talk))
    × (write_posts plain
          (crawl plain
            (parser_url plain address)
            (thread pages talk)
            (open_download plain address fresh))
          (save_to_file true)
        ≡ some (
            (0xEF ∷ 0xBB ∷ 0xBF ∷ [])
            ++ serialize plain (kept (thread_chunks true plain (unknown fresh.users) pages talk))))
unfolding crawl act_all handle_line signalled_by ansi_wide contains equal first_quoted strip_tags
    queued handle start_send_mail new_viewer start is_empty find_last_of skip_blank to_int
    read_signed open_download start_download set_filter_reply set_filter is_reply
act_all-thread_chunks_example =
    act_all-thread_chunks plain address pages talk fresh two_chunks (first_page-IsPage, tt)
      talk-AreParts refl refl refl refl refl (tt, (tt, (tt, (tt, (tt, (tt, (tt, tt))))))) refl refl

-- The page closes the post behind "hi", which is by the author.
act_all-shows_example :
    ((act_all session new_viewer).text ≡ codes "hi" ∷ [])
    × Sublist (crawl plain no_url one_post (reading true)).posts (act_all session new_viewer).text
unfolding crawl act_all handle_line signalled_by ansi_wide contains equal first_quoted strip_tags
    queued handle start_send_mail new_viewer
act_all-shows_example =
    act_all-shows plain no_url one_post (reading true) session refl refl
      (tt, (tt, (tt, (tt, (tt, (tt, (tt, (tt, (tt, (tt, (tt, (tt, tt)))))))))))) refl refl

saves_file :
    save_to (λ s. record { accepted = true; selected = s ∷ [] }) (codes "t") ≡ some (codes "t.txt")
unfolding save_to
saves_file = refl
