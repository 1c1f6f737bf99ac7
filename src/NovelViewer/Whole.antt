-- ===== src/NovelViewer/Whole.antt =====
-- The window of a post over a whole download.
use tianya.Prelude.{
  ◌≡◌, refl, sym, ◌∙◌, ap, true, false, Option, none, some, List, [], ◌∷◌, ◌++◌, map, All,
}
use tianya.Text.{Text}
use tianya.Boost.{Boost}
use tianya.Util.{parser_url}
use tianya.TianyaContext.Machine.{
  TianyaContext, Effect, resolving, sent, closed, one_content_fetched, download_complete, start,
}
use tianya.TianyaContext.Session.{crawl, serialize, set_filter}
use tianya.TianyaDownload.Save.{start_download, set_filter_reply, save_to_file, write_posts}
use tianya.TianyaContext.Grows.{contents}
use tianya.TianyaContext.Thread.{Part, AreParts, kept, said}
use tianya.TianyaContext.Thread.Gains.{heard}
use tianya.TianyaContext.Thread.Pages.{PageText, utf_8, IsPage, thread, thread_chunks}
use tianya.TianyaContext.Thread.Whole.{unknown, crawl-thread_chunks}
use tianya.TianyaDownload.Order.{queued}
use tianya.NovelViewer.{Action, new_viewer, act_all}
use tianya.NovelViewer.Shows.{signalled_by, StaysOpen, shown_text}

-- The posts among the signals.
abbrev posts_in : List (Option Text) → List Text
posts_in [] = []
posts_in (none ∷ xs) = posts_in xs
posts_in (some s ∷ xs) = s ∷ posts_in xs

posts_in-heard : (log : List Effect) → posts_in (heard log) ≡ contents log
posts_in-heard [] = refl
posts_in-heard (one_content_fetched c ∷ log) = ap (λ x. c ∷ x) (posts_in-heard log)
posts_in-heard (download_complete ∷ log) = posts_in-heard log
posts_in-heard (resolving d p ui ∷ log) = posts_in-heard log
posts_in-heard (sent r ∷ log) = posts_in-heard log
posts_in-heard (closed ∷ log) = posts_in-heard log

posts_in-ended : (ps : List Text) → posts_in (map some ps ++ none ∷ []) ≡ ps
posts_in-ended [] = refl
posts_in-ended (p ∷ ps) = ap (λ x. p ∷ x) (posts_in-ended ps)

-- The download that the constructor makes of a new tianya_context: the filter is on, and it is started.
unfoldable pub open_download : Boost → Text → TianyaContext → TianyaContext
unfolding start_download set_filter_reply
open_download b post_url c = start_download b post_url (set_filter_reply true c)

told :
    (log : List Effect) (ps : List Text) → heard log ≡ map some ps ++ none ∷ [] → contents log ≡ ps
told log ps h = sym (posts_in-heard log) ∙ ap posts_in h ∙ posts_in-ended ps

-- From the text of the pages to the window: the download of a window of a post, made of a new
-- tianya_context with the filter on, runs over the pages of a whole post and is not stopped, nor is
-- the filter set anew, and its signals come to the window, which stays open, in any order of the turns
-- of the two threads and whatever else is done in it. When no chunk waits any more, the text of the
-- window is exactly the posts by the author, over all pages and in their order, with his answers to
-- other users among them; and a file that is saved then has a byte order mark and the same posts
-- without the answers.
pub act_all-thread_chunks :
    (b : Boost) (url : Text) (pages : List PageText) (last : List Part) (t : TianyaContext)
    (actions : List Action)
    → All (IsPage b) pages
    → AreParts b utf_8 last
    → t.posts ≡ []
    → t.log ≡ []
    → t.author ≡ []
    → t.next_page_url ≡ []
    → t.abort ≡ false
    → All StaysOpen actions
    → signalled_by actions
      ≡ contents (crawl b (parser_url b url) (thread pages last) (open_download b url t)).log
    → queued (act_all actions new_viewer).download.queue ≡ []
    → ((act_all actions new_viewer).text ≡ said (thread_chunks true b (unknown t.users) pages last))
      × (write_posts b
            (crawl b (parser_url b url) (thread pages last) (open_download b url t))
            (save_to_file true)
          ≡ some (
              (0xEF ∷ 0xBB ∷ 0xBF ∷ [])
              ++ serialize b (kept (thread_chunks true b (unknown t.users) pages last))))
unfolding open_download start_download set_filter_reply set_filter save_to_file write_posts
act_all-thread_chunks b url pages last t actions vs v p l e n a o s q =
    let c : TianyaContext = record t { filter_reply = true } in
    let u = crawl b (parser_url b url) (thread pages last) (start b url c) in
    let cs = thread_chunks true b (unknown t.users) pages last in
    let (posts, signals, requests) =
      crawl-thread_chunks true b url pages last c vs v p l e n refl a in
    (
      shown_text actions (said cs) o (s ∙ told u.log (said cs) signals) q,
      ap (λ x. some ((0xEF ∷ 0xBB ∷ 0xBF ∷ []) ++ serialize b x)) posts,
    )
