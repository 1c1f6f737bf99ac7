-- ===== src/NovelViewer/Saves.antt =====
-- The text of the window of a post, against what the download signals and what would be saved.
use mathlib.Core.List.{Sublist, append-nil}
use mathlib.Core.Path.{subst}
use tianya.Prelude.{◌≡◌, sym, ◌∙◌, ap, List, [], ◌++◌, All}
use tianya.Boost.{Boost}
use tianya.Util.{UrlInfo}
use tianya.TianyaContext.Machine.{TianyaContext}
use tianya.TianyaContext.Session.{Connection, crawl, complete}
use tianya.TianyaContext.Grows.{Grows, contents, contents-append}
use tianya.TianyaContext.Complete.{Progress, unfinished, finished, crawl-Progress}
use tianya.TianyaDownload.Order.{queued}
use tianya.NovelViewer.{Action, new_viewer, act_all}
use tianya.NovelViewer.Shows.{signalled_by, StaysOpen, shown_text}

grown_Sublist :
    (t u : TianyaContext) → t.posts ≡ [] → t.log ≡ [] → Grows t u → Sublist u.posts (contents u.log)
grown_Sublist t u p l g =
    subst (λ x. Sublist x (contents u.log)) (sym (g.posts_grow ∙ ap (λ x. x ++ g.new_posts) p))
      (subst (λ x. Sublist g.new_posts (contents x))
        (sym (g.log_grows ∙ ap (λ x. x ++ g.new_log) l)) g.kept)

saved_Sublist :
    (t u : TianyaContext)
    → t.posts ≡ []
    → t.log ≡ []
    → Progress t u
    → Sublist u.posts (contents u.log)
unfolding complete
saved_Sublist t u p l (unfinished g) = grown_Sublist t u p l g
saved_Sublist t u p l (finished v g e) = rw e (
    subst (λ x. Sublist v.posts x) (sym (contents-append v.log _ ∙ append-nil (contents v.log)))
      (grown_Sublist t v p l g))

-- While the window of a post is open, whatever is clicked, typed, mailed or timed out in it, and in
-- whatever order the two threads take their turns: once the worker's thread has signalled what a
-- download of pages signals and no chunk waits, the text of the window is exactly what was signalled,
-- in order; and all posts that would be saved or mailed are in that text, in their order.
pub act_all-shows :
    (b : Boost) (ui : UrlInfo) (cs : List Connection) (t : TianyaContext) (actions : List Action)
    → t.posts ≡ []
    → t.log ≡ []
    → All StaysOpen actions
    → signalled_by actions ≡ contents (crawl b ui cs t).log
    → queued (act_all actions new_viewer).download.queue ≡ []
    → ((act_all actions new_viewer).text ≡ contents (crawl b ui cs t).log)
      × Sublist (crawl b ui cs t).posts (act_all actions new_viewer).text
act_all-shows b ui cs t actions p l n s q =
    let e = shown_text actions (contents (crawl b ui cs t).log) n s q in
    (
      e,
      subst (λ x. Sublist (crawl b ui cs t).posts x) (sym e)
          (saved_Sublist t (crawl b ui cs t) p l (crawl-Progress b ui cs t)),
    )
