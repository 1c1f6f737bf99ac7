-- ===== src/TianyaDownload/Save.antt =====
-- What tianya_download passes on to its tianya_context, and save_to_file: a file that opens gets a byte
-- order mark at once, and the posts by a task of the worker's thread.
use mathlib.Core.List.{append_assoc}
use tianya.Prelude.{
  ◌≡◌, refl, sym, ◌∙◌, ap, Bool, true, false, Option, none, some, List, [], ◌∷◌, ◌++◌,
}
use tianya.Text.{Text}
use tianya.Boost.{Boost}
use tianya.Util.{UrlInfo, wide_utf8}
use tianya.TianyaContext.Machine.{TianyaContext, start}
use tianya.TianyaContext.Session.{Connection, crawl, complete, serialize, set_filter}
use tianya.TianyaContext.Complete.{Progress, unfinished, finished, crawl-Progress}

-- For the address of its list_info.
unfoldable pub start_download : Boost → Text → TianyaContext → TianyaContext
unfolding start
start_download b post_url c = start b post_url c

unfoldable pub set_filter_reply : Bool → TianyaContext → TianyaContext
unfolding set_filter
set_filter_reply v c = set_filter v c

-- What the file holds when the function has returned, if it has been opened.
unfoldable pub save_to_file : Bool → Option Text
save_to_file false = none
save_to_file true = some (0xEF ∷ 0xBB ∷ 0xBF ∷ [])

-- The posted task, for the posts that there are when it runs.
unfoldable pub write_posts : Boost → TianyaContext → Option Text → Option Text
unfolding serialize
write_posts b c none = none
write_posts b c (some file) = some (file ++ serialize b c.posts)

serialize-append :
    (b : Boost) (xs ys : List Text) → serialize b (xs ++ ys) ≡ serialize b xs ++ serialize b ys
unfolding serialize
serialize-append b [] ys = refl
serialize-append b (x ∷ xs) ys =
    ap (λ s. wide_utf8 b x ++ s) (serialize-append b xs ys)
    ∙ sym (append_assoc (wide_utf8 b x) (serialize b xs) (serialize b ys))

-- What a run adds to the posts.
new_posts : {t u : TianyaContext} → Progress t u → (more : List Text) × (u.posts ≡ t.posts ++ more)
unfolding complete
new_posts (unfinished g) = (g.new_posts, g.posts_grow)
new_posts (finished v g e) = (g.new_posts, ap (λ x. x.posts) e ∙ g.posts_grow)

-- A file that is saved while the download goes on: whatever the download does between the click and
-- the task, the file has the mark, then the posts of the time of the click, then others.
pub write_posts-crawl :
    (b : Boost) (ui : UrlInfo) (cs : List Connection) (t : TianyaContext)
    → (more : List Text) × (write_posts b (crawl b ui cs t) (save_to_file true)
        ≡ some (((0xEF ∷ 0xBB ∷ 0xBF ∷ []) ++ serialize b t.posts) ++ serialize b more))
unfolding write_posts save_to_file
write_posts-crawl b ui cs t =
    let (more, e) = new_posts (crawl-Progress b ui cs t) in
    (
      more,
      ap (λ l. some (0xEF ∷ 0xBB ∷ 0xBF ∷ l))
          (ap (serialize b) e ∙ serialize-append b t.posts more),
    )
