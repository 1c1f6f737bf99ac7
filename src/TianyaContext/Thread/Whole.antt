-- ===== src/TianyaContext/Thread/Whole.antt =====
-- The connections over which tianya_context downloads a whole post, page after page.
use mathlib.Core.List.{append-nil, append_assoc}
use tianya.Prelude.{Bool, ◌≡◌, refl, ap, ◌∙◌, false, none, some, List, [], ◌∷◌, ◌++◌, map, All}
use tianya.Text.{Text}
use tianya.Boost.{Boost}
use tianya.Util.{UrlInfo, parser_url}
use tianya.Http.{request}
use tianya.TianyaContext.Machine.{TianyaContext, closed, download_complete, start}
use tianya.TianyaContext.Session.{
  read_failed, close, read_loop, complete, after_page, crawl, serialize, serialize_to_file,
}
use tianya.TianyaContext.Paging.{opened}
use tianya.TianyaContext.Thread.{Part, AreParts, Known, kept, said, chunks_of}
use tianya.TianyaContext.Thread.Gains.{
  heard, asked, heard-append, asked-append, Stands, Gains, Ends, ends-trans, gains-trans,
}
use tianya.TianyaContext.Thread.Steps.{parts_run}
use tianya.TianyaContext.Thread.Pages.{
  PageText, utf_8, IsPage, next_url, page_known, page_chunks, thread, thread_chunks, thread_posts,
  thread_requests, opened_lem, opened_run,
}
use tianya.TianyaContext.Thread.Linked.{page-Leads}
use tianya.TianyaContext.Thread.Unfiltered.{kept-thread_chunks, said-thread_chunks}

ended :
    (t u : TianyaContext) (ps : List (Text × Bool)) (qs : List Text)
    → Gains t u ps qs
    → Ends t (complete (close u)) ps qs
unfolding complete close
ended t u ps qs g = record {
  posts_lem = g.posts_lem;
  heard_lem =
      heard-append (u.log ++ closed ∷ []) (download_complete ∷ [])
      ∙ ap (λ x. x ++ none ∷ [])
          (heard-append u.log (closed ∷ []) ∙ append-nil (heard u.log) ∙ g.heard_lem)
      ∙ append_assoc (heard t.log) (map some (said ps)) (none ∷ []);
  asked_lem =
      asked-append (u.log ++ closed ∷ []) (download_complete ∷ [])
      ∙ append-nil (asked (u.log ++ closed ∷ []))
      ∙ asked-append u.log (closed ∷ [])
      ∙ append-nil (asked u.log)
      ∙ g.asked_lem;
}

-- The last page: its parts, and then the end of the input.
last_page :
    (on : Bool) (b : Boost) (k : Known) (ui : UrlInfo) (last : List Part) (t : TianyaContext)
    → AreParts b utf_8 last
    → Stands on k [] t
    → Ends t (crawl b ui (thread [] last) t) (chunks_of on b k last) (request ui ∷ [])
unfolding crawl after_page read_loop
last_page on b k ui last t v s =
    let (o, n) = opened_lem on k ui t s in
    let e = parts_run on b k [] last (opened ui t) v o in
    rw (opened_run on b k ui last (read_failed ∷ []) t s v, after_page)
      (ended t e.page.self (chunks_of on b k last) (request ui ∷ []) (
        gains-trans t (opened ui t).self e.page.self [] (chunks_of on b k last) (request ui ∷ []) []
          n e.gains))

thread_run :
    (on : Bool) (b : Boost) (k : Known) (ui : UrlInfo) (pages : List PageText) (last : List Part)
    (t : TianyaContext)
    → All (IsPage b) pages
    → AreParts b utf_8 last
    → Stands on k [] t
    → Ends t
        (crawl b ui (thread pages last) t)
        (thread_chunks on b k pages last)
        (thread_requests b ui pages)
unfolding crawl after_page
thread_run on b k ui [] last t vs v s = last_page on b k ui last t v s
thread_run on b k ui (g ∷ pages) last t (w, ws) v s =
    let l = page-Leads on b k ui g t w s in
    rw (l.runs, after_page)
      (rw l.url_lem (
        ends-trans t l.next _ (page_chunks on b k g) _ (request ui ∷ []) _ l.gains (
          thread_run on b (page_known on b k g) (parser_url b (next_url b g)) pages last l.next ws v
            l.stands)))

abbrev pub unknown : List Text → Known
unknown users = record { author = []; users = users }

started :
    (on : Bool) (b : Boost) (url : Text) (t : TianyaContext)
    → t.author ≡ []
    → t.next_page_url ≡ []
    → t.filter_reply ≡ on
    → t.abort ≡ false
    → Stands on (unknown t.users) [] (start b url t)
unfolding start
started on b url t e n f a = record {
  state_lem = refl;
  abort_lem = a;
  filter_lem = f;
  author_lem = e;
  users_lem = refl;
  link_lem = n;
}

started-heard :
    (b : Boost) (url : Text) (t : TianyaContext)
    → t.log ≡ []
    → (heard (start b url t).log ≡ []) × (asked (start b url t).log ≡ [])
unfolding start
started-heard b url t l = (rw l refl, rw l refl)

-- The run from the start of an object that has collected nothing yet, with the filter on or off.
pub crawl-thread_chunks :
    (on : Bool) (b : Boost) (url : Text) (pages : List PageText) (last : List Part)
    (t : TianyaContext)
    → All (IsPage b) pages
    → AreParts b utf_8 last
    → t.posts ≡ []
    → t.log ≡ []
    → t.author ≡ []
    → t.next_page_url ≡ []
    → t.filter_reply ≡ on
    → t.abort ≡ false
    → ((crawl b (parser_url b url) (thread pages last) (start b url t)).posts
        ≡ kept (thread_chunks on b (unknown t.users) pages last))
      × (heard (crawl b (parser_url b url) (thread pages last) (start b url t)).log
          ≡ map some (said (thread_chunks on b (unknown t.users) pages last)) ++ none ∷ [])
      × (asked (crawl b (parser_url b url) (thread pages last) (start b url t)).log
          ≡ thread_requests b (parser_url b url) pages)
unfolding start
crawl-thread_chunks on b url pages last t vs v p l e n f a =
    let cs = thread_chunks on b (unknown t.users) pages last in
    let g =
      thread_run on b (unknown t.users) (parser_url b url) pages last (start b url t) vs v
        (started on b url t e n f a) in
    let (h, r) = started-heard b url t l in
    (
      g.posts_lem ∙ ap (λ x. x ++ kept cs) p,
      g.heard_lem ∙ ap (λ x. x ++ (map some (said cs) ++ none ∷ [])) h,
      g.asked_lem ∙ ap (λ x. x ++ thread_requests b (parser_url b url) pages) r,
    )

-- A whole post is downloaded from end to end: an object that has collected nothing yet, with the
-- filter off, is started on pages of posts, of lines with the author, the count of pages or the
-- character set, and of lines that say nothing, each page but the last with its two links, and is
-- not stopped. Then it has exactly the posts by the author, without tags, over all pages and in
-- their order; it has signalled these and then, once, its end; it has asked for the first page and
-- for what each second link leads to; and the file that it writes is a byte order mark and the posts.
pub crawl-thread :
    (b : Boost) (url : Text) (pages : List PageText) (last : List Part) (t : TianyaContext)
    → All (IsPage b) pages
    → AreParts b utf_8 last
    → t.posts ≡ []
    → t.log ≡ []
    → t.author ≡ []
    → t.next_page_url ≡ []
    → t.filter_reply ≡ false
    → t.abort ≡ false
    → ((crawl b (parser_url b url) (thread pages last) (start b url t)).posts
        ≡ thread_posts b [] pages last)
      × (heard (crawl b (parser_url b url) (thread pages last) (start b url t)).log
          ≡ map some (thread_posts b [] pages last) ++ none ∷ [])
      × (asked (crawl b (parser_url b url) (thread pages last) (start b url t)).log
          ≡ thread_requests b (parser_url b url) pages)
      × (serialize_to_file b (crawl b (parser_url b url) (thread pages last) (start b url t))
          ≡ 0xEF ∷ 0xBB ∷ 0xBF ∷ serialize b (thread_posts b [] pages last))
unfolding serialize_to_file
crawl-thread b url pages last t vs v p l e n f a =
    let (posts, signals, requests) =
      crawl-thread_chunks false b url pages last t vs v p l e n f a in
    let same = posts ∙ kept-thread_chunks b (unknown t.users) pages last in
    (
      same,
      signals
          ∙ ap (λ x. map some x ++ none ∷ []) (said-thread_chunks b (unknown t.users) pages last),
      requests,
      ap (λ x. 0xEF ∷ 0xBB ∷ 0xBF ∷ serialize b x) same,
    )
