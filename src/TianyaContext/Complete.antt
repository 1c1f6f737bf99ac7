-- ===== src/TianyaContext/Complete.antt =====
-- The runs of a download: what they add, and when its end is signalled.
use tianya.Prelude.{
  ◌≡◌, refl, Bool, true, false, ◌||◌, List, [], ◌∷◌, if◌then◌else◌, inl, inr, Bool-cases,
}
use tianya.Text.{codes}
use tianya.Boost.{Boost}
use tianya.Util.{UrlInfo, parser_url}
use tianya.Http.{Opening, request}
use tianya.TianyaContext.Machine.{
  TianyaContext, Page, Turn, stays, follows, throws, sent, closed, handle_line,
}
use tianya.TianyaContext.Session.{
  Event, stop_called, filter_set, line, read_failed, Run, waiting, returned, following, thrown,
  close, stop, set_filter, after_line, read_loop, send_request, begin_page, process_handle,
  Connection, resolve_failed, connect_failed, connected, reopen, complete, after_page, crawl,
}
use tianya.TianyaContext.Grows.{Grows, still, emits, Grows-refl, Grows-trans, if_Grows}
use tianya.TianyaContext.Collect.{turn_self, run_self, handle_line-Grows}

close-Grows : (t : TianyaContext) → Grows t (close t)
unfolding close
close-Grows t = emits t _ closed refl refl refl refl refl refl

stop-Grows : (t : TianyaContext) → Grows t (stop t)
unfolding stop close
stop-Grows t = emits t _ closed refl refl refl refl refl refl

set_filter-Grows : (v : Bool) (t : TianyaContext) → Grows t (set_filter v t)
unfolding set_filter
set_filter-Grows v t = still t _ refl refl (λ _. refl) (λ _. refl)

send_request-Grows : (ui : UrlInfo) (t : TianyaContext) → Grows t (send_request ui t)
unfolding send_request
send_request-Grows ui t = emits t _ (sent (request ui)) refl refl refl refl refl refl

reopen-Grows : (t : TianyaContext) → Grows t (reopen t)
unfolding reopen
reopen-Grows t =
    Grows-trans (if_Grows t.is_open t (close t) t (close-Grows t) (Grows-refl t))
      (still (if t.is_open then close t else t) _ refl refl (λ _. refl) (λ _. refl))

after_line-Grows :
    (t : TianyaContext) (next : Page → Run) (turn : Turn)
    → ((q : Page) → Grows q.self (run_self (next q)))
    → Grows t (turn_self turn)
    → Grows t (run_self (after_line next turn))
unfolding after_line
after_line-Grows t next (throws u) more g = g
after_line-Grows t next (follows u) more g = g
after_line-Grows t next (stays q) more g = elim (Bool-cases q.self.abort) [
  | inl e ↦ rw (e, after_line) g
  | inr e ↦ rw (e, after_line) (Grows-trans g (more q))
]

read_loop-Grows :
    (b : Boost) (p : Page) (events : List Event) → Grows p.self (run_self (read_loop b p events))
unfolding read_loop
read_loop-Grows b p [] = Grows-refl p.self
read_loop-Grows b p (stop_called ∷ events) =
    Grows-trans (stop-Grows p.self) (read_loop-Grows b (record p { self = stop p.self }) events)
read_loop-Grows b p (filter_set v ∷ events) =
    Grows-trans (set_filter-Grows v p.self)
      (read_loop-Grows b (record p { self = set_filter v p.self }) events)
read_loop-Grows b p (read_failed ∷ events) = close-Grows p.self
read_loop-Grows b p (line raw ∷ events) =
    after_line-Grows p.self (λ q. read_loop b q events) (handle_line b raw p)
      (λ q. read_loop-Grows b q events) (handle_line-Grows b raw p)

if_run-Grows :
    (c : Bool) (t : TianyaContext) (r s : Run)
    → Grows t (run_self r)
    → Grows t (run_self s)
    → Grows t (run_self (if c then r else s))
if_run-Grows true t r s g h = g
if_run-Grows false t r s g h = h

begin_page-Grows :
    (b : Boost) (events : List Event) (t : TianyaContext)
    → Grows t (run_self (begin_page b events t))
unfolding begin_page
begin_page-Grows b events t =
    if_run-Grows t.abort t (returned t) _ (Grows-refl t)
      (read_loop-Grows b (record { self = t; chareset = codes "utf-8" }) events)

process_handle-Grows :
    (b : Boost) (ui : UrlInfo) (o : Opening) (events : List Event) (t : TianyaContext)
    → Grows t (run_self (process_handle b ui o events t))
unfolding process_handle
process_handle-Grows b ui o events t =
    let s = send_request-Grows ui t in
    elim (Bool-cases (o.write_failed || o.header_failed)) [
      | inl e ↦ rw (e, process_handle) (Grows-trans s (close-Grows (send_request ui t)))
      | inr e ↦
          rw (e, process_handle)
            (Grows-trans
              (if_Grows o.stopped t (stop (send_request ui t)) (send_request ui t)
                (Grows-trans s (stop-Grows (send_request ui t))) s)
              (begin_page-Grows b events _))
    ]

-- How a download can stand: under way or broken off, with no end signalled; or ended, the signal of
-- the end being the last effect and the only one of its kind.
pub data Progress (t u : TianyaContext) : Type 0 where
  unfinished : Grows t u → Progress t u
  finished : (v : TianyaContext) → Grows t v → u ≡ complete v → Progress t u

Progress-later : {t u v : TianyaContext} → Grows t u → Progress u v → Progress t v
Progress-later g (unfinished h) = unfinished (Grows-trans g h)
Progress-later g (finished w h e) = finished w (Grows-trans g h) e

after_page-Progress :
    (t : TianyaContext) (next : TianyaContext → TianyaContext) (run : Run)
    → ((u : TianyaContext) → Progress u (next u))
    → Grows t (run_self run)
    → Progress t (after_page next run)
unfolding after_page
after_page-Progress t next (waiting p) more g = unfinished g
after_page-Progress t next (returned u) more g = finished u g refl
after_page-Progress t next (thrown u) more g = unfinished g
after_page-Progress t next (following u) more g = Progress-later g (more u)

-- Whatever the pages hold, however the connections fail and whenever stop or filter_reply is called,
-- a download keeps all posts and effects that it had; the posts it adds are, in their order, among
-- those that it signals; an author or a page count once found is not changed; and the end is
-- signalled at most once, after everything else.
pub crawl-Progress :
    (b : Boost) (ui : UrlInfo) (cs : List Connection) (t : TianyaContext)
    → Progress t (crawl b ui cs t)
unfolding crawl
crawl-Progress b ui [] t = unfinished (Grows-refl t)
crawl-Progress b ui (resolve_failed ∷ rest) t = unfinished (Grows-refl t)
crawl-Progress b ui (connect_failed ∷ rest) t =
    unfinished (if_Grows t.is_open t (close t) t (close-Grows t) (Grows-refl t))
crawl-Progress b ui (connected o events ∷ rest) t =
    after_page-Progress t (λ u. crawl b (parser_url b u.post_url) rest u)
      (process_handle b ui o events (reopen t))
      (λ u. crawl-Progress b (parser_url b u.post_url) rest u)
      (Grows-trans (reopen-Grows t) (process_handle-Grows b ui o events (reopen t)))
