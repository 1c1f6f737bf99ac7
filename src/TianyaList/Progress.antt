-- ===== src/TianyaList/Progress.antt =====
-- How many lines a row costs, over a whole run.
use mathlib.Core.List.{append-nil}
use tianya.Prelude.{
  ℕ, suc, ◌+◌, ◌*◌, ◌≤◌, ◌≡◌, refl, ◌∙◌, ap, Bool, true, false, ◌||◌, List, [], ◌∷◌, ◌++◌, arith,
  inl, inr, Bool-cases, if◌then◌else◌, length, length-append,
}
use tianya.Text.{codes}
use tianya.Boost.{Boost}
use tianya.Util.{UrlInfo, parser_url}
use tianya.Http.{Opening, request}
use tianya.TianyaList.Info.{ListInfo}
use tianya.TianyaList.Machine.{
  state_time, TianyaList, Page, Turn, stays, leaves, throws, Effect, closed, sent, hit_item_fetched,
  add_item, handle_line,
}
use tianya.TianyaList.Session.{
  Event, stop_called, line, read_failed, Run, waiting, returned, following, thrown, close, stop,
  after_line, after_page, send_request, begin_page, read_loop, process_handle, Connection,
  resolve_failed, connect_failed, connected, reopen, crawl,
}
use tianya.TianyaList.Change.{
  fetched, fetched-append, phase, Change, same, added, turn_self, handle_line-Change,
}
use tianya.TianyaList.Invariant.{run_self}

-- The lines that the rows and the row under way have taken.
abbrev pub effort : TianyaList → ℕ
effort t = 11 * length (fetched t.log) + phase t.state

abbrev pub lines_of : List Event → ℕ
lines_of [] = 0
lines_of (line raw ∷ events) = suc (lines_of events)
lines_of (stop_called ∷ events) = lines_of events
lines_of (read_failed ∷ events) = lines_of events

abbrev pub lines_in : List Connection → ℕ
lines_in [] = 0
lines_in (connected o events ∷ cs) = lines_of events + lines_in cs
lines_in (resolve_failed ∷ cs) = lines_in cs
lines_in (connect_failed ∷ cs) = lines_in cs

effort-add_item :
    (i : ListInfo) (t : TianyaList) → t.state ≡ state_time → effort (add_item i t) ≡ suc (effort t)
unfolding add_item
effort-add_item i t e = rw e (
    omega (
      arith,
      ap length (fetched-append t.log (hit_item_fetched i ∷ [])),
      length-append {0} (fetched t.log) (i ∷ []),
    ))

-- A line moves a row on by one step at most.
Change-effort : (t u : TianyaList) → Change t u → effort u ≤ suc (effort t)
Change-effort t u (same s) = omega (arith, ap length s.signals, s.advance)
Change-effort t u (added i e st) = rw e (omega (arith, effort-add_item i t st))

quiet :
    (log : List Effect) (e : Effect) → fetched (e ∷ []) ≡ [] → fetched (log ++ e ∷ []) ≡ fetched log
quiet log e h =
    fetched-append log (e ∷ []) ∙ ap (λ l. fetched log ++ l) h ∙ append-nil (fetched log)

effort-close : (t : TianyaList) → effort (close t) ≡ effort t
unfolding close
effort-close t = omega (arith, ap length (quiet t.log closed refl))

effort-stop : (t : TianyaList) → effort (stop t) ≡ effort t
unfolding stop close
effort-stop t = omega (arith, ap length (quiet t.log closed refl))

effort-send_request : (ui : UrlInfo) (t : TianyaList) → effort (send_request ui t) ≡ effort t
unfolding send_request
effort-send_request ui t = omega (arith, ap length (quiet t.log (sent (request ui)) refl))

effort-if :
    (c : Bool) (t u : TianyaList) → effort t ≡ effort u → effort (if c then t else u) ≡ effort u
effort-if true t u h = h
effort-if false t u h = refl

effort-reopen : (t : TianyaList) → effort (reopen t) ≡ effort t
unfolding reopen
effort-reopen t = effort-if t.is_open (close t) t (effort-close t)

after_line-effort :
    (next : Page → Run) (turn : Turn) (n k : ℕ)
    → ((q : Page) → effort (run_self (next q)) ≤ effort q.self + k)
    → effort (turn_self turn) ≤ n
    → effort (run_self (after_line next turn)) ≤ n + k
unfolding after_line
after_line-effort next (throws t) n k more h = omega arith
after_line-effort next (leaves t) n k more h = omega arith
after_line-effort next (stays q) n k more h = elim (Bool-cases q.self.abort) [
  | inl e ↦ rw (e, after_line) (omega arith)
  | inr e ↦ rw (e, after_line) (omega (arith, more q))
]

read_loop-effort :
    (b : Boost) (p : Page) (events : List Event)
    → effort (run_self (read_loop b p events)) ≤ effort p.self + lines_of events
unfolding read_loop
read_loop-effort b p [] = omega arith
read_loop-effort b p (stop_called ∷ events) =
    omega (arith, effort-stop p.self, read_loop-effort b (record p { self = stop p.self }) events)
read_loop-effort b p (read_failed ∷ events) = omega (arith, effort-close p.self)
read_loop-effort b p (line raw ∷ events) = omega (
  arith,
  after_line-effort (λ q. read_loop b q events) (handle_line b raw p) (suc (effort p.self))
      (lines_of events) (λ q. read_loop-effort b q events)
      (Change-effort p.self _ (handle_line-Change b raw p)),
)

begin_page-effort :
    (b : Boost) (events : List Event) (t : TianyaList)
    → effort (run_self (begin_page b events t)) ≤ effort t + lines_of events
unfolding begin_page
begin_page-effort b events t = elim (Bool-cases t.abort) [
  | inl e ↦ rw (e, begin_page) (omega arith)
  | inr e ↦
      rw (e, begin_page)
        (read_loop-effort b (record { self = t; chareset = codes "utf-8"; yield_time = 0 }) events)
]

process_handle-effort :
    (b : Boost) (ui : UrlInfo) (o : Opening) (events : List Event) (t : TianyaList)
    → effort (run_self (process_handle b ui o events t)) ≤ effort t + lines_of events
unfolding process_handle
process_handle-effort b ui o events t = elim (Bool-cases (o.write_failed || o.header_failed)) [
  | inl e ↦
      rw (e, process_handle)
        (omega (arith, effort-close (send_request ui t), effort-send_request ui t))
  | inr e ↦
      rw (e, process_handle)
        (omega (
          arith,
          begin_page-effort b events
              (if o.stopped then stop (send_request ui t) else send_request ui t),
          effort-if o.stopped (stop (send_request ui t)) (send_request ui t)
              (effort-stop (send_request ui t)),
          effort-send_request ui t,
        ))
]

after_page-effort :
    (next : TianyaList → TianyaList) (run : Run) (n k : ℕ)
    → ((u : TianyaList) → effort (next u) ≤ effort u + k)
    → effort (run_self run) ≤ n
    → effort (after_page next run) ≤ n + k
unfolding after_page
after_page-effort next (waiting p) n k more h = omega arith
after_page-effort next (returned t) n k more h = omega arith
after_page-effort next (thrown t) n k more h = omega arith
after_page-effort next (following t) n k more h = omega (arith, more t)

-- No run is faster than one row in eleven lines: eleven times the number of rows signalled, with the
-- step that the row under way has reached, grows by no more than the number of lines that came in.
pub crawl-effort :
    (b : Boost) (ui : UrlInfo) (cs : List Connection) (t : TianyaList)
    → effort (crawl b ui cs t) ≤ effort t + lines_in cs
unfolding crawl
crawl-effort b ui [] t = omega arith
crawl-effort b ui (resolve_failed ∷ cs) t = omega arith
crawl-effort b ui (connect_failed ∷ cs) t =
    omega (arith, effort-if t.is_open (close t) t (effort-close t))
crawl-effort b ui (connected o events ∷ cs) t = omega (
  arith,
  after_page-effort (λ u. crawl b (parser_url b u.post_url) cs u)
      (process_handle b ui o events (reopen t)) (effort t + lines_of events) (lines_in cs)
      (λ u. crawl-effort b (parser_url b u.post_url) cs u)
      (omega (arith, process_handle-effort b ui o events (reopen t), effort-reopen t)),
)
