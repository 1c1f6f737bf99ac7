-- ===== src/TianyaList/Session.antt =====
-- tianya_list::start, stop and process_handle: one connection for each page, read line by line. What
-- the sockets do, and when the window calls stop, is a list of events.
use tianya.Prelude.{true, false, ◌||◌, List, [], ◌∷◌, ◌++◌, if◌then◌else◌}
use tianya.Text.{Text, codes}
use tianya.Boost.{Boost}
use tianya.Util.{UrlInfo, parser_url}
use tianya.Http.{Opening, request}
use tianya.TianyaList.Machine.{
  TianyaList, Page, Turn, stays, leaves, throws, sent, closed, handle_line,
}

-- While a read of the next line is pending: stop is called, a line comes, or the read fails.
pub data Event : Type 0 where
  stop_called : Event
  line : Text → Event
  read_failed : Event

-- A run that still waits for a line, that returned, that returned behind the start of the next page,
-- or that an exception ended.
pub data Run : Type 0 where
  waiting : Page → Run
  returned : TianyaList → Run
  following : TianyaList → Run
  thrown : TianyaList → Run

unfoldable pub close : TianyaList → TianyaList
close t = record t { is_open = false; log = t.log ++ closed ∷ [] }

unfoldable pub stop : TianyaList → TianyaList
unfolding close
stop t = close (record t { abort = true })

-- What follows a line that has been handled: m_abort is tested before the next read.
unfoldable pub after_line : (Page → Run) → Turn → Run
after_line next (throws t) = thrown t
after_line next (leaves t) = following t
after_line next (stays q) = elim q.self.abort [ true ↦ returned q.self | false ↦ next q ]

-- The loop, from a pending read on.
unfoldable pub read_loop : Boost → Page → List Event → Run
unfolding stop after_line
read_loop b p [] = waiting p
read_loop b p (stop_called ∷ events) = read_loop b (record p { self = stop p.self }) events
read_loop b p (read_failed ∷ events) = returned (close p.self)
read_loop b p (line raw ∷ events) = after_line (λ q. read_loop b q events) (handle_line b raw p)

unfoldable pub send_request : UrlInfo → TianyaList → TianyaList
unfolding request
send_request ui t = record t { log = t.log ++ sent (request ui) ∷ [] }

-- The loop's first test of m_abort, on a page whose character set is not known yet.
unfoldable pub begin_page : Boost → List Event → TianyaList → Run
unfolding read_loop
begin_page b events t = elim t.abort [
  | true ↦ returned t
  | false ↦ read_loop b (record { self = t; chareset = codes "utf-8"; yield_time = 0 }) events
]

unfoldable pub process_handle : Boost → UrlInfo → Opening → List Event → TianyaList → Run
unfolding begin_page send_request
process_handle b ui o events t =
    if o.write_failed || o.header_failed
    then returned (close (send_request ui t))
    else begin_page b events (if o.stopped then stop (send_request ui t) else send_request ui t)

-- What becomes of the lookup and the connection that start asks for.
pub data Connection : Type 0 where
  resolve_failed : Connection
  connect_failed : Connection
  connected : Opening → List Event → Connection

-- A socket that is still open is closed before it is connected anew.
unfoldable pub reopen : TianyaList → TianyaList
reopen t = record (if t.is_open then close t else t) { is_open = true }

unfoldable pub after_page : (TianyaList → TianyaList) → Run → TianyaList
after_page next (waiting p) = p.self
after_page next (returned t) = t
after_page next (thrown t) = t
after_page next (following t) = next t

-- The pages in turn: each connection serves the address that start was given last.
unfoldable pub crawl : Boost → UrlInfo → List Connection → TianyaList → TianyaList
unfolding reopen process_handle after_page
crawl b ui [] t = t
crawl b ui (resolve_failed ∷ rest) t = t
crawl b ui (connect_failed ∷ rest) t = if t.is_open then close t else t
crawl b ui (connected o events ∷ rest) t =
    after_page (λ u. crawl b (parser_url b u.post_url) rest u)
      (process_handle b ui o events (reopen t))
