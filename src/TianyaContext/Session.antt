-- ===== src/TianyaContext/Session.antt =====
-- tianya_context::start, stop and process_handle: one connection for each page, read line by line.
-- What the sockets do, and when stop or filter_reply is called, is a list of events.
use tianya.Prelude.{Bool, true, false, ◌||◌, List, [], ◌∷◌, ◌++◌, if◌then◌else◌}
use tianya.Text.{Text, codes}
use tianya.Boost.{Boost}
use tianya.Util.{UrlInfo, parser_url, wide_utf8}
use tianya.Http.{Opening, request}
use tianya.TianyaContext.Machine.{
  TianyaContext, Page, Turn, stays, follows, throws, sent, closed, download_complete, handle_line,
}

-- While a read of the next line is pending: stop is called, the filter is set, a line comes, or the
-- read fails, as it does at the end of a page.
pub data Event : Type 0 where
  stop_called : Event
  filter_set : Bool → Event
  line : Text → Event
  read_failed : Event

-- A run that still waits for a line, that returned false, that returned true behind the start of the
-- next page, or that an exception ended.
pub data Run : Type 0 where
  waiting : Page → Run
  returned : TianyaContext → Run
  following : TianyaContext → Run
  thrown : TianyaContext → Run

unfoldable pub close : TianyaContext → TianyaContext
close t = record t { is_open = false; log = t.log ++ closed ∷ [] }

unfoldable pub stop : TianyaContext → TianyaContext
unfolding close
stop t = close (record t { abort = true })

unfoldable pub set_filter : Bool → TianyaContext → TianyaContext
set_filter v t = record t { filter_reply = v }

-- What follows a line that has been handled: m_abort is tested before the next read.
unfoldable pub after_line : (Page → Run) → Turn → Run
after_line next (throws t) = thrown t
after_line next (follows t) = following t
after_line next (stays q) = elim q.self.abort [ true ↦ returned q.self | false ↦ next q ]

-- The loop, from a pending read on.
unfoldable pub read_loop : Boost → Page → List Event → Run
unfolding stop set_filter after_line
read_loop b p [] = waiting p
read_loop b p (stop_called ∷ events) = read_loop b (record p { self = stop p.self }) events
read_loop b p (filter_set v ∷ events) = read_loop b (record p { self = set_filter v p.self }) events
read_loop b p (read_failed ∷ events) = returned (close p.self)
read_loop b p (line raw ∷ events) = after_line (λ q. read_loop b q events) (handle_line b raw p)

unfoldable pub send_request : UrlInfo → TianyaContext → TianyaContext
send_request ui t = record t { log = t.log ++ sent (request ui) ∷ [] }

-- The loop's first test of m_abort, on a page whose character set is not known yet.
unfoldable pub begin_page : Boost → List Event → TianyaContext → Run
unfolding read_loop
begin_page b events t =
    if t.abort
    then returned t
    else read_loop b (record { self = t; chareset = codes "utf-8" }) events

unfoldable pub process_handle : Boost → UrlInfo → Opening → List Event → TianyaContext → Run
unfolding begin_page send_request
process_handle b ui o events t =
    if o.write_failed || o.header_failed
    then returned (close (send_request ui t))
    else begin_page b events (if o.stopped then stop (send_request ui t) else send_request ui t)

-- What becomes of the lookup and the connection that start asks for.
pub data Connection : Type 0 where
  resolve_failed : Connection
  connect_failed : Connection
  connected : Opening → List Event → Connection

-- A socket that is still open is closed before it is connected anew.
unfoldable pub reopen : TianyaContext → TianyaContext
reopen t = record (if t.is_open then close t else t) { is_open = true }

-- m_download_complete, when process_handle has returned false.
unfoldable pub complete : TianyaContext → TianyaContext
complete t = record t { log = t.log ++ download_complete ∷ [] }

unfoldable pub after_page : (TianyaContext → TianyaContext) → Run → TianyaContext
unfolding complete
after_page next (waiting p) = p.self
after_page next (returned t) = complete t
after_page next (thrown t) = t
after_page next (following t) = next t

-- The pages in turn: each connection serves the address that start was given last.
unfoldable pub crawl : Boost → UrlInfo → List Connection → TianyaContext → TianyaContext
unfolding reopen process_handle after_page
crawl b ui [] t = t
crawl b ui (resolve_failed ∷ rest) t = t
crawl b ui (connect_failed ∷ rest) t = if t.is_open then close t else t
crawl b ui (connected o events ∷ rest) t =
    after_page (λ u. crawl b (parser_url b u.post_url) rest u)
      (process_handle b ui o events (reopen t))

-- serialize_to_stream and serialize_to_io_device: the posts in their order, as UTF-8.
unfoldable pub serialize : Boost → List Text → Text
serialize b [] = []
serialize b (item ∷ items) = wide_utf8 b item ++ serialize b items

-- What serialize_to_file writes to a file that opens: a byte order mark and the posts.
unfoldable pub serialize_to_file : Boost → TianyaContext → Text
unfolding serialize
serialize_to_file b t = 0xEF ∷ 0xBB ∷ 0xBF ∷ serialize b t.posts
