-- ===== src/TianyaList/Board/Whole.antt =====
-- The connections over which tianya_list reads a whole board, page after page.
use mathlib.Core.List.{append-nil}
use tianya.Prelude.{◌≡◌, refl, ◌∙◌, true, false, List, [], ◌∷◌, ◌++◌, All, Bool, if◌then◌else◌}
use tianya.Text.{Text, codes}
use tianya.Boost.{Boost}
use tianya.Util.{UrlInfo, parser_url}
use tianya.Http.{Opening, request}
use tianya.TianyaList.Info.{ListInfo}
use tianya.TianyaList.Machine.{
  TianyaList, sent, closed, state_unkown, Page, mark_found, next_page, start,
}
use tianya.TianyaList.Session.{
  Event, read_failed, line, read_loop, Connection, connected, crawl, close, process_handle,
  begin_page, send_request, reopen, after_page,
}
use tianya.TianyaList.Change.{fetched}
use tianya.TianyaList.Board.{Part, parts_events, items_of, AreParts, parts_page, parts_run}
use tianya.TianyaList.Board.Pages.{
  asked, Gains, gains-trans, gains-nil, gains-append, parts_page-Gains, parts_page-chareset,
  PageText, IsPage, next_url, mark_found-Gains, link_turn,
}

-- A connection that brings a page.
abbrev pub well : Opening
well = record { write_failed = false; header_failed = false; stopped = false }

-- The connections of a board: pages with a link to the next, and the last one, at whose end the
-- server closes.
abbrev pub board : List PageText → List Part → List Connection
board [] last = connected well (parts_events last (read_failed ∷ [])) ∷ []
board (g ∷ pages) last =
    connected well (parts_events g.parts (line g.link.raw ∷ g.unread)) ∷ board pages last

abbrev pub board_items : Boost → List PageText → List Part → List ListInfo
board_items b [] last = items_of b last
board_items b (g ∷ pages) last = items_of b g.parts ++ board_items b pages last

-- A request for the first page and one for what each link leads to.
abbrev pub board_requests : Boost → UrlInfo → List PageText → List Text
board_requests b ui [] = request ui ∷ []
board_requests b ui (g ∷ pages) = request ui ∷ board_requests b (parser_url b (next_url b g)) pages

abbrev opened : UrlInfo → TianyaList → Page
opened ui t = record { self = send_request ui (reopen t); chareset = codes "utf-8"; yield_time = 0 }

reopened-Gains :
    (is_open : Bool) (t : TianyaList)
    → t.state ≡ state_unkown
    → t.abort ≡ false
    → Gains t (record (if is_open then close t else t) { is_open = true }) [] []
unfolding close
reopened-Gains true t s a = gains-append t _ (closed ∷ []) refl s a
reopened-Gains false t s a = gains-append t _ [] (rw append-nil) s a

opened-Gains :
    (ui : UrlInfo) (t : TianyaList)
    → t.state ≡ state_unkown
    → t.abort ≡ false
    → Gains t (opened ui t).self [] (request ui ∷ [])
unfolding reopen send_request
opened-Gains ui t s a =
    let g = reopened-Gains t.is_open t s a in
    gains-trans t (reopen t) _ [] [] [] (request ui ∷ []) g (
      gains-append (reopen t) (send_request ui (reopen t)) (sent (request ui) ∷ []) refl g.state_lem
        g.abort_lem)

process_handle-well :
    (b : Boost) (ui : UrlInfo) (events : List Event) (t : TianyaList)
    → t.state ≡ state_unkown
    → t.abort ≡ false
    → process_handle b ui well events (reopen t) ≡ read_loop b (opened ui t) events
unfolding process_handle begin_page
process_handle-well b ui events t s a = rw (opened-Gains ui t s a).abort_lem

-- The parts of a page, on a connection of their own.
page_run :
    (b : Boost) (ui : UrlInfo) (parts : List Part) (rest : List Event) (t : TianyaList)
    → AreParts b (codes "utf-8") parts
    → t.state ≡ state_unkown
    → t.abort ≡ false
    → process_handle b ui well (parts_events parts rest) (reopen t)
      ≡ read_loop b (parts_page b parts (opened ui t)) rest
page_run b ui parts rest t v s a =
    process_handle-well b ui _ t s a
    ∙ parts_run b parts (opened ui t) rest v (opened-Gains ui t s a).state_lem
        (opened-Gains ui t s a).abort_lem

page-Gains :
    (b : Boost) (ui : UrlInfo) (parts : List Part) (t : TianyaList)
    → t.state ≡ state_unkown
    → t.abort ≡ false
    → Gains t (parts_page b parts (opened ui t)).self (items_of b parts) (request ui ∷ [])
page-Gains b ui parts t s a =
    let o = opened-Gains ui t s a in
    gains-trans t (opened ui t).self _ [] (items_of b parts) (request ui ∷ []) [] o
      (parts_page-Gains b parts (opened ui t) o.state_lem o.abort_lem)

close-Gains :
    (t u : TianyaList) (is : List ListInfo) (qs : List Text)
    → Gains t u is qs
    → Gains t (close u) is qs
unfolding close
close-Gains t u is qs g =
    gains-nil t u (close u) is qs g
      (gains-append u (close u) (closed ∷ []) refl g.state_lem g.abort_lem)

-- The last page: its parts, and then the end of the input.
last_page :
    (b : Boost) (ui : UrlInfo) (last : List Part) (t : TianyaList)
    → AreParts b (codes "utf-8") last
    → t.state ≡ state_unkown
    → t.abort ≡ false
    → Gains t (crawl b ui (board [] last) t) (items_of b last) (request ui ∷ [])
unfolding crawl after_page read_loop
last_page b ui last t v s a =
    rw (page_run b ui last (read_failed ∷ []) t v s a, after_page)
      (close-Gains t _ _ _ (page-Gains b ui last t s a))

-- A page with a link: its parts, and then the pages from the link on.
linked_page :
    (b : Boost) (ui : UrlInfo) (g : PageText) (rest : List Connection) (t : TianyaList)
    → IsPage b g
    → t.state ≡ state_unkown
    → t.abort ≡ false
    → (u : TianyaList) × Gains t u (items_of b g.parts) (request ui ∷ [])
      × (crawl b ui (connected well (parts_events g.parts (line g.link.raw ∷ g.unread)) ∷ rest) t
          ≡ crawl b (parser_url b (next_url b g)) rest u)
unfolding crawl after_page next_page start
linked_page b ui g rest t v s a =
    let p = parts_page b g.parts (opened ui t) in
    let u = next_page b (next_url b g) (mark_found g.link.html p).self in
    let q = page-Gains b ui g.parts t s a in
    (
      u,
      gains-nil t p.self u _ _ q (mark_found-Gains b (next_url b g) g.link.html p q.abort_lem),
      (rw
          (
            page_run b ui g.parts (line g.link.raw ∷ g.unread) t v.parts_lem s a
                ∙ link_turn b g p g.unread v q.state_lem
                    (rw (parts_page-chareset b g.parts (opened ui t)) v.link_reads),
            after_page,
          )
          refl),
    )

board-Gains :
    (b : Boost) (ui : UrlInfo) (pages : List PageText) (last : List Part) (t : TianyaList)
    → All (IsPage b) pages
    → AreParts b (codes "utf-8") last
    → t.state ≡ state_unkown
    → t.abort ≡ false
    → Gains t
        (crawl b ui (board pages last) t)
        (board_items b pages last)
        (board_requests b ui pages)
board-Gains b ui [] last t vs v s a = last_page b ui last t v s a
board-Gains b ui (g ∷ pages) last t (w, ws) v s a =
    let (u, q, e) = linked_page b ui g (board pages last) t w s a in
    rw e (
      gains-trans t u _ _ _ (request ui ∷ []) _ q
        (board-Gains b (parser_url b (next_url b g)) pages last u ws v q.state_lem q.abort_lem))

-- A board is read from end to end: from the state between rows, not stopped, over pages of rows and
-- of lines that say nothing, the character set named wherever it may be, each page with the link to
-- the next behind its rows, and a last page without one, the reader signals exactly the items that
-- the rows describe, in their order, and asks for the first page and for what each link leads to,
-- once each and in this order.
pub crawl-board :
    (b : Boost) (ui : UrlInfo) (pages : List PageText) (last : List Part) (t : TianyaList)
    → All (IsPage b) pages
    → AreParts b (codes "utf-8") last
    → t.state ≡ state_unkown
    → t.abort ≡ false
    → (fetched (crawl b ui (board pages last) t).log ≡ fetched t.log ++ board_items b pages last)
      × (asked (crawl b ui (board pages last) t).log ≡ asked t.log ++ board_requests b ui pages)
crawl-board b ui pages last t vs v s a =
    let g = board-Gains b ui pages last t vs v s a in (g.rows, g.requests_lem)
