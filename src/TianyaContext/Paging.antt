-- ===== src/TianyaContext/Paging.antt =====
-- The links to the next page: the first on a page is passed over, the second is followed.
use tianya.Prelude.{
  ◌≡◌, refl, ◌∙◌, ap, Bool, true, false, ◌&&◌, ◌||◌, some, List, [], ◌∷◌, ◌++◌, if◌then◌else◌,
}
use tianya.Text.{Text, codes, contains, is_empty}
use tianya.Boost.{Boost}
use tianya.Util.{UrlInfo, parser_url, wide_utf8, get_chareset}
use tianya.Html.{first_quoted}
use tianya.Http.{Line, Reads, Opening}
use tianya.TianyaContext.Machine.{
  state_unkown, TianyaContext, Page, Scan, stays, follows, site, author_meta, start, next_page,
  scan_author, scan_content, scan_count, scan_next, on_unkown, dispatch, handle_line,
}
use tianya.TianyaContext.Session.{
  Event, line, returned, following, close, stop, after_line, read_loop, send_request, begin_page,
  process_handle, Connection, connected, reopen, after_page, crawl,
}
use tianya.TianyaContext.Post.{step}

-- A line with a link to the next page, and with nothing else that the reader looks for.
pub record IsLink (html : Text) : Type 0 where
  pub links : contains (codes "下页") html ≡ true
  pub no_chareset : contains (codes "meta charset=") html ≡ false
  pub no_author : contains author_meta html ≡ false
  pub no_content : contains (codes "<div class=\"bbs-content") html ≡ false
  pub no_count : contains (codes "pageCount :") html ≡ false

-- The events take the reader from one page to another, whatever follows them.
abbrev pub IsPassage : Boost → Page → List Event → Page → Type 0
IsPassage b p events q = (rest : List Event) → read_loop b p (events ++ rest) ≡ read_loop b q rest

and_false : (a c : Bool) → c ≡ false → (a && c) ≡ false
and_false true c h = h
and_false false c h = refl

pub scan_author_none :
    (b : Boost) (c : Scan) → contains author_meta c.html ≡ false → scan_author b c ≡ c
unfolding scan_author
scan_author_none b c h = rw (and_false (is_empty c.self.author) _ h) refl

pub scan_content_none :
    (c : Scan) → contains (codes "<div class=\"bbs-content") c.html ≡ false → scan_content c ≡ c
unfolding scan_content
scan_content_none c h = rw h refl

pub scan_count_none :
    (b : Boost) (c : Scan) → contains (codes "pageCount :") c.html ≡ false → scan_count b c ≡ c
unfolding scan_count
scan_count_none b c h = rw (and_false _ _ h) refl

on_unkown_link :
    (b : Boost) (l : Line) (p : Page)
    → IsLink l.html
    → on_unkown b l.raw l.html p ≡ scan_next b p.chareset (record { html = l.html; self = p.self })
unfolding on_unkown
on_unkown_link b l p k =
    let c : Scan = record { html = l.html; self = p.self } in
    let ch = if contains (codes "meta charset=") l.html then get_chareset b l.raw else p.chareset in
    let same : ch ≡ p.chareset = rw (k.no_chareset) refl in
    ap (λ x. scan_next b ch (scan_count b (scan_content x))) (scan_author_none b c k.no_author)
    ∙ ap (λ x. scan_next b ch (scan_count b x)) (scan_content_none c k.no_content)
    ∙ ap (scan_next b ch) (scan_count_none b c k.no_count)
    ∙ ap (λ x. scan_next b x c) same

-- The page when its first link has been passed over.
abbrev pub passed : Page → Page
passed p = record p { self = record (p.self) { next_page_url = codes "skip" } }

pub scan_first :
    (b : Boost) (l : Line) (p : Page)
    → contains (codes "下页") l.html ≡ true
    → p.self.next_page_url ≡ []
    → scan_next b p.chareset (record { html = l.html; self = p.self }) ≡ stays (passed p)
unfolding scan_next is_empty
scan_first b l p h e = rw h (rw e refl)

scan_second :
    (b : Boost) (l : Line) (p : Page) (path : Text)
    → contains (codes "下页") l.html ≡ true
    → p.self.next_page_url ≡ codes "skip"
    → first_quoted l.html ≡ some path
    → scan_next b p.chareset (record { html = l.html; self = p.self })
      ≡ follows (next_page b (wide_utf8 b (site ++ b.trim path)) p.self)
unfolding scan_next is_empty
scan_second b l p path h e f = rw h (rw e (rw f refl))

pub dispatch_link :
    (b : Boost) (l : Line) (p : Page)
    → p.self.state ≡ state_unkown
    → IsLink l.html
    → dispatch b p.self.state l.raw l.html p
      ≡ scan_next b p.chareset (record { html = l.html; self = p.self })
dispatch_link b l p s k =
    ap (λ x. dispatch b x l.raw l.html p) s ∙ (unfold dispatch in on_unkown_link b l p k)

pub follow_link :
    (b : Boost) (l : Line) (p : Page) (path : Text) (rest : List Event)
    → p.self.state ≡ state_unkown
    → IsLink l.html
    → Reads b p.chareset l
    → p.self.next_page_url ≡ codes "skip"
    → first_quoted l.html ≡ some path
    → read_loop b p (line l.raw ∷ rest)
      ≡ following (next_page b (wide_utf8 b (site ++ b.trim path)) p.self)
unfolding read_loop handle_line after_line
follow_link b l p path rest s k r n f =
    rw (r, handle_line)
      (ap (after_line (λ q. read_loop b q rest))
        (dispatch_link b l p s k ∙ scan_second b l p path k.links n f))

-- A page whose lines hold two links to the next page, with other lines before the first and between
-- the two that the reader gets through.
pub record TwoLinks (b : Boost) (p : Page) : Type 0 where
  pub lead : List Event
  pub at_first : Page
  pub leads : IsPassage b p lead at_first
  pub first : Line
  pub first_link : IsLink first.html
  pub first_reads : Reads b at_first.chareset first
  pub first_state : at_first.self.state ≡ state_unkown
  pub no_link_yet : at_first.self.next_page_url ≡ []
  pub goes_on : at_first.self.abort ≡ false
  pub between : List Event
  pub at_second : Page
  pub passes : IsPassage b (passed at_first) between at_second
  pub second : Line
  pub second_link : IsLink second.html
  pub second_reads : Reads b at_second.chareset second
  pub second_state : at_second.self.state ≡ state_unkown
  pub one_link : at_second.self.next_page_url ≡ codes "skip"
  pub path : Text
  pub quoted : first_quoted second.html ≡ some path

abbrev pub page_events : (b : Boost) (p : Page) → TwoLinks b p → List Event → List Event
page_events b p k rest = k.lead ++ line k.first.raw ∷ (k.between ++ line k.second.raw ∷ rest)

abbrev pub next_url : (b : Boost) (p : Page) → TwoLinks b p → Text
next_url b p k = wide_utf8 b (site ++ b.trim k.path)

read_loop-page_events :
    (b : Boost) (p : Page) (k : TwoLinks b p) (rest : List Event)
    → read_loop b p (page_events b p k rest)
      ≡ following (next_page b (next_url b p k) k.at_second.self)
read_loop-page_events b p k rest =
    let more = k.between ++ line k.second.raw ∷ rest in
    let q = k.at_first in
    k.leads (line k.first.raw ∷ more)
    ∙ step b q (passed q) k.first more k.first_reads
        (dispatch_link b k.first q k.first_state k.first_link
          ∙ scan_first b k.first q k.first_link.links k.no_link_yet)
        k.goes_on
    ∙ k.passes (line k.second.raw ∷ rest)
    ∙ follow_link b k.second k.at_second k.path rest k.second_state k.second_link k.second_reads
        k.one_link k.quoted

-- The page as its first line is waited for.
abbrev pub opened : UrlInfo → TianyaContext → Page
opened ui t = record { self = send_request ui (reopen t); chareset = codes "utf-8" }

-- A page whose header comes, with no stop until then, is read line by line.
pub process_handle_reads :
    (b : Boost) (ui : UrlInfo) (o : Opening) (events : List Event) (t : TianyaContext)
    → (o.write_failed || o.header_failed) ≡ false
    → o.stopped ≡ false
    → (send_request ui t).abort ≡ false
    → process_handle b ui o events t
      ≡ read_loop b (record { self = send_request ui t; chareset = codes "utf-8" }) events
unfolding process_handle begin_page
process_handle_reads b ui o events t f s a =
    let u = send_request ui t in
    let read = read_loop b (record { self = u; chareset = codes "utf-8" }) events in
    ap
      (λ c. if c then returned (close u) else begin_page b events (if o.stopped then stop u else u))
      f
    ∙ ap (λ c. begin_page b events (if c then stop u else u)) s
    ∙ ap (λ c. if c then returned u else read) a

-- When a page comes through with two links to the next page, the first is passed over. At the second
-- the download goes on, on the next connection, with the address behind its first quotation mark,
-- and with what it had collected up to there; what the page has behind that link is not read.
pub crawl-page_events :
    (b : Boost) (ui : UrlInfo) (o : Opening) (rest : List Event) (cs : List Connection)
    (t : TianyaContext) (k : TwoLinks b (opened ui t))
    → (o.write_failed || o.header_failed) ≡ false
    → o.stopped ≡ false
    → (send_request ui (reopen t)).abort ≡ false
    → crawl b ui (connected o (page_events b (opened ui t) k rest) ∷ cs) t
      ≡ crawl b
          (parser_url b (next_url b (opened ui t) k))
          cs
          (next_page b (next_url b (opened ui t) k) k.at_second.self)
unfolding crawl after_page next_page start
crawl-page_events b ui o rest cs t k f s a =
    ap (after_page (λ u. crawl b (parser_url b u.post_url) cs u)) (
      process_handle_reads b ui o (page_events b (opened ui t) k rest) (reopen t) f s a
      ∙ read_loop-page_events b (opened ui t) k rest)
