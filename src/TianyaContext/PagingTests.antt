-- ===== src/TianyaContext/PagingTests.antt =====
-- A page with a post between its two links to the next page.
use tianya.Prelude.{arith, ◌≡◌, refl, false, List, [], ◌∷◌, ◌++◌}
use tianya.Text.{codes, contains, equal, is_empty}
use tianya.Util.{put_int, no_url, parser_url, ansi_wide}
use tianya.Html.{first_quoted, strip_tags}
use tianya.Http.{Line}
use tianya.Sample.{plain}
use tianya.TianyaContext.Machine.{
  state_unkown, TianyaContext, Page, one_content_fetched, next_page, handle_line,
}
use tianya.TianyaContext.Session.{
  Event, line, read_failed, resolve_failed, connected, crawl, read_loop, send_request, reopen,
  close,
}
use tianya.TianyaContext.Count.{TellsCount, counted, read_loop-count_text}
use tianya.TianyaContext.Paging.{IsLink, TwoLinks, page_events, next_url, opened, crawl-page_events}
use tianya.TianyaContext.Tests.{reading, ascii, well}

abbrev fresh : TianyaContext
fresh = record (reading false) { state = state_unkown }

abbrev anchor : Line
anchor = ascii (codes "<a href=\"/p2\">下页</a>")

anchor-IsLink : IsLink anchor.html
unfolding contains
anchor-IsLink = record {
  links = refl;
  no_chareset = refl;
  no_author = refl;
  no_content = refl;
  no_count = refl;
}

abbrev post : List Event
post =
    line (codes "<div class=\"bbs-content\">")
    ∷ line (codes "hi")
    ∷ line (codes "</div>")
    ∷ line (codes "author=\"me\" replytime=\"1\"")
    ∷ []

abbrev start_page : Page
start_page = opened no_url fresh

abbrev second_page : Page
second_page = record start_page {
  self = record (start_page.self) {
    next_page_url = codes "skip";
    posts = codes "hi" ∷ [];
    log = start_page.self.log ++ one_content_fetched (codes "hi") ∷ [];
  };
}

two_links : TwoLinks plain start_page
unfolding contains equal ansi_wide first_quoted strip_tags read_loop handle_line send_request reopen
    is_empty
two_links = record {
  lead = line (codes "x") ∷ [];
  at_first = start_page;
  leads = λ rest. refl;
  first = anchor;
  first_link = anchor-IsLink;
  first_reads = refl;
  first_state = refl;
  no_link_yet = refl;
  goes_on = refl;
  between = post;
  at_second = second_page;
  passes = λ rest. refl;
  second = anchor;
  second_link = anchor-IsLink;
  second_reads = refl;
  second_state = refl;
  one_link = refl;
  path = codes "/p2";
  quoted = refl;
}

crawl-page_events_test :
    crawl plain no_url
      (connected well (page_events plain start_page two_links (read_failed ∷ []))
        ∷ resolve_failed
        ∷ [])
      fresh
    ≡ crawl plain
        (parser_url plain (next_url plain start_page two_links))
        (resolve_failed ∷ [])
        (next_page plain (next_url plain start_page two_links) two_links.at_second.self)
unfolding send_request reopen close
crawl-page_events_test =
    crawl-page_events plain no_url well (read_failed ∷ []) (resolve_failed ∷ []) fresh two_links
      refl refl refl

abbrev count_line : Line
count_line = ascii (codes "\tpageCount : 12,\r")

count_line-TellsCount : TellsCount plain 12 count_line.html
unfolding contains put_int
count_line-TellsCount = record {
  rest = codes ",";
  stops = refl;
  trimmed = refl;
  tells = refl;
  no_chareset = refl;
  no_author = refl;
  no_content = refl;
  no_link = refl;
}

read_loop-count_text_example :
    read_loop plain start_page (line count_line.raw ∷ read_failed ∷ [])
    ≡ read_loop plain (counted start_page 12) (read_failed ∷ [])
unfolding send_request reopen close ansi_wide
read_loop-count_text_example =
    read_loop-count_text plain start_page count_line 12 (read_failed ∷ []) (omega arith) refl refl
      refl refl count_line-TellsCount
