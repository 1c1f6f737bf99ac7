-- ===== src/TianyaList/Row.antt =====
-- A row of the board's page, line by line, and the item that the machine makes of it.

use tianya.Prelude.{◌≡◌, true, false, List, [], ◌∷◌, ◌++◌, map, All}
use tianya.Text.{Text, codes, contains}
use tianya.Text.Find.{IsFree}
use tianya.Boost.{Boost}
use tianya.Util.{wide_utf8}
use tianya.Html.{quote, last_quoted, cell_text, strip_tags}
use tianya.Http.{Line, Reads}
use tianya.TianyaList.Info.{ListInfo}
use tianya.TianyaList.Machine.{Page, stays, site, facered, dispatch, handle_line, cell_number}
use tianya.TianyaList.Session.{Event, Run, line, read_loop, after_line}

pub record RowText : Type 0 where
  pub marker : Line
  pub skip_a : Line
  pub skip_b : Line
  pub skip_c : Line
  pub link : Line
  pub before : Text
  pub path : Text
  pub behind : Text
  pub names : List Line
  pub name_end : Line
  pub skip_d : Line
  pub author : Line
  pub hits : Line
  pub replys : Line
  pub time : Line

-- A line of the title, without its tags and outer blanks.
abbrev pub clean : Boost → Text → Text
clean b html = b.trim (strip_tags b html)

abbrev pub titles : Boost → List Line → Text
titles b [] = []
titles b (l ∷ ls) = clean b l.html ++ titles b ls

-- What makes the lines a row, in the page's character set: the marked cell, three lines that are not
-- read, a link whose first quoted text is the path, the title up to the end of the link, a line that
-- is not read, and four cells.
pub record IsRow (b : Boost) (c : Text) (r : RowText) : Type 0 where
  pub marker_reads : Reads b c r.marker
  pub skip_a_reads : Reads b c r.skip_a
  pub skip_b_reads : Reads b c r.skip_b
  pub skip_c_reads : Reads b c r.skip_c
  pub link_reads : Reads b c r.link
  pub names_read :
      All (λ l. Reads b c l × (contains (codes "</a") (clean b l.html) ≡ false)) r.names
  pub name_end_reads : Reads b c r.name_end
  pub skip_d_reads : Reads b c r.skip_d
  pub author_reads : Reads b c r.author
  pub hits_read : Reads b c r.hits
  pub replys_read : Reads b c r.replys
  pub time_reads : Reads b c r.time
  pub marked : contains facered r.marker.html ≡ true
  pub no_charset : contains (codes "meta charset=") r.marker.html ≡ false
  pub no_next_page : contains (codes "下一页") r.marker.html ≡ false
  pub link_lem : r.link.html ≡ r.before ++ b'"' ∷ (r.path ++ b'"' ∷ r.behind)
  pub before_free : IsFree quote r.before
  pub path_free : IsFree quote r.path
  pub ended : contains (codes "</a") (clean b r.name_end.html) ≡ true

abbrev pub events_of : List Line → List Event
events_of = map (λ l. line l.raw)

abbrev pub row_events : RowText → List Event → List Event
row_events r rest =
    line r.marker.raw
    ∷ line r.skip_a.raw
    ∷ line r.skip_b.raw
    ∷ line r.skip_c.raw
    ∷ line r.link.raw
    ∷ (events_of r.names
        ++ (line r.name_end.raw
            ∷ line r.skip_d.raw
            ∷ line r.author.raw
            ∷ line r.hits.raw
            ∷ line r.replys.raw
            ∷ line r.time.raw
            ∷ rest))

-- The item that the row describes.
abbrev pub item_of : Boost → RowText → ListInfo
item_of b r = record {
  title = b.trim_any_of (codes " \t\r") (titles b r.names);
  post_url = wide_utf8 b (site ++ b.trim r.path);
  author = b.trim (cell_text (codes "</a>") r.author.html);
  hits = cell_number b r.hits.html;
  replys = cell_number b r.replys.html;
  post_time = b.trim (last_quoted r.time.html);
}

after_line_stays :
    (next : Page → Run) (q : Page) → q.self.abort ≡ false → after_line next (stays q) ≡ next q
unfolding after_line
after_line_stays next q a = simp a

-- One line in the loop.
pub step :
    (b : Boost) (p q : Page) (l : Line) (events : List Event)
    → Reads b p.chareset l
    → dispatch b p.self.state l.raw l.html p ≡ stays q
    → q.self.abort ≡ false
    → read_loop b p (line l.raw ∷ events) ≡ read_loop b q events
unfolding read_loop handle_line
step b p q l events e d a =
    rw (e, handle_line) (rw d (after_line_stays (λ x. read_loop b x events) q a))
