-- ===== src/TianyaList/ReadRow.antt =====
-- The machine reads a row of the board's page: the marked cell and the link, the title, the cells.
use mathlib.Core.List.{append-nil, append_assoc}
use tianya.Prelude.{◌≡◌, refl, ap, ◌∙◌, true, false, List, [], ◌∷◌, ◌++◌, All}
use tianya.Text.{Text, codes, contains}
use tianya.Boost.{Boost}
use tianya.Util.{wide_utf8}
use tianya.Html.{last_quoted, cell_text}
use tianya.Html.Cuts.{first_quoted-append}
use tianya.Http.{Line, Reads}
use tianya.TianyaList.Info.{ListInfo}
use tianya.TianyaList.Multimap.{insert}
use tianya.TianyaList.Machine.{
  TianyaList, hit_item_fetched, State, state_unkown, state_found, state_name, state_skip1,
  state_skip2, state_skip5, state_target, state_author, state_hits, state_replys, state_time, Page,
  stays, site, dispatch, cell_number, add_item, on_unkown, mark_found, on_target, on_name,
}
use tianya.TianyaList.Session.{Event, line, read_loop}
use tianya.TianyaList.Row.{RowText, clean, titles, IsRow, events_of, row_events, item_of, step}

abbrev with_title : Page → Text → Page
with_title p t = record p { self = record (p.self) { info = record (p.self.info) { title = t } } }

on_name_more :
    (b : Boost) (html : Text) (p : Page)
    → contains (codes "</a") (clean b html) ≡ false
    → on_name b html p ≡ with_title p (p.self.info.title ++ clean b html)
unfolding on_name
on_name_more b html p e = rw e

names_run :
    (b : Boost) (ls : List Line) (p : Page) (events : List Event)
    → p.self.state ≡ state_name
    → p.self.abort ≡ false
    → All (λ l. Reads b p.chareset l × (contains (codes "</a") (clean b l.html) ≡ false)) ls
    → read_loop b p (events_of ls ++ events)
      ≡ read_loop b (with_title p (p.self.info.title ++ titles b ls)) events
names_run b [] p events s a h = rw append-nil
names_run b (l ∷ ls) p events s a ((r, n), hs) =
    step b p (with_title p (p.self.info.title ++ clean b l.html)) l (events_of ls ++ events) r
      (ap (λ s. dispatch b s l.raw l.html p) s
        ∙ (unfold dispatch in ap stays (on_name_more b l.html p n)))
      a
    ∙ names_run b ls (with_title p (p.self.info.title ++ clean b l.html)) events s a hs
    ∙ rw (append_assoc p.self.info.title (clean b l.html) (titles b ls))

abbrev ended : Page → Text → Page
ended p t = record p {
  self = record (p.self) { state = state_skip5; info = record (p.self.info) { title = t } };
}

on_name_end :
    (b : Boost) (html : Text) (p : Page)
    → contains (codes "</a") (clean b html) ≡ true
    → on_name b html p ≡ ended p (b.trim_any_of (codes " \t\r") p.self.info.title)
unfolding on_name
on_name_end b html p e = rw e

-- The title's lines and the end of the link, from an empty title on.
title_run :
    (b : Boost) (r : RowText) (p : Page) (events : List Event)
    → IsRow b p.chareset r
    → p.self.state ≡ state_name
    → p.self.abort ≡ false
    → p.self.info.title ≡ []
    → read_loop b p (events_of r.names ++ line r.name_end.raw ∷ events)
      ≡ read_loop b (ended p (b.trim_any_of (codes " \t\r") (titles b r.names))) events
title_run b r p events v s a t =
    names_run b r.names p (line r.name_end.raw ∷ events) s a v.names_read
    ∙ step b q (ended q (b.trim_any_of (codes " \t\r") q.self.info.title)) r.name_end events
        v.name_end_reads
        (ap (λ s. dispatch b s r.name_end.raw r.name_end.html q) s
          ∙ (unfold dispatch in ap stays (on_name_end b r.name_end.html q v.ended)))
        a
    ∙ ap (λ u. read_loop b (ended p (b.trim_any_of (codes " \t\r") (u ++ titles b r.names))) events)
        t
  where
    q : Page
    q = with_title p (p.self.info.title ++ titles b r.names)

abbrev marked_page : Page → State → Page
marked_page p s = record p { self = record (p.self) { state = s }; yield_time = 1 }

on_unkown_marked :
    (b : Boost) (r : RowText) (p : Page)
    → IsRow b p.chareset r
    → on_unkown b r.marker.raw r.marker.html p ≡ stays (marked_page p state_found)
unfolding on_unkown mark_found
on_unkown_marked b r p v = rw v.no_charset (rw v.no_next_page (rw v.marked))

abbrev linked_page : Boost → RowText → Page → Page
linked_page b r p = record p {
  self = record (p.self) {
    state = state_name;
    info = record (p.self.info) { post_url = wide_utf8 b (site ++ b.trim r.path); title = [] };
  };
  yield_time = 1;
}

on_target_linked :
    (b : Boost) (r : RowText) (p : Page)
    → IsRow b p.chareset r
    → on_target b r.link.html (marked_page p state_target) ≡ linked_page b r p
unfolding on_target
on_target_linked b r p v =
    rw (
      v.link_lem,
      first_quoted-append r.before r.path r.behind v.before_free v.path_free,
      on_target,
    )

-- From the marked cell to the link.
link_run :
    (b : Boost) (r : RowText) (p : Page) (events : List Event)
    → IsRow b p.chareset r
    → p.self.state ≡ state_unkown
    → p.self.abort ≡ false
    → read_loop b p (
        line r.marker.raw
        ∷ line r.skip_a.raw
        ∷ line r.skip_b.raw
        ∷ line r.skip_c.raw
        ∷ line r.link.raw
        ∷ events)
      ≡ read_loop b (linked_page b r p) events
link_run b r p events v s a =
    step b p (marked_page p state_found) r.marker _ v.marker_reads
      (ap (λ s. dispatch b s r.marker.raw r.marker.html p) s
        ∙ (unfold dispatch in on_unkown_marked b r p v))
      a
    ∙ step b (marked_page p state_found) (marked_page p state_skip1) r.skip_a _ v.skip_a_reads
        (unfold dispatch in refl) a
    ∙ step b (marked_page p state_skip1) (marked_page p state_skip2) r.skip_b _ v.skip_b_reads
        (unfold dispatch in refl) a
    ∙ step b (marked_page p state_skip2) (marked_page p state_target) r.skip_c _ v.skip_c_reads
        (unfold dispatch in refl) a
    ∙ step b (marked_page p state_target) (linked_page b r p) r.link events v.link_reads
        (unfold dispatch in ap stays (on_target_linked b r p v)) a

abbrev cell_page : State → ListInfo → Page → Page
cell_page s i p = record p { self = record (p.self) { state = s; info = i } }

-- What each cell adds to the item under way.
abbrev author_info : Boost → RowText → ListInfo → ListInfo
author_info b r i = record i { author = b.trim (cell_text (codes "</a>") r.author.html) }

abbrev hits_info : Boost → RowText → ListInfo → ListInfo
hits_info b r i = record (author_info b r i) { hits = cell_number b r.hits.html }

abbrev replys_info : Boost → RowText → ListInfo → ListInfo
replys_info b r i = record (hits_info b r i) { replys = cell_number b r.replys.html }

abbrev cells_info : Boost → RowText → ListInfo → ListInfo
cells_info b r i = record (replys_info b r i) { post_time = b.trim (last_quoted r.time.html) }

-- The cells, from the end of the title to the complete row.
cells_run :
    (b : Boost) (r : RowText) (p : Page) (events : List Event)
    → IsRow b p.chareset r
    → p.self.state ≡ state_skip5
    → p.self.abort ≡ false
    → read_loop b p (
        line r.skip_d.raw
        ∷ line r.author.raw
        ∷ line r.hits.raw
        ∷ line r.replys.raw
        ∷ line r.time.raw
        ∷ events)
      ≡ read_loop b
          (record p { self = add_item (cells_info b r p.self.info) p.self; yield_time = 2 })
          events
cells_run b r p events v s a =
    step b p (cell_page state_author p.self.info p) r.skip_d _ v.skip_d_reads
      (ap (λ s. dispatch b s r.skip_d.raw r.skip_d.html p) s ∙ (unfold dispatch in refl)) a
    ∙ step b (cell_page state_author p.self.info p)
        (cell_page state_hits (author_info b r p.self.info) p) r.author _ v.author_reads
        (unfold dispatch in refl) a
    ∙ step b (cell_page state_hits (author_info b r p.self.info) p)
        (cell_page state_replys (hits_info b r p.self.info) p) r.hits _ v.hits_read
        (unfold dispatch in refl) a
    ∙ step b (cell_page state_replys (hits_info b r p.self.info) p)
        (cell_page state_time (replys_info b r p.self.info) p) r.replys _ v.replys_read
        (unfold dispatch in refl) a
    ∙ step b (cell_page state_time (replys_info b r p.self.info) p)
        (record p { self = add_item (cells_info b r p.self.info) p.self; yield_time = 2 }) r.time
        events v.time_reads (unfold dispatch add_item in refl) (unfold add_item in a)

-- With one item more in both maps and signalled, between rows.
abbrev pub with_item : ListInfo → TianyaList → TianyaList
with_item i t = record t {
  state = state_unkown;
  info = i;
  hits = insert i.hits i t.hits;
  replys = insert i.replys i t.replys;
  log = t.log ++ hit_item_fetched i ∷ [];
}

-- The machine reads rows: from the state between rows, the lines of a row, whatever stands around
-- the values in them, lead back to that state with exactly the item that the row describes added to
-- both maps and signalled; nothing else of the object changes.
pub read_loop-row_events :
    (b : Boost) (r : RowText) (p : Page) (rest : List Event)
    → IsRow b p.chareset r
    → p.self.state ≡ state_unkown
    → p.self.abort ≡ false
    → read_loop b p (row_events r rest)
      ≡ read_loop b (record p { self = with_item (item_of b r) p.self; yield_time = 2 }) rest
read_loop-row_events b r p rest v s a =
    link_run b r p _ v s a
    ∙ title_run b r (linked_page b r p) _ v refl a refl
    ∙ cells_run b r (ended (linked_page b r p) (b.trim_any_of (codes " \t\r") (titles b r.names)))
        rest v refl a
    ∙ (unfold add_item in refl)
