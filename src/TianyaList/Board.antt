-- ===== src/TianyaList/Board.antt =====
-- A whole board for tianya_list: pages that are rows and other lines, each with the link to the next,
-- and the run of the reader over them.
pub mod Pages
pub mod Whole
pub mod Tests
use mathlib.Core.List.{append-nil, append_assoc}
use tianya.Prelude.{
  ◌≡◌, refl, ap, ◌∙◌, sym, true, false, List, [], ◌∷◌, ◌++◌, All, Bool-cases, inl, inr,
}
use tianya.Text.{Text, codes, contains}
use tianya.Text.Find.{IsFree}
use tianya.Boost.{Boost}
use tianya.Util.{UrlInfo, parser_url, get_chareset, wide_utf8}
use tianya.Html.{quote}
use tianya.Html.Cuts.{first_quoted-append}
use tianya.Http.{Line, Reads, Opening, request}
use tianya.TianyaList.Info.{ListInfo}
use tianya.TianyaList.Machine.{
  TianyaList, Effect, resolving, sent, closed, hit_item_fetched, state_unkown, Page, stays, leaves,
  site, facered, dispatch, on_unkown, mark_found, next_page, start, handle_line,
}
use tianya.TianyaList.Session.{
  Event, read_failed, line, Run, read_loop, after_line, Connection, connected, crawl, following,
  returned, close, process_handle, begin_page, send_request, reopen, after_page,
}
use tianya.TianyaList.Row.{RowText, IsRow, row_events, item_of, step}
use tianya.TianyaList.ReadRow.{with_item, read_loop-row_events}
use tianya.TianyaList.Change.{fetched, fetched-append}

-- What a page is made of: lines that say nothing, lines that name the character set, rows.
pub data Part : Type 0 where
  other : Line → Part
  naming : Line → Part
  row : RowText → Part

abbrev pub parts_events : List Part → List Event → List Event
parts_events [] rest = rest
parts_events (other l ∷ parts) rest = line l.raw ∷ parts_events parts rest
parts_events (naming l ∷ parts) rest = line l.raw ∷ parts_events parts rest
parts_events (row r ∷ parts) rest = row_events r (parts_events parts rest)

-- The character set behind the parts, if it is `c` in front of them.
abbrev pub chareset_after : Boost → Text → List Part → Text
chareset_after b c [] = c
chareset_after b c (other l ∷ parts) = chareset_after b c parts
chareset_after b c (naming l ∷ parts) = chareset_after b (get_chareset b l.raw) parts
chareset_after b c (row r ∷ parts) = chareset_after b c parts

abbrev pub items_of : Boost → List Part → List ListInfo
items_of b [] = []
items_of b (other l ∷ parts) = items_of b parts
items_of b (naming l ∷ parts) = items_of b parts
items_of b (row r ∷ parts) = item_of b r ∷ items_of b parts

-- Each part is read in the character set that is known when it comes.
abbrev pub AreParts : Boost → Text → List Part → Type 0
AreParts b c [] = Unit
AreParts b c (other l ∷ parts) =
    Reads b c l
    × (contains (codes "meta charset=") l.html ≡ false)
    × (contains (codes "下一页") l.html ≡ false)
    × (contains facered l.html ≡ false)
    × AreParts b c parts
AreParts b c (naming l ∷ parts) =
    Reads b c l
    × (contains (codes "meta charset=") l.html ≡ true)
    × AreParts b (get_chareset b l.raw) parts
AreParts b c (row r ∷ parts) = IsRow b c r × AreParts b c parts

abbrev pub parts_page : Boost → List Part → Page → Page
parts_page b [] p = p
parts_page b (other l ∷ parts) p = parts_page b parts (record p { yield_time = 0 })
parts_page b (naming l ∷ parts) p =
    parts_page b parts (record p { yield_time = 0; chareset = get_chareset b l.raw })
parts_page b (row r ∷ parts) p =
    parts_page b parts (record p { self = with_item (item_of b r) p.self; yield_time = 2 })

on_unkown_other :
    (b : Boost) (l : Line) (p : Page)
    → contains (codes "meta charset=") l.html ≡ false
    → contains (codes "下一页") l.html ≡ false
    → contains facered l.html ≡ false
    → on_unkown b l.raw l.html p ≡ stays (record p { yield_time = 0 })
unfolding on_unkown mark_found
on_unkown_other b l p m n f = rw m (rw n (rw f))

on_unkown_naming :
    (b : Boost) (l : Line) (p : Page)
    → contains (codes "meta charset=") l.html ≡ true
    → on_unkown b l.raw l.html p
      ≡ stays (record p { yield_time = 0; chareset = get_chareset b l.raw })
unfolding on_unkown
on_unkown_naming b l p m = rw m

pub in_unkown :
    (b : Boost) (l : Line) (p : Page)
    → p.self.state ≡ state_unkown
    → dispatch b p.self.state l.raw l.html p ≡ on_unkown b l.raw l.html p
in_unkown b l p s = ap (λ s. dispatch b s l.raw l.html p) s ∙ (unfold dispatch in refl)

pub parts_run :
    (b : Boost) (parts : List Part) (p : Page) (rest : List Event)
    → AreParts b p.chareset parts
    → p.self.state ≡ state_unkown
    → p.self.abort ≡ false
    → read_loop b p (parts_events parts rest) ≡ read_loop b (parts_page b parts p) rest
parts_run b [] p rest v s a = refl
parts_run b (other l ∷ parts) p rest (r, m, n, f, v) s a =
    step b p (record p { yield_time = 0 }) l _ r (in_unkown b l p s ∙ on_unkown_other b l p m n f) a
    ∙ parts_run b parts (record p { yield_time = 0 }) rest v s a
parts_run b (naming l ∷ parts) p rest (r, m, v) s a =
    step b p (record p { yield_time = 0; chareset = get_chareset b l.raw }) l _ r
      (in_unkown b l p s ∙ on_unkown_naming b l p m) a
    ∙ parts_run b parts (record p { yield_time = 0; chareset = get_chareset b l.raw }) rest v s a
parts_run b (row r ∷ parts) p rest (i, v) s a =
    read_loop-row_events b r p (parts_events parts rest) i s a
    ∙ parts_run b parts (record p { self = with_item (item_of b r) p.self; yield_time = 2 }) rest v
        refl a
