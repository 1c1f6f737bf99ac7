-- ===== src/TianyaList/Board/Pages.antt =====
-- The run of tianya_list over the pages of a board: what it signals, and what it asks the server for.
use mathlib.Core.List.{append-nil, append_assoc}
use tianya.Prelude.{◌≡◌, refl, ap, ◌∙◌, true, false, List, [], ◌∷◌, ◌++◌, Bool-cases, inl, inr}
use tianya.Text.{Text, codes, contains}
use tianya.Text.Find.{IsFree}
use tianya.Boost.{Boost}
use tianya.Util.{wide_utf8}
use tianya.Html.{quote, first_quoted}
use tianya.Html.Cuts.{first_quoted-append}
use tianya.Http.{Line, Reads}
use tianya.TianyaList.Info.{ListInfo}
use tianya.TianyaList.Machine.{
  TianyaList, Effect, resolving, sent, closed, hit_item_fetched, state_unkown, Page, leaves, site,
  facered, on_unkown, mark_found, next_page, start, handle_line,
}
use tianya.TianyaList.Session.{Event, line, read_loop, after_line, following}
use tianya.TianyaList.Row.{item_of}
use tianya.TianyaList.ReadRow.{with_item}
use tianya.TianyaList.Change.{fetched, fetched-append}
use tianya.TianyaList.Board.{
  Part, other, naming, row, chareset_after, items_of, AreParts, parts_page, in_unkown,
}

-- The requests that were written, in their order.
abbrev pub asked : List Effect → List Text
asked [] = []
asked (sent r ∷ log) = r ∷ asked log
asked (hit_item_fetched i ∷ log) = asked log
asked (resolving d p ui ∷ log) = asked log
asked (closed ∷ log) = asked log

pub asked-append : (xs ys : List Effect) → asked (xs ++ ys) ≡ asked xs ++ asked ys
asked-append [] ys = refl
asked-append (sent r ∷ xs) ys = rw (asked-append xs ys)
asked-append (hit_item_fetched i ∷ xs) ys = asked-append xs ys
asked-append (resolving d p ui ∷ xs) ys = asked-append xs ys
asked-append (closed ∷ xs) ys = asked-append xs ys

-- The object between two rows, with these rows and requests more than before.
pub record Gains (t u : TianyaList) (items : List ListInfo) (requests : List Text) : Type 0 where
  pub state_lem : u.state ≡ state_unkown
  pub abort_lem : u.abort ≡ false
  pub rows : fetched u.log ≡ fetched t.log ++ items
  pub requests_lem : asked u.log ≡ asked t.log ++ requests

pub gains-trans :
    (t u v : TianyaList) (is js : List ListInfo) (qs rs : List Text)
    → Gains t u is qs
    → Gains u v js rs
    → Gains t v (is ++ js) (qs ++ rs)
gains-trans t u v is js qs rs g h = record {
  state_lem = h.state_lem;
  abort_lem = h.abort_lem;
  rows = rw (h.rows, g.rows) (append_assoc (fetched t.log) is js);
  requests_lem = rw (h.requests_lem, g.requests_lem) (append_assoc (asked t.log) qs rs);
}

-- A step that gains nothing.
pub gains-nil :
    (t u v : TianyaList) (is : List ListInfo) (qs : List Text)
    → Gains t u is qs
    → Gains u v [] []
    → Gains t v is qs
gains-nil t u v is qs g h = record {
  state_lem = h.state_lem;
  abort_lem = h.abort_lem;
  rows = h.rows ∙ append-nil (fetched u.log) ∙ g.rows;
  requests_lem = h.requests_lem ∙ append-nil (asked u.log) ∙ g.requests_lem;
}

-- Effects appended to the log are what is gained.
pub gains-append :
    (t u : TianyaList) (es : List Effect)
    → u.log ≡ t.log ++ es
    → u.state ≡ state_unkown
    → u.abort ≡ false
    → Gains t u (fetched es) (asked es)
gains-append t u es e s a = record {
  state_lem = s;
  abort_lem = a;
  rows = ap fetched e ∙ fetched-append t.log es;
  requests_lem = ap asked e ∙ asked-append t.log es;
}

-- The parts of a page leave its rows.
pub parts_page-Gains :
    (b : Boost) (parts : List Part) (p : Page)
    → p.self.state ≡ state_unkown
    → p.self.abort ≡ false
    → Gains p.self (parts_page b parts p).self (items_of b parts) []
parts_page-Gains b [] p s a = gains-append p.self p.self [] (rw append-nil) s a
parts_page-Gains b (other l ∷ parts) p s a =
    parts_page-Gains b parts (record p { yield_time = 0 }) s a
parts_page-Gains b (naming l ∷ parts) p s a =
    parts_page-Gains b parts (record p { yield_time = 0; chareset = _ }) s a
parts_page-Gains b (row r ∷ parts) p s a =
    let q = record p { self = with_item (item_of b r) p.self; yield_time = 2 } in
    gains-trans p.self q.self _ (item_of b r ∷ []) (items_of b parts) [] []
      (gains-append p.self q.self (hit_item_fetched (item_of b r) ∷ []) refl refl a)
      (parts_page-Gains b parts q refl a)

pub parts_page-chareset :
    (b : Boost) (parts : List Part) (p : Page)
    → (parts_page b parts p).chareset ≡ chareset_after b p.chareset parts
parts_page-chareset b [] p = refl
parts_page-chareset b (other l ∷ parts) p = parts_page-chareset b parts _
parts_page-chareset b (naming l ∷ parts) p = parts_page-chareset b parts _
parts_page-chareset b (row r ∷ parts) p = parts_page-chareset b parts _

-- A page with the link to the next one; what comes behind the link is not read.
pub record PageText : Type 0 where
  pub parts : List Part
  pub link : Line
  pub before : Text
  pub path : Text
  pub behind : Text
  pub unread : List Event

pub record IsPage (b : Boost) (g : PageText) : Type 0 where
  pub parts_lem : AreParts b (codes "utf-8") g.parts
  pub link_reads : Reads b (chareset_after b (codes "utf-8") g.parts) g.link
  pub no_charset : contains (codes "meta charset=") g.link.html ≡ false
  pub named : contains (codes "下一页") g.link.html ≡ true
  pub link_lem : g.link.html ≡ g.before ++ b'"' ∷ (g.path ++ b'"' ∷ g.behind)
  pub before_free : IsFree quote g.before
  pub path_free : IsFree quote g.path

-- Where the link leads.
abbrev pub next_url : Boost → PageText → Text
next_url b g = wide_utf8 b (site ++ b.trim g.path)

pub mark_found-Gains :
    (b : Boost) (url html : Text) (p : Page)
    → p.self.abort ≡ false
    → Gains p.self (next_page b url (mark_found html p).self) [] []
unfolding next_page start mark_found
mark_found-Gains b url html p a = elim (Bool-cases (contains facered html)) [
  | inl f ↦ rw f (gains-append p.self _ (resolving _ _ _ ∷ []) refl refl a)
  | inr f ↦ rw f (gains-append p.self _ (resolving _ _ _ ∷ []) refl refl a)
]

on_unkown_link :
    (b : Boost) (g : PageText) (p : Page)
    → IsPage b g
    → on_unkown b g.link.raw g.link.html p
      ≡ leaves (next_page b (next_url b g) (mark_found g.link.html p).self)
unfolding on_unkown
on_unkown_link b g p v = rw v.no_charset (
    rw v.named (
      rw (
        ap first_quoted v.link_lem
        ∙ first_quoted-append g.before g.path g.behind v.before_free v.path_free)))

pub link_turn :
    (b : Boost) (g : PageText) (p : Page) (rest : List Event)
    → IsPage b g
    → p.self.state ≡ state_unkown
    → Reads b p.chareset g.link
    → read_loop b p (line g.link.raw ∷ rest)
      ≡ following (next_page b (next_url b g) (mark_found g.link.html p).self)
unfolding read_loop handle_line after_line
link_turn b g p rest v s r =
    rw (r, handle_line) (rw (in_unkown b g.link p s ∙ on_unkown_link b g p v))
