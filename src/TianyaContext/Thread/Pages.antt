-- ===== src/TianyaContext/Thread/Pages.antt =====
-- The pages of a whole post for tianya_context, and how a connection starts on one.
use mathlib.Core.List.{append-nil}
use tianya.Prelude.{◌≡◌, refl, ◌∙◌, Bool, true, false, some, List, [], ◌∷◌, ◌++◌, if◌then◌else◌}
use tianya.Text.{Text, codes}
use tianya.Boost.{Boost}
use tianya.Util.{UrlInfo, parser_url, wide_utf8}
use tianya.Html.{first_quoted}
use tianya.Http.{Line, Reads, Opening, request}
use tianya.TianyaContext.Machine.{TianyaContext, sent, closed, site}
use tianya.TianyaContext.Session.{
  Event, line, read_failed, close, read_loop, send_request, process_handle, Connection, connected,
  reopen,
}
use tianya.TianyaContext.Paging.{IsLink, opened, process_handle_reads}
use tianya.TianyaContext.Thread.{
  Part, parts_events, chareset_after, author_after, posts_of, Known, known_after, chunks_of,
  AreParts,
}
use tianya.TianyaContext.Thread.Gains.{
  Stands, stands-same, Gains, gains-trans, gains-append, gains-same,
}
use tianya.TianyaContext.Thread.Steps.{parts_run}

-- A page with its two links to the next one; what comes behind the second is not read.
pub record PageText : Type 0 where
  pub parts : List Part
  pub first : Line
  pub between : List Part
  pub second : Line
  pub path : Text
  pub unread : List Event

abbrev pub utf_8 : Text
utf_8 = codes "utf-8"

pub record IsPage (b : Boost) (g : PageText) : Type 0 where
  pub parts_lem : AreParts b utf_8 g.parts
  pub first_link : IsLink g.first.html
  pub first_reads : Reads b (chareset_after b utf_8 g.parts) g.first
  pub between_lem : AreParts b (chareset_after b utf_8 g.parts) g.between
  pub second_link : IsLink g.second.html
  pub second_reads : Reads b (chareset_after b (chareset_after b utf_8 g.parts) g.between) g.second
  pub quoted : first_quoted g.second.html ≡ some g.path

-- Where the second link leads.
abbrev pub next_url : Boost → PageText → Text
next_url b g = wide_utf8 b (site ++ b.trim g.path)

abbrev pub page_author : Boost → Text → PageText → Text
page_author b a g = author_after b (author_after b a g.parts) g.between

abbrev pub page_posts : Boost → Text → PageText → List Text
page_posts b a g = posts_of b a g.parts ++ posts_of b (author_after b a g.parts) g.between

-- A connection that brings a page.
abbrev pub well : Opening
well = record { write_failed = false; header_failed = false; stopped = false }

-- The connections of a post: pages with links to the next, and the last one, at whose end the server
-- closes.
abbrev pub thread : List PageText → List Part → List Connection
thread [] last = connected well (parts_events last (read_failed ∷ [])) ∷ []
thread (g ∷ pages) last =
    connected well (
      parts_events g.parts
        (line g.first.raw ∷ parts_events g.between (line g.second.raw ∷ g.unread)))
    ∷ thread pages last

-- The posts by the author, over all pages.
abbrev pub thread_posts : Boost → Text → List PageText → List Part → List Text
thread_posts b a [] last = posts_of b a last
thread_posts b a (g ∷ pages) last =
    page_posts b a g ++ thread_posts b (page_author b a g) pages last

-- What is known behind a page, its chunks, and those of all pages.
abbrev pub page_known : Bool → Boost → Known → PageText → Known
page_known on b k g = known_after on b (known_after on b k g.parts) g.between

abbrev pub page_chunks : Bool → Boost → Known → PageText → List (Text × Bool)
page_chunks on b k g =
    chunks_of on b k g.parts ++ chunks_of on b (known_after on b k g.parts) g.between

abbrev pub thread_chunks : Bool → Boost → Known → List PageText → List Part → List (Text × Bool)
thread_chunks on b k [] last = chunks_of on b k last
thread_chunks on b k (g ∷ pages) last =
    page_chunks on b k g ++ thread_chunks on b (page_known on b k g) pages last

-- A request for the first page and one for what each second link leads to.
abbrev pub thread_requests : Boost → UrlInfo → List PageText → List Text
thread_requests b ui [] = request ui ∷ []
thread_requests b ui (g ∷ pages) =
    request ui ∷ thread_requests b (parser_url b (next_url b g)) pages

reopened :
    (on : Bool) (k : Known) (is_open : Bool) (t : TianyaContext)
    → Stands on k [] t
    → Stands on k [] (record (if is_open then close t else t) { is_open = true })
      × Gains t (record (if is_open then close t else t) { is_open = true }) [] []
unfolding close
reopened on k true t s = (
  stands-same on k [] t _ s s.state_lem refl refl refl refl refl,
  gains-append t _ [] (closed ∷ []) (rw append-nil) refl refl,
)
reopened on k false t s =
    (stands-same on k [] t _ s s.state_lem refl refl refl refl refl, gains-same t _ refl refl)

pub opened_lem :
    (on : Bool) (k : Known) (ui : UrlInfo) (t : TianyaContext)
    → Stands on k [] t
    → Stands on k [] (opened ui t).self × Gains t (opened ui t).self [] (request ui ∷ [])
unfolding reopen send_request
opened_lem on k ui t s =
    let (r, g) = reopened on k t.is_open t s in
    (
      stands-same on k [] (reopen t) _ r r.state_lem refl refl refl refl refl,
      gains-trans t (reopen t) _ [] [] [] (request ui ∷ []) g
          (gains-append (reopen t) _ [] (sent (request ui) ∷ []) (rw append-nil) refl refl),
    )

-- The parts at the start of a connection.
pub opened_run :
    (on : Bool) (b : Boost) (k : Known) (ui : UrlInfo) (parts : List Part) (rest : List Event)
    (t : TianyaContext)
    → (s : Stands on k [] t) → (v : AreParts b utf_8 parts)
    → process_handle b ui well (parts_events parts rest) (reopen t)
      ≡ read_loop b (parts_run on b k [] parts (opened ui t) v (opened_lem on k ui t s).0).page rest
opened_run on b k ui parts rest t s v =
    let o = (opened_lem on k ui t s).0 in
    process_handle_reads b ui well (parts_events parts rest) (reopen t) refl refl o.abort_lem
    ∙ (parts_run on b k [] parts (opened ui t) v o).runs rest
