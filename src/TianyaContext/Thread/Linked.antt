-- ===== src/TianyaContext/Thread/Linked.antt =====
-- A page with its two links: the first is passed over, the second is followed.
use mathlib.Core.List.{append-nil}
use tianya.Prelude.{Bool, ◌≡◌, refl, ◌∙◌, List, [], ◌∷◌}
use tianya.Text.{Text, codes}
use tianya.Boost.{Boost}
use tianya.Util.{UrlInfo}
use tianya.Http.{Line, Reads, request}
use tianya.TianyaContext.Machine.{TianyaContext, Page, resolving, start, next_page}
use tianya.TianyaContext.Session.{Event, line, read_loop, process_handle, reopen, following}
use tianya.TianyaContext.Post.{step}
use tianya.TianyaContext.Paging.{IsLink, passed, dispatch_link, scan_first, follow_link, opened}
use tianya.TianyaContext.Thread.{parts_events, Known, known_after, chunks_of}
use tianya.TianyaContext.Thread.Gains.{Stands, Gains, gains-trans, gains-nil, gains-append}
use tianya.TianyaContext.Thread.Steps.{parts_run}
use tianya.TianyaContext.Thread.Pages.{
  PageText, IsPage, next_url, page_known, page_chunks, well, opened_lem, opened_run,
}

-- The first link is passed over.
first_run :
    (on : Bool) (b : Boost) (k : Known) (l : Line) (p : Page) (rest : List Event)
    → Reads b p.chareset l
    → IsLink l.html
    → Stands on k [] p.self
    → read_loop b p (line l.raw ∷ rest) ≡ read_loop b (passed p) rest
first_run on b k l p rest r i s =
    step b p (passed p) l rest r
      (dispatch_link b l p s.state_lem i ∙ scan_first b l p i.links s.link_lem) s.abort_lem

passed-Stands :
    (on : Bool) (k : Known) (p : Page)
    → Stands on k [] p.self
    → Stands on k (codes "skip") (passed p).self
passed-Stands on k p s = record {
  state_lem = s.state_lem;
  abort_lem = s.abort_lem;
  filter_lem = s.filter_lem;
  author_lem = s.author_lem;
  users_lem = s.users_lem;
  link_lem = refl;
}

next_page-Stands :
    (on : Bool) (b : Boost) (k : Known) (url : Text) (t : TianyaContext)
    → Stands on k (codes "skip") t
    → Stands on k [] (next_page b url t)
unfolding next_page start
next_page-Stands on b k url t s = record {
  state_lem = refl;
  abort_lem = s.abort_lem;
  filter_lem = s.filter_lem;
  author_lem = s.author_lem;
  users_lem = s.users_lem;
  link_lem = refl;
}

next_page-Gains : (b : Boost) (url : Text) (t : TianyaContext) → Gains t (next_page b url t) [] []
unfolding next_page start
next_page-Gains b url t = gains-append t _ [] (resolving _ _ _ ∷ []) (rw append-nil) refl refl

-- What a page with links leads to.
pub record Leads (on : Bool) (b : Boost) (k : Known) (ui : UrlInfo) (g : PageText)
    (t : TianyaContext) : Type 0 where
  pub next : TianyaContext
  pub runs :
      process_handle b ui well
        (parts_events g.parts
          (line g.first.raw ∷ parts_events g.between (line g.second.raw ∷ g.unread)))
        (reopen t)
      ≡ following next
  pub url_lem : next.post_url ≡ next_url b g
  pub stands : Stands on (page_known on b k g) [] next
  pub gains : Gains t next (page_chunks on b k g) (request ui ∷ [])

pub page-Leads :
    (on : Bool) (b : Boost) (k : Known) (ui : UrlInfo) (g : PageText) (t : TianyaContext)
    → IsPage b g
    → Stands on k [] t
    → Leads on b k ui g t
page-Leads on b k ui g t v s =
    let (o, n) = opened_lem on k ui t s in
    let e = parts_run on b k [] g.parts (opened ui t) v.parts_lem o in
    let p = passed e.page in
    let c = known_after on b k g.parts in
    let f =
      parts_run on b c (codes "skip") g.between p (rw e.chareset_lem v.between_lem)
        (passed-Stands on c e.page e.stands) in
    let u = next_page b (next_url b g) f.page.self in
    record {
      next = u;
      runs =
          opened_run on b k ui g.parts _ t s v.parts_lem
          ∙ first_run on b c g.first e.page _ (rw e.chareset_lem v.first_reads) v.first_link
              e.stands
          ∙ f.runs (line g.second.raw ∷ g.unread)
          ∙ follow_link b g.second f.page g.path g.unread f.stands.state_lem v.second_link
              (rw (f.chareset_lem, e.chareset_lem) v.second_reads) f.stands.link_lem v.quoted;
      url_lem = unfold next_page start in refl;
      stands = next_page-Stands on b (page_known on b k g) (next_url b g) f.page.self f.stands;
      gains = gains-trans t (opened ui t).self u [] (page_chunks on b k g) (request ui ∷ []) [] n (
          gains-nil (opened ui t).self f.page.self u (page_chunks on b k g) []
            (gains-trans (opened ui t).self e.page.self f.page.self (chunks_of on b k g.parts)
              (chunks_of on b c g.between) [] [] e.gains
              (record {
                posts_lem = f.gains.posts_lem;
                heard_lem = f.gains.heard_lem;
                asked_lem = f.gains.asked_lem;
              }))
            (next_page-Gains b (next_url b g) f.page.self));
    }
