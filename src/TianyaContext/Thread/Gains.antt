-- ===== src/TianyaContext/Thread/Gains.antt =====
-- What a part of a page, a page or a connection adds to a download, with the filter on or off.
use mathlib.Core.List.{append-nil, append_assoc, map-append}
use tianya.Prelude.{
  Bool, ◌≡◌, refl, ap, ◌∙◌, sym, false, Option, none, some, List, [], ◌∷◌, ◌++◌, map, true, false,
}
use tianya.Text.{Text}
use tianya.TianyaContext.Thread.{Known, kept, said}
use tianya.TianyaContext.Machine.{
  Effect, resolving, sent, closed, one_content_fetched, download_complete, state_unkown,
  TianyaContext,
}

-- The signals: a post, or the end of the download.
abbrev pub heard : List Effect → List (Option Text)
heard [] = []
heard (one_content_fetched c ∷ log) = some c ∷ heard log
heard (download_complete ∷ log) = none ∷ heard log
heard (resolving d p ui ∷ log) = heard log
heard (sent r ∷ log) = heard log
heard (closed ∷ log) = heard log

pub heard-append : (xs ys : List Effect) → heard (xs ++ ys) ≡ heard xs ++ heard ys
heard-append [] ys = refl
heard-append (one_content_fetched c ∷ xs) ys = rw (heard-append xs ys)
heard-append (download_complete ∷ xs) ys = rw (heard-append xs ys)
heard-append (resolving d p ui ∷ xs) ys = heard-append xs ys
heard-append (sent r ∷ xs) ys = heard-append xs ys
heard-append (closed ∷ xs) ys = heard-append xs ys

-- The requests that were written, in their order.
abbrev pub asked : List Effect → List Text
asked [] = []
asked (sent r ∷ log) = r ∷ asked log
asked (one_content_fetched c ∷ log) = asked log
asked (download_complete ∷ log) = asked log
asked (resolving d p ui ∷ log) = asked log
asked (closed ∷ log) = asked log

pub asked-append : (xs ys : List Effect) → asked (xs ++ ys) ≡ asked xs ++ asked ys
asked-append [] ys = refl
asked-append (sent r ∷ xs) ys = rw (asked-append xs ys)
asked-append (one_content_fetched c ∷ xs) ys = asked-append xs ys
asked-append (download_complete ∷ xs) ys = asked-append xs ys
asked-append (resolving d p ui ∷ xs) ys = asked-append xs ys
asked-append (closed ∷ xs) ys = asked-append xs ys

-- Between two posts, with the filter as it is, what is known, and what m_next_page_url is.
pub record Stands (v : Bool) (k : Known) (link : Text) (u : TianyaContext) : Type 0 where
  pub state_lem : u.state ≡ state_unkown
  pub abort_lem : u.abort ≡ false
  pub filter_lem : u.filter_reply ≡ v
  pub author_lem : u.author ≡ k.author
  pub users_lem : u.users ≡ k.users
  pub link_lem : u.next_page_url ≡ link

-- What stands so for another object between two posts.
pub stands-same :
    (v : Bool) (k : Known) (link : Text) (t u : TianyaContext)
    → Stands v k link t
    → u.state ≡ state_unkown
    → u.abort ≡ t.abort
    → u.filter_reply ≡ t.filter_reply
    → u.author ≡ t.author
    → u.users ≡ t.users
    → u.next_page_url ≡ t.next_page_url
    → Stands v k link u
stands-same v k link t u s e f g h n m = record {
  state_lem = e;
  abort_lem = f ∙ s.abort_lem;
  filter_lem = g ∙ s.filter_lem;
  author_lem = h ∙ s.author_lem;
  users_lem = n ∙ s.users_lem;
  link_lem = m ∙ s.link_lem;
}

-- These chunks and requests more than before: the chunks are signalled, and some of them kept.
pub record Gains (t u : TianyaContext) (chunks : List (Text × Bool)) (requests : List Text)
    : Type 0 where
  pub posts_lem : u.posts ≡ t.posts ++ kept chunks
  pub heard_lem : heard u.log ≡ heard t.log ++ map some (said chunks)
  pub asked_lem : asked u.log ≡ asked t.log ++ requests

kept-append : (ps rs : List (Text × Bool)) → kept (ps ++ rs) ≡ kept ps ++ kept rs
kept-append [] rs = refl
kept-append ((s, true) ∷ ps) rs = ap (λ x. s ∷ x) (kept-append ps rs)
kept-append ((s, false) ∷ ps) rs = kept-append ps rs

pub gains-trans :
    (t u w : TianyaContext) (ps rs : List (Text × Bool)) (qs ss : List Text)
    → Gains t u ps qs
    → Gains u w rs ss
    → Gains t w (ps ++ rs) (qs ++ ss)
gains-trans t u w ps rs qs ss g h = record {
  posts_lem =
      rw (h.posts_lem, g.posts_lem, kept-append ps rs) (append_assoc t.posts (kept ps) (kept rs));
  heard_lem =
      rw (h.heard_lem, g.heard_lem)
        (append_assoc (heard t.log) (map some (said ps)) (map some (said rs))
          ∙ ap (λ x. heard t.log ++ x)
              (sym (
                ap (map some) (map-append (λ c. c.0) ps rs)
                ∙ map-append some (said ps) (said rs))));
  asked_lem = rw (h.asked_lem, g.asked_lem) (append_assoc (asked t.log) qs ss);
}

-- A step that gains nothing.
pub gains-nil :
    (t u w : TianyaContext) (ps : List (Text × Bool)) (qs : List Text)
    → Gains t u ps qs
    → Gains u w [] []
    → Gains t w ps qs
gains-nil t u w ps qs g h = record {
  posts_lem = h.posts_lem ∙ append-nil u.posts ∙ g.posts_lem;
  heard_lem = h.heard_lem ∙ append-nil (heard u.log) ∙ g.heard_lem;
  asked_lem = h.asked_lem ∙ append-nil (asked u.log) ∙ g.asked_lem;
}

-- Effects behind the log, with the chunks that they signal.
pub gains-append :
    (t u : TianyaContext) (ps : List (Text × Bool)) (es : List Effect)
    → u.posts ≡ t.posts ++ kept ps
    → u.log ≡ t.log ++ es
    → heard es ≡ map some (said ps)
    → Gains t u ps (asked es)
gains-append t u ps es p e h = record {
  posts_lem = p;
  heard_lem = ap heard e ∙ heard-append t.log es ∙ ap (λ x. heard t.log ++ x) h;
  asked_lem = ap asked e ∙ asked-append t.log es;
}

-- The same posts and the same log.
pub gains-same : (t u : TianyaContext) → u.posts ≡ t.posts → u.log ≡ t.log → Gains t u [] []
gains-same t u p e =
    gains-append t u [] [] (p ∙ sym (append-nil t.posts)) (e ∙ sym (append-nil t.log)) refl

-- These chunks and requests more than before, the chunks signalled, and then the end.
pub record Ends (t u : TianyaContext) (chunks : List (Text × Bool)) (requests : List Text)
    : Type 0 where
  pub posts_lem : u.posts ≡ t.posts ++ kept chunks
  pub heard_lem : heard u.log ≡ heard t.log ++ (map some (said chunks) ++ none ∷ [])
  pub asked_lem : asked u.log ≡ asked t.log ++ requests

pub ends-trans :
    (t u w : TianyaContext) (ps rs : List (Text × Bool)) (qs ss : List Text)
    → Gains t u ps qs
    → Ends u w rs ss
    → Ends t w (ps ++ rs) (qs ++ ss)
ends-trans t u w ps rs qs ss g h = record {
  posts_lem =
      rw (h.posts_lem, g.posts_lem, kept-append ps rs) (append_assoc t.posts (kept ps) (kept rs));
  heard_lem =
      rw
        (h.heard_lem, g.heard_lem, map-append (λ c. c.0) ps rs, map-append some (said ps) (said rs))
        (append_assoc (heard t.log) (map some (said ps)) (map some (said rs) ++ none ∷ [])
          ∙ ap (λ x. heard t.log ++ x)
              (sym (append_assoc (map some (said ps)) (map some (said rs)) (none ∷ []))));
  asked_lem = rw (h.asked_lem, g.asked_lem) (append_assoc (asked t.log) qs ss);
}
