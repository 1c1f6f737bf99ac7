-- ===== src/TianyaContext/Post.antt =====
-- One post of a page, line by line: what is kept of it, and what is signalled.
use mathlib.Core.List.{append-nil, append_assoc}
use tianya.Prelude.{◌≡◌, ap, ◌∙◌, true, false, some, is_some, List, [], ◌∷◌, ◌++◌, map, All}
use tianya.Text.{Text, codes, contains}
use tianya.Boost.{Boost, capture}
use tianya.Http.{Line, Reads}
use tianya.TianyaContext.Machine.{
  state_unkown, state_div_bbs_content, state_author, TianyaContext, Page, stays, on_div, on_author,
  on_post_of, author_pattern, replytime_pattern, dispatch, handle_line,
}
use tianya.TianyaContext.Session.{Event, Run, line, read_loop, after_line}

-- The lines of a post behind the start of its `div`: the text, the end of the `div`, and the line
-- that names the author and the time.
pub record PostText : Type 0 where
  pub body : List Line
  pub closing : Line
  pub mark : Line

abbrev pub texts : List Line → Text
texts [] = []
texts (l ∷ ls) = l.html ++ texts ls

-- What makes the lines a post by `who`, in the page's character set.
pub record IsPost (b : Boost) (c : Text) (who : Text) (d : PostText) : Type 0 where
  pub body_reads : All (λ l. Reads b c l × (contains (codes "</div>") l.html ≡ false)) d.body
  pub closing_reads : Reads b c d.closing
  pub mark_reads : Reads b c d.mark
  pub closes : contains (codes "</div>") d.closing.html ≡ true
  pub marks : contains (codes "author") d.mark.html ≡ true
  pub what : List Text
  pub named : b.regex_search author_pattern d.mark.html ≡ some what
  pub named_lem : b.trim (capture what 1) ≡ who
  pub dated : is_some (b.regex_search replytime_pattern d.mark.html) ≡ true

abbrev pub post_events : PostText → List Event → List Event
post_events d rest = map (λ l. line l.raw) d.body ++ (line d.closing.raw ∷ line d.mark.raw ∷ rest)

after_line_stays :
    (next : Page → Run) (q : Page) → q.self.abort ≡ false → after_line next (stays q) ≡ next q
unfolding after_line
after_line_stays next q a = simp a

-- One line in the loop.
pub step :
    (b : Boost) (p q : Page) (l : Line) (events : List Event)
    → Reads b p.chareset l
    → dispatch b p.self.state l.raw l.html p ≡ stays q
    → q.self.abort ≡ false
    → read_loop b p (line l.raw ∷ events) ≡ read_loop b q events
unfolding read_loop handle_line
step b p q l events e d a =
    rw (e, handle_line) (rw d (after_line_stays (λ x. read_loop b x events) q a))

abbrev pub with_text : Page → Text → Page
with_text p t = record p { self = record (p.self) { context = t } }

on_div_more :
    (html : Text) (t : TianyaContext)
    → contains (codes "</div>") html ≡ false
    → on_div html t ≡ record t { context = t.context ++ html }
unfolding on_div
on_div_more html t e = rw e

pub on_div_end :
    (html : Text) (t : TianyaContext)
    → contains (codes "</div>") html ≡ true
    → on_div html t ≡ record t { state = state_author }
unfolding on_div
on_div_end html t e = rw e

pub body_run :
    (b : Boost) (ls : List Line) (p : Page) (events : List Event)
    → p.self.state ≡ state_div_bbs_content
    → p.self.abort ≡ false
    → All (λ l. Reads b p.chareset l × (contains (codes "</div>") l.html ≡ false)) ls
    → read_loop b p (map (λ l. line l.raw) ls ++ events)
      ≡ read_loop b (with_text p (p.self.context ++ texts ls)) events
body_run b [] p events s a h = rw append-nil
body_run b (l ∷ ls) p events s a ((r, n), hs) =
    step b p (with_text p (p.self.context ++ l.html)) l (map (λ l. line l.raw) ls ++ events) r
      (ap (λ s. dispatch b s l.raw l.html p) s
        ∙ (unfold dispatch in
            ap (λ t. stays (record p { self = t })) (on_div_more l.html p.self n)))
      a
    ∙ body_run b ls (with_text p (p.self.context ++ l.html)) events s a hs
    ∙ rw (append_assoc p.self.context l.html (texts ls))

pub on_author_marked :
    (b : Boost) (c who : Text) (d : PostText) (t : TianyaContext)
    → IsPost b c who d
    → on_author b d.mark.html t
      ≡ record (on_post_of b d.mark.html who t) { context = []; state = state_unkown }
unfolding on_author
on_author_marked b c who d t v = rw (v.marks, on_author) (rw (v.named, on_author) (rw v.named_lem))

-- The object behind a post: the author's line has been handled on the whole text.
abbrev pub settled : Boost → Text → PostText → TianyaContext → TianyaContext
settled b who d t =
    record (on_post_of b d.mark.html who
      (record t { context = t.context ++ texts d.body; state = state_author })) {
        context = [];
        state = state_unkown;
      }
