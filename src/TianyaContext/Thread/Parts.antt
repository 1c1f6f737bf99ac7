-- ===== src/TianyaContext/Thread/Parts.antt =====
-- The lines of a page that are no post: what tianya_context makes of each.
use tianya.Prelude.{
  ◌≡◌, refl, ap, ◌∙◌, true, false, ◌&&◌, [], ◌∷◌, ◌++◌, if◌then◌else◌, Bool-cases, inl, inr, negsuc,
  eqb_ℤ, length, take, drop, suc, ℤ, ℕ, some, Option-cases,
}
use tianya.Text.{Text, codes, contains, is_empty, find_last_of, mem_char}
use tianya.Text.Find.{find_last_of-append, take-length, drop-length}
use tianya.Boost.{Boost}
use tianya.Util.{get_chareset}
use tianya.Html.{quote}
use tianya.Http.{Line}
use tianya.TianyaContext.Machine.{
  state_div_bbs_content, TianyaContext, Page, Scan, stays, author_meta, scan_author, scan_content,
  scan_count, scan_next, on_unkown, scan_page_count,
}
use tianya.TianyaContext.Paging.{scan_author_none, scan_content_none, scan_count_none}
use tianya.TianyaContext.Thread.{first_author, IsBare, IsBy, IsStart, IsCount}

abbrev pub read_chareset : Boost → Line → Page → Text
read_chareset b l p =
    if contains (codes "meta charset=") l.html then get_chareset b l.raw else p.chareset

scan_next_none :
    (b : Boost) (ch : Text) (c : Scan)
    → contains (codes "下页") c.html ≡ false
    → scan_next b ch c ≡ stays (record { self = c.self; chareset = ch })
unfolding scan_next
scan_next_none b ch c h = rw h refl

-- A line of which the search for the author leaves a bare rest.
scanned :
    (b : Boost) (l : Line) (p : Page) (c : Scan)
    → scan_author b (record { html = l.html; self = p.self }) ≡ c
    → IsBare c.html
    → on_unkown b l.raw l.html p ≡ stays (record { self = c.self; chareset = read_chareset b l p })
unfolding on_unkown
scanned b l p c e (no_content, no_count, no_link) =
    let ch = read_chareset b l p in
    ap (λ x. scan_next b ch (scan_count b (scan_content x))) e
    ∙ ap (λ x. scan_next b ch (scan_count b x)) (scan_content_none c no_content)
    ∙ ap (scan_next b ch) (scan_count_none b c no_count)
    ∙ scan_next_none b ch c no_link

-- A bare line without an author changes the character set at most.
pub on_unkown_bare :
    (b : Boost) (l : Line) (p : Page)
    → contains author_meta l.html ≡ false
    → IsBare l.html
    → on_unkown b l.raw l.html p ≡ stays (record { self = p.self; chareset = read_chareset b l p })
on_unkown_bare b l p a h =
    scanned b l p (record { html = l.html; self = p.self })
      (scan_author_none b (record { html = l.html; self = p.self }) a) h

abbrev by_author : Boost → Text → TianyaContext → TianyaContext
by_author b name t = record t { author = first_author b t.author name }

scan_author_at :
    (b : Boost) (c : Scan) (i j : ℕ)
    → is_empty c.self.author ≡ true
    → contains author_meta c.html ≡ true
    → find_last_of quote c.html ≡ some i
    → find_last_of quote (take i c.html) ≡ some j
    → scan_author b c ≡ record {
      html = b.trim (drop (suc j) (take i c.html));
      self = record (c.self) { author = b.trim (drop (suc j) (take i c.html)) };
    }
unfolding scan_author
scan_author_at b c i j e h f g = rw e (rw h (rw (f, scan_author) (rw (g, scan_author) refl)))

is_quote : mem_char b'"' quote ≡ true
unfolding mem_char
is_quote = refl

-- The first line with an author tells it.
scan_author_first :
    (b : Boost) (l : Line) (name : Text) (t : TianyaContext)
    → IsBy b l.html name
    → is_empty t.author ≡ true
    → scan_author b (record { html = l.html; self = t })
      ≡ record { html = b.trim name; self = record t { author = b.trim name } }
scan_author_first b l name t v e =
    let front = v.before ++ b'"' ∷ name in
    let taken : take (length front) l.html ≡ front =
      ap (take (length front)) v.html_lem ∙ take-length front (b'"' ∷ v.behind) in
    scan_author_at b (record { html = l.html; self = t }) (length front) (length v.before) e v.tells
      (ap (find_last_of quote) v.html_lem
        ∙ find_last_of-append quote front b'"' v.behind is_quote v.behind_free)
      (ap (find_last_of quote) taken
        ∙ find_last_of-append quote v.before b'"' name is_quote v.name_free)
    ∙ ap (λ x. record { html = b.trim x; self = record t { author = b.trim x } })
        (ap (drop (suc (length v.before))) taken ∙ drop-length v.before b'"' name)

scan_author_known : (b : Boost) (c : Scan) → is_empty c.self.author ≡ false → scan_author b c ≡ c
unfolding scan_author
scan_author_known b c h = rw h refl

-- A line with an author: it is taken for the author of the whole if none is known.
pub on_unkown_by :
    (b : Boost) (l : Line) (name : Text) (p : Page)
    → IsBy b l.html name
    → on_unkown b l.raw l.html p
      ≡ stays (record {
        self = record (p.self) { author = first_author b p.self.author name };
        chareset = p.chareset;
      })
on_unkown_by b l name p v = elim (Bool-cases (is_empty p.self.author)) [
  | inl e ↦
      scanned b l p _ (scan_author_first b l name p.self v e) v.name_bare
      ∙ rw (e, v.no_chareset) refl
  | inr k ↦
      scanned b l p _ (scan_author_known b (record { html = l.html; self = p.self }) k) v.bare
      ∙ rw (k, v.no_chareset) refl
]

-- A line with the count of pages changes the count at most.
scan_count_keeps :
    (b : Boost) (c : Scan)
    → contains (codes "下页") c.html ≡ false
    → contains (codes "下页") (b.trim c.html) ≡ false
    → (n : ℤ) × ((scan_count b c).self ≡ record (c.self) { page_count = n })
      × (contains (codes "下页") (scan_count b c).html ≡ false)
unfolding scan_count
scan_count_keeps b c h k =
    elim (Bool-cases
      (eqb_ℤ c.self.page_count (negsuc 0) && contains (codes "pageCount :") c.html)) [
        | inr f ↦ rw f (c.self.page_count, refl, h)
        | inl t ↦ rw t (elim (Option-cases (scan_page_count (b.trim c.html))) [
          | inl e ↦ rw e (c.self.page_count, refl, k)
          | inr (n, e) ↦ rw e (n, refl, k)
        ])
      ]

pub on_unkown_counting :
    (b : Boost) (l : Line) (p : Page)
    → IsCount b l.html
    → (n : ℤ) × (on_unkown b l.raw l.html p
        ≡ stays (record { self = record (p.self) { page_count = n }; chareset = p.chareset }))
unfolding on_unkown
on_unkown_counting b l p v =
    let c : Scan = record { html = l.html; self = p.self } in
    let (n, e, h) = scan_count_keeps b c v.no_link v.trimmed in
    let ch = read_chareset b l p in
    (
      n,
      ap (λ x. scan_next b ch (scan_count b (scan_content x))) (scan_author_none b c v.no_author)
          ∙ ap (λ x. scan_next b ch (scan_count b x)) (scan_content_none c v.no_content)
          ∙ scan_next_none b ch (scan_count b c) h
          ∙ rw (e, v.no_chareset) refl,
    )

-- The first line of a post.
pub on_unkown_start :
    (b : Boost) (l : Line) (p : Page)
    → IsStart l.html
    → on_unkown b l.raw l.html p
      ≡ stays (record {
        self = record (p.self) { context = []; state = state_div_bbs_content };
        chareset = p.chareset;
      })
unfolding on_unkown
on_unkown_start b l p v =
    let c : Scan = record { html = l.html; self = p.self } in
    let d : Scan = record {
      html = l.html;
      self = record (p.self) { context = []; state = state_div_bbs_content };
    } in
    let ch = read_chareset b l p in
    let found : scan_content c ≡ d = unfold scan_content in rw v.content refl in
    ap (λ x. scan_next b ch (scan_count b (scan_content x))) (scan_author_none b c v.no_author)
    ∙ ap (λ x. scan_next b ch (scan_count b x)) found
    ∙ ap (scan_next b ch) (scan_count_none b d v.no_count)
    ∙ scan_next_none b ch d v.no_link
    ∙ rw v.no_chareset refl
