-- ===== src/TianyaContext/Thread/Steps.antt =====
-- The run of tianya_context over the parts of a page.
use mathlib.Core.List.{append-nil}
use tianya.Prelude.{
  ◌≡◌, refl, ap, ◌∙◌, sym, Bool, true, false, ◌&&◌, List, [], ◌∷◌, ◌++◌, if◌then◌else◌, Bool-cases,
  inl, inr,
}
use tianya.Text.{Text, equal}
use tianya.Boost.{Boost}
use tianya.Util.{get_chareset}
use tianya.Http.{Line, Reads}
use tianya.TianyaContext.Machine.{
  state_unkown, state_div_bbs_content, one_content_fetched, Page, stays, on_unkown, dispatch,
  add_user, is_reply, post_text, state_author, TianyaContext, add_post,
}
use tianya.TianyaContext.Session.{Event, line, read_loop}
use tianya.TianyaContext.Post.{PostText, IsPost, post_events, step, texts}
use tianya.TianyaContext.Posts.{own_run, read_loop-other_post, add_post_answer, add_post_kept}
use tianya.TianyaContext.Thread.{
  Part, other, naming, by, counting, post, parts_events, chareset_after, IsStart, AreParts, Known,
  note, name_author, known_after, chunk, chunks_of, first_author,
}
use tianya.TianyaContext.Thread.Gains.{
  Stands, stands-same, Gains, gains-trans, gains-append, gains-same,
}
use tianya.TianyaContext.Thread.Parts.{
  on_unkown_bare, on_unkown_by, on_unkown_counting, on_unkown_start,
}

-- The parts lead from one page to another, whatever follows them.
pub record Read (v : Bool) (b : Boost) (k : Known) (link : Text) (parts : List Part) (p : Page)
    : Type 0 where
  pub page : Page
  pub runs : (rest : List Event) → read_loop b p (parts_events parts rest) ≡ read_loop b page rest
  pub chareset_lem : page.chareset ≡ chareset_after b p.chareset parts
  pub stands : Stands v (known_after v b k parts) link page.self
  pub gains : Gains p.self page.self (chunks_of v b k parts) []

extend :
    (v : Bool) (b : Boost) (k n : Known) (link : Text) (x : Part) (parts : List Part) (p q : Page)
    (ps : List (Text × Bool))
    → ((rest : List Event)
        → read_loop b p (parts_events (x ∷ parts) rest) ≡ read_loop b q (parts_events parts rest))
    → chareset_after b q.chareset parts ≡ chareset_after b p.chareset (x ∷ parts)
    → known_after v b k (x ∷ parts) ≡ known_after v b n parts
    → chunks_of v b k (x ∷ parts) ≡ ps ++ chunks_of v b n parts
    → Gains p.self q.self ps []
    → Read v b n link parts q
    → Read v b k link (x ∷ parts) p
extend v b k n link x parts p q ps run ch kn po g r = record {
  page = r.page;
  runs = λ rest. run rest ∙ r.runs rest;
  chareset_lem = r.chareset_lem ∙ ch;
  stands = rw kn r.stands;
  gains = rw po (gains-trans p.self q.self r.page.self ps (chunks_of v b n parts) [] [] g r.gains);
}

-- A line between two posts.
line_run :
    (b : Boost) (l : Line) (p q : Page) (rest : List Event)
    → Reads b p.chareset l
    → p.self.state ≡ state_unkown
    → q.self.abort ≡ false
    → on_unkown b l.raw l.html p ≡ stays q
    → read_loop b p (line l.raw ∷ rest) ≡ read_loop b q rest
line_run b l p q rest r s a e =
    step b p q l rest r (ap (λ s. dispatch b s l.raw l.html p) s ∙ (unfold dispatch in e)) a

-- A post and its first line.
abbrev started : Page → Page
started p = record p { self = record (p.self) { context = []; state = state_div_bbs_content } }

abbrev noted : Text → Page → List Text
noted who p = if p.self.filter_reply then add_user who p.self.users else p.self.users

abbrev own_post : Text → Text × Bool → Page → Page
own_post who (s, true) p = record p {
  self = record (p.self) {
    state = state_unkown;
    context = [];
    users = noted who p;
    posts = p.self.posts ++ s ∷ [];
    log = p.self.log ++ one_content_fetched s ∷ [];
  };
}
own_post who (s, false) p = record p {
  self = record (p.self) {
    state = state_unkown;
    context = [];
    users = noted who p;
    log = p.self.log ++ one_content_fetched s ∷ [];
  };
}

abbrev others_post : Text → Page → Page
others_post who p = record p {
  self = record (p.self) { state = state_unkown; context = []; users = noted who p };
}

noted_lem :
    (v : Bool) (k : Known) (link who : Text) (p : Page)
    → Stands v k link p.self
    → noted who p ≡ (note v who k).users
noted_lem v k link who p s =
    ap (λ f. if f then add_user who p.self.users else p.self.users) s.filter_lem
    ∙ ap (λ us. if v then add_user who us else us) s.users_lem

-- What is added for a post by the author, between two posts again.
settled_post : Boost → Text → PostText → Page → Page
settled_post b who d p = record p {
  self =
      record (add_post b (post_text b (texts d.body))
        (record (p.self) { context = texts d.body; state = state_author; users = noted who p })) {
          context = [];
          state = state_unkown;
        };
}

added :
    (v : Bool) (b : Boost) (k : Known) (link who : Text) (d : PostText) (p : Page)
    → Stands v k link p.self
    → settled_post b who d p ≡ own_post who (chunk v b (note v who k).users d) p
unfolding settled_post
added v b k link who d p s =
    let text = post_text b (texts d.body) in
    let u : TianyaContext = record (p.self) {
      context = texts d.body;
      state = state_author;
      users = noted who p;
    } in
    let test : (u.filter_reply && is_reply text u.users)
        ≡ (v && is_reply text (note v who k).users) =
      ap (λ f. f && is_reply text (noted who p)) s.filter_lem
      ∙ ap (λ us. v && is_reply text us) (noted_lem v k link who p s) in
    elim (Bool-cases (v && is_reply text (note v who k).users)) [
      | inl e ↦ rw e (
          ap (λ t. record p { self = record t { context = []; state = state_unkown } })
            (add_post_answer b text u (test ∙ e)))
      | inr e ↦ rw e (
          ap (λ t. record p { self = record t { context = []; state = state_unkown } })
            (add_post_kept b text u (test ∙ e)))
    ]

authors_run :
    (v : Bool) (b : Boost) (k : Known) (link who : Text) (l : Line) (d : PostText) (p : Page)
    (rest : List Event)
    → Reads b p.chareset l
    → IsStart l.html
    → IsPost b p.chareset who d
    → Stands v k link p.self
    → equal who k.author ≡ true
    → read_loop b p (line l.raw ∷ post_events d rest)
      ≡ read_loop b (own_post who (chunk v b (note v who k).users d) p) rest
unfolding settled_post
authors_run v b k link who l d p rest r h i s e =
    line_run b l p (started p) (post_events d rest) r s.state_lem s.abort_lem
      (on_unkown_start b l p h)
    ∙ own_run b who d (started p) rest i refl s.abort_lem (ap (equal who) s.author_lem ∙ e)
    ∙ ap (λ q. read_loop b q rest) (added v b k link who d p s)

others_run :
    (v : Bool) (b : Boost) (k : Known) (link who : Text) (l : Line) (d : PostText) (p : Page)
    (rest : List Event)
    → Reads b p.chareset l
    → IsStart l.html
    → IsPost b p.chareset who d
    → Stands v k link p.self
    → equal who k.author ≡ false
    → read_loop b p (line l.raw ∷ post_events d rest) ≡ read_loop b (others_post who p) rest
others_run v b k link who l d p rest r h i s e =
    line_run b l p (started p) (post_events d rest) r s.state_lem s.abort_lem
      (on_unkown_start b l p h)
    ∙ read_loop-other_post b who d (started p) rest i refl s.abort_lem
        (ap (equal who) s.author_lem ∙ e)

others_post-Stands :
    (v : Bool) (k : Known) (link who : Text) (p : Page)
    → Stands v k link p.self
    → Stands v (note v who k) link (others_post who p).self
others_post-Stands v k link who p s = record {
  state_lem = refl;
  abort_lem = s.abort_lem;
  filter_lem = s.filter_lem;
  author_lem = s.author_lem;
  users_lem = noted_lem v k link who p s;
  link_lem = s.link_lem;
}

own_post-Stands :
    (v : Bool) (k : Known) (link who : Text) (c : Text × Bool) (p : Page)
    → Stands v k link p.self
    → Stands v (note v who k) link (own_post who c p).self
own_post-Stands v k link who (x, true) p s =
    let o = others_post-Stands v k link who p s in
    stands-same v (note v who k) link (others_post who p).self _ o refl refl refl refl refl refl
own_post-Stands v k link who (x, false) p s =
    let o = others_post-Stands v k link who p s in
    stands-same v (note v who k) link (others_post who p).self _ o refl refl refl refl refl refl

own_post-Gains :
    (who : Text) (c : Text × Bool) (p : Page) → Gains p.self (own_post who c p).self (c ∷ []) []
own_post-Gains who (x, true) p =
    gains-append p.self _ ((x, true) ∷ []) (one_content_fetched x ∷ []) refl refl refl
own_post-Gains who (x, false) p =
    gains-append p.self _ ((x, false) ∷ []) (one_content_fetched x ∷ [])
      (sym (append-nil p.self.posts)) refl refl

own_post-chareset :
    (who : Text) (c : Text × Bool) (p : Page) → (own_post who c p).chareset ≡ p.chareset
own_post-chareset who (x, true) p = refl
own_post-chareset who (x, false) p = refl

pub parts_run :
    (v : Bool) (b : Boost) (k : Known) (link : Text) (parts : List Part) (p : Page)
    → AreParts b p.chareset parts
    → Stands v k link p.self
    → Read v b k link parts p
parts_run v b k link [] p a s = record {
  page = p;
  runs = λ rest. refl;
  chareset_lem = refl;
  stands = s;
  gains = gains-same p.self p.self refl refl;
}
parts_run v b k link (other l ∷ parts) p (r, m, n, (h, a)) s =
    extend v b k k link (other l) parts p p []
      (λ rest. line_run b l p p _ r s.state_lem s.abort_lem (on_unkown_bare b l p n h ∙ rw m refl))
      refl refl refl (gains-same p.self p.self refl refl) (parts_run v b k link parts p a s)
parts_run v b k link (naming l ∷ parts) p (r, m, n, (h, a)) s =
    let q : Page = record p { chareset = get_chareset b l.raw } in
    extend v b k k link (naming l) parts p q []
      (λ rest. line_run b l p q _ r s.state_lem s.abort_lem (on_unkown_bare b l p n h ∙ rw m refl))
      refl refl refl (gains-same p.self p.self refl refl) (parts_run v b k link parts q a s)
parts_run v b k link (by l name ∷ parts) p (r, (h, a)) s =
    let q : Page = record p {
      self = record (p.self) { author = first_author b p.self.author name };
    } in
    extend v b k (name_author b name k) link (by l name) parts p q []
      (λ rest. line_run b l p q _ r s.state_lem s.abort_lem (on_unkown_by b l name p h)) refl refl
      refl (gains-same p.self q.self refl refl)
      (parts_run v b (name_author b name k) link parts q a (record {
        state_lem = s.state_lem;
        abort_lem = s.abort_lem;
        filter_lem = s.filter_lem;
        author_lem = ap (λ x. first_author b x name) s.author_lem;
        users_lem = s.users_lem;
        link_lem = s.link_lem;
      }))
parts_run v b k link (counting l ∷ parts) p (r, (h, a)) s =
    let (n, e) = on_unkown_counting b l p h in
    let q : Page = record p { self = record (p.self) { page_count = n } } in
    extend v b k k link (counting l) parts p q []
      (λ rest. line_run b l p q _ r s.state_lem s.abort_lem e) refl refl refl
      (gains-same p.self q.self refl refl)
      (parts_run v b k link parts q a
        (stands-same v k link p.self q.self s s.state_lem refl refl refl refl refl))
parts_run v b k link (post who l d ∷ parts) p (r, h, (i, a)) s =
    let n = note v who k in
    let c = chunk v b n.users d in
    let q = own_post who c p in
    elim (Bool-cases (equal who k.author)) [
      | inl e ↦
          extend v b k n link (post who l d) parts p q (c ∷ [])
            (λ rest. authors_run v b k link who l d p _ r h i s e)
            (ap (λ x. chareset_after b x parts) (own_post-chareset who c p)) refl (rw e refl)
            (own_post-Gains who c p)
            (parts_run v b n link parts q (rw (own_post-chareset who c p) a)
              (own_post-Stands v k link who c p s))
      | inr e ↦
          extend v b k n link (post who l d) parts p (others_post who p) []
            (λ rest. others_run v b k link who l d p _ r h i s e) refl refl (rw e refl)
            (gains-same p.self (others_post who p).self refl refl)
            (parts_run v b n link parts (others_post who p) a (others_post-Stands v k link who p s))
    ]
