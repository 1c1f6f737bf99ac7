-- ===== src/TianyaContext/Collect.antt =====
-- What a line adds to what a download has collected.
use mathlib.Core.List.{append-nil}
use mathlib.Core.List.Sublist
use tianya.Prelude.{
  negsuc, ◌≡◌, refl, sym, Bool, true, false, [], ◌∷◌, is_some, eqb_ℤ, eqb_ℤ_iff, ◌&&◌, inl, inr,
  Bool-cases, Option-cases, take,
}
use tianya.Text.{Text, codes, contains, is_empty, equal, find_last_of}
use tianya.Boost.{Boost, capture}
use tianya.Util.{ansi_wide}
use tianya.Html.{quote, first_quoted, strip_tags}
use tianya.TianyaContext.Machine.{
  State, state_unkown, state_div_bbs_content, state_author, one_content_fetched, TianyaContext,
  Page, Turn, stays, follows, throws, Scan, scan_author, scan_content, scan_page_count, scan_count,
  scan_next, next_page, on_unkown, on_div, on_author, on_post_of, note_user, add_post, is_reply,
  post_text, author_pattern, replytime_pattern, author_meta, dispatch, handle_line,
}
use tianya.TianyaContext.Session.{Run, waiting, returned, following, thrown}
use tianya.TianyaContext.Grows.{Grows, still, emits, Grows-refl, Grows-trans, if_Grows}

abbrev pub turn_self : Turn → TianyaContext
turn_self (stays p) = p.self
turn_self (follows t) = t
turn_self (throws t) = t

abbrev pub run_self : Run → TianyaContext
run_self (waiting p) = p.self
run_self (returned t) = t
run_self (following t) = t
run_self (thrown t) = t

is_empty-nil : (s : Text) (c : Bool) → (is_empty s && c) ≡ true → s ≡ []
unfolding is_empty
is_empty-nil [] c h = refl
is_empty-nil (d ∷ s) c h = cc

and_left : (a c : Bool) → (a && c) ≡ true → a ≡ true
and_left true c h = refl
and_left false c h = cc

-- With another text or state and nothing else.
reset :
    (t u : TianyaContext) (s : State) (c : Text)
    → Grows t u
    → Grows t (record u { state = s; context = c })
reset t u s c g = Grows-trans g (still u _ refl refl (λ _. refl) (λ _. refl))

scan_author-Grows : (b : Boost) (c : Scan) → Grows c.self (scan_author b c).self
unfolding scan_author
scan_author-Grows b c = elim (Bool-cases (is_empty c.self.author && contains author_meta c.html)) [
  | inr e ↦ rw (e, scan_author) (Grows-refl c.self)
  | inl e ↦
      rw (e, scan_author)
        (elim (Option-cases (find_last_of quote c.html)) [
          | inl f ↦ rw f (Grows-refl c.self)
          | inr (i, f) ↦ rw f (elim (Option-cases (find_last_of quote (take i c.html))) [
            | inl g ↦ rw g (Grows-refl c.self)
            | inr (j, g) ↦ rw g (
                still c.self _ refl refl (λ n. absurd (n (is_empty-nil c.self.author _ e)))
                  (λ _. refl))
          ])
        ])
]

scan_content-Grows : (c : Scan) → Grows c.self (scan_content c).self
unfolding scan_content
scan_content-Grows c = elim (Bool-cases (contains (codes "<div class=\"bbs-content") c.html)) [
  | inl e ↦ rw (e, scan_content) (still c.self _ refl refl (λ _. refl) (λ _. refl))
  | inr e ↦ rw (e, scan_content) (Grows-refl c.self)
]

scan_count-Grows : (b : Boost) (c : Scan) → Grows c.self (scan_count b c).self
unfolding scan_count
scan_count-Grows b c =
    elim (Bool-cases
      (eqb_ℤ c.self.page_count (negsuc 0) && contains (codes "pageCount :") c.html)) [
        | inr e ↦ rw (e, scan_count) (Grows-refl c.self)
        | inl e ↦
            rw (e, scan_count)
              (elim (Option-cases (scan_page_count (b.trim c.html))) [
                | inl f ↦ rw f (Grows-refl c.self)
                | inr (n, f) ↦ rw f (
                    still c.self _ refl refl (λ _. refl)
                      (λ m.
                        absurd (m ((eqb_ℤ_iff c.self.page_count (negsuc 0)).0 (and_left _ _ e)))))
              ])
      ]

next_page-Grows : (b : Boost) (url : Text) (t : TianyaContext) → Grows t (next_page b url t)
unfolding next_page
next_page-Grows b url t = emits t _ _ refl refl refl refl refl refl

scan_next-Grows :
    (b : Boost) (chareset : Text) (c : Scan) → Grows c.self (turn_self (scan_next b chareset c))
unfolding scan_next
scan_next-Grows b chareset c = elim (Bool-cases (contains (codes "下页") c.html)) [
  | inr e ↦ rw (e, scan_next) (Grows-refl c.self)
  | inl e ↦
      rw (e, scan_next)
        (elim (Bool-cases (is_empty c.self.next_page_url)) [
          | inl f ↦ rw f (still c.self _ refl refl (λ _. refl) (λ _. refl))
          | inr f ↦ rw f (elim (Option-cases (first_quoted c.html)) [
            | inl g ↦ rw g (Grows-refl c.self)
            | inr (path, g) ↦ rw g (next_page-Grows b _ c.self)
          ])
        ])
]

on_div-Grows : (html : Text) (t : TianyaContext) → Grows t (on_div html t)
unfolding on_div
on_div-Grows html t = elim (Bool-cases (contains (codes "</div>") html)) [
  | inl e ↦ rw e (still t _ refl refl (λ _. refl) (λ _. refl))
  | inr e ↦ rw e (still t _ refl refl (λ _. refl) (λ _. refl))
]

note_user-Grows : (u : Text) (t : TianyaContext) → Grows t (note_user u t)
unfolding note_user
note_user-Grows u t =
    if_Grows t.filter_reply t _ t (still t _ refl refl (λ _. refl) (λ _. refl)) (Grows-refl t)

-- A post that is kept is the one that is signalled.
add_post-Grows : (b : Boost) (text : Text) (t : TianyaContext) → Grows t (add_post b text t)
unfolding add_post
add_post-Grows b text t = elim (Bool-cases (t.filter_reply && is_reply text t.users)) [
  | inl e ↦
      rw (e, add_post)
        (record {
          new_posts = [];
          new_log = one_content_fetched text ∷ [];
          posts_grow = sym (append-nil t.posts);
          log_grows = refl;
          kept = Sublist.cons text (Sublist.refl []);
          quiet = (refl, tt);
          author_stays = λ _. refl;
          count_stays = λ _. refl;
        })
  | inr e ↦
      rw (e, add_post)
        (record {
          new_posts = strip_tags b text ∷ [];
          new_log = one_content_fetched (strip_tags b text) ∷ [];
          posts_grow = refl;
          log_grows = refl;
          kept = Sublist.refl (strip_tags b text ∷ []);
          quiet = (refl, tt);
          author_stays = λ _. refl;
          count_stays = λ _. refl;
        })
]

on_post_of-Grows :
    (b : Boost) (html author : Text) (t : TianyaContext) → Grows t (on_post_of b html author t)
unfolding on_post_of
on_post_of-Grows b html author t =
    elim (Bool-cases (equal author t.author && is_some (b.regex_search replytime_pattern html))) [
      | inl e ↦ rw e (
          Grows-trans (note_user-Grows author t)
            (add_post-Grows b (post_text b t.context) (note_user author t)))
      | inr e ↦ rw e (note_user-Grows author t)
    ]

on_author-Grows : (b : Boost) (html : Text) (t : TianyaContext) → Grows t (on_author b html t)
unfolding on_author
on_author-Grows b html t = elim (Bool-cases (contains (codes "author") html)) [
  | inr e ↦ rw (e, on_author) (Grows-refl t)
  | inl e ↦
      rw (e, on_author)
        (elim (Option-cases (b.regex_search author_pattern html)) [
          | inl f ↦ rw f (reset t t state_unkown [] (Grows-refl t))
          | inr (what, f) ↦
              rw f (reset t _ state_unkown [] (on_post_of-Grows b html (b.trim (capture what 1)) t))
        ])
]

on_unkown-Grows :
    (b : Boost) (raw html : Text) (p : Page) → Grows p.self (turn_self (on_unkown b raw html p))
unfolding on_unkown
on_unkown-Grows b raw html p =
    Grows-trans (scan_author-Grows b (record { html = html; self = p.self })) (
      Grows-trans (scan_content-Grows _)
        (Grows-trans (scan_count-Grows b _) (scan_next-Grows b _ _)))

dispatch-Grows :
    (b : Boost) (s : State) (raw html : Text) (p : Page)
    → Grows p.self (turn_self (dispatch b s raw html p))
unfolding dispatch
dispatch-Grows b state_unkown raw html p = on_unkown-Grows b raw html p
dispatch-Grows b state_div_bbs_content raw html p = on_div-Grows html p.self
dispatch-Grows b state_author raw html p = on_author-Grows b html p.self

pub handle_line-Grows :
    (b : Boost) (raw : Text) (p : Page) → Grows p.self (turn_self (handle_line b raw p))
unfolding handle_line
handle_line-Grows b raw p = elim (Option-cases (ansi_wide b raw p.chareset)) [
  | inl e ↦ rw (e, handle_line, turn_self) (Grows-refl p.self)
  | inr (html, e) ↦ rw (e, handle_line, turn_self) (dispatch-Grows b p.self.state raw html p)
]
