-- ===== src/TianyaContext/Grows.antt =====
-- The growth of what a download has collected, as a relation of an earlier and a later object.
use mathlib.Core.List.{Sublist, append-nil, append_assoc}
use mathlib.Core.List.Sublist
use tianya.Prelude.{
  negsuc, ◌≡◌, refl, sym, ap, ◌∙◌, ◌≢◌, Bool, true, false, List, [], ◌∷◌, ◌++◌, All, All-append,
  if◌then◌else◌,
}
use tianya.Text.{Text}
use tianya.TianyaContext.Machine.{
  Effect, resolving, sent, closed, one_content_fetched, download_complete, TianyaContext,
}

-- The posts that were signalled, in their order.
abbrev pub contents : List Effect → List Text
contents [] = []
contents (one_content_fetched c ∷ log) = c ∷ contents log
contents (resolving d p ui ∷ log) = contents log
contents (sent r ∷ log) = contents log
contents (closed ∷ log) = contents log
contents (download_complete ∷ log) = contents log

pub contents-append : (xs ys : List Effect) → contents (xs ++ ys) ≡ contents xs ++ contents ys
contents-append [] ys = refl
contents-append (one_content_fetched c ∷ xs) ys = rw (contents-append xs ys)
contents-append (resolving d p ui ∷ xs) ys = contents-append xs ys
contents-append (sent r ∷ xs) ys = contents-append xs ys
contents-append (closed ∷ xs) ys = contents-append xs ys
contents-append (download_complete ∷ xs) ys = contents-append xs ys

abbrev pub is_complete : Effect → Bool
is_complete download_complete = true
is_complete (one_content_fetched c) = false
is_complete (resolving d p ui) = false
is_complete (sent r) = false
is_complete closed = false

-- No end of the download is signalled.
abbrev pub IsQuiet : List Effect → Type 0
IsQuiet log = All (λ e. is_complete e ≡ false) log

-- From one object to a later one: the posts and the effects are those of before and new ones behind
-- them, the new posts are among those signalled since, in that order, no end was signalled, and an
-- author or a page count that was known is the same.
pub record Grows (t u : TianyaContext) : Type 0 where
  pub new_posts : List Text
  pub new_log : List Effect
  pub posts_grow : u.posts ≡ t.posts ++ new_posts
  pub log_grows : u.log ≡ t.log ++ new_log
  pub kept : Sublist new_posts (contents new_log)
  pub quiet : IsQuiet new_log
  pub author_stays : t.author ≢ [] → u.author ≡ t.author
  pub count_stays : t.page_count ≢ negsuc 0 → u.page_count ≡ t.page_count

-- With no new post and no new effect.
pub still :
    (t u : TianyaContext)
    → u.posts ≡ t.posts
    → u.log ≡ t.log
    → (t.author ≢ [] → u.author ≡ t.author)
    → (t.page_count ≢ negsuc 0 → u.page_count ≡ t.page_count)
    → Grows t u
still t u p l a c = record {
  new_posts = [];
  new_log = [];
  posts_grow = p ∙ sym (append-nil t.posts);
  log_grows = l ∙ sym (append-nil t.log);
  kept = Sublist.refl [];
  quiet = tt;
  author_stays = a;
  count_stays = c;
}

-- With one effect that neither signals a post nor the end.
pub emits :
    (t u : TianyaContext) (e : Effect)
    → u.posts ≡ t.posts
    → u.log ≡ t.log ++ e ∷ []
    → contents (e ∷ []) ≡ []
    → is_complete e ≡ false
    → u.author ≡ t.author
    → u.page_count ≡ t.page_count
    → Grows t u
emits t u e p l n q a c = record {
  new_posts = [];
  new_log = e ∷ [];
  posts_grow = p ∙ sym (append-nil t.posts);
  log_grows = l;
  kept = rw n (Sublist.refl []);
  quiet = (q, tt);
  author_stays = λ _. a;
  count_stays = λ _. c;
}

pub Grows-refl : (t : TianyaContext) → Grows t t
Grows-refl t = still t t refl refl (λ _. refl) (λ _. refl)

pub Grows-trans : {t u v : TianyaContext} → Grows t u → Grows u v → Grows t v
Grows-trans {t} {u} {v} g h = record {
  new_posts = g.new_posts ++ h.new_posts;
  new_log = g.new_log ++ h.new_log;
  posts_grow =
      h.posts_grow
      ∙ ap (λ l. l ++ h.new_posts) g.posts_grow
      ∙ append_assoc t.posts g.new_posts h.new_posts;
  log_grows =
      h.log_grows ∙ ap (λ l. l ++ h.new_log) g.log_grows ∙ append_assoc t.log g.new_log h.new_log;
  kept = rw (contents-append g.new_log h.new_log) (Sublist.append g.kept h.kept);
  quiet = All-append _ g.new_log h.new_log g.quiet h.quiet;
  author_stays = λ n. h.author_stays (λ e. n (sym (g.author_stays n) ∙ e)) ∙ g.author_stays n;
  count_stays = λ n. h.count_stays (λ e. n (sym (g.count_stays n) ∙ e)) ∙ g.count_stays n;
}

pub if_Grows :
    (c : Bool) (t u v : TianyaContext) → Grows t u → Grows t v → Grows t (if c then u else v)
if_Grows true t u v g h = g
if_Grows false t u v g h = h
