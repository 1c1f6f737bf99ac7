-- ===== src/TianyaContext/Posts.antt =====
-- What becomes of a post: of the author's own, of somebody else's, and of an answer to a user.
use tianya.Prelude.{
  ◌≡◌, refl, ap, ◌∙◌, Bool, true, false, ◌&&◌, is_some, List, [], ◌∷◌, ◌++◌, arith, if◌then◌else◌,
}
use tianya.Text.{Text, codes, contains, equal, equal_iff}
use tianya.Text.Find.{contains_prefix}
use tianya.Boost.{Boost}
use tianya.Html.{strip_tags}
use tianya.TianyaContext.Machine.{
  state_unkown, state_div_bbs_content, state_author, one_content_fetched, TianyaContext, Page,
  stays, on_post_of, note_user, add_user, add_post, names_user, names_any, is_reply, post_text,
  replytime_pattern, dispatch,
}
use tianya.TianyaContext.Session.{Event, line, read_loop}
use tianya.TianyaContext.Post.{
  PostText, texts, IsPost, post_events, step, with_text, on_div_end, body_run, on_author_marked,
  settled,
}

note_user_abort : (u : Text) (t : TianyaContext) → (note_user u t).abort ≡ t.abort
unfolding note_user
note_user_abort u t = ground arith

add_post_abort : (b : Boost) (text : Text) (t : TianyaContext) → (add_post b text t).abort ≡ t.abort
unfolding add_post
add_post_abort b text t = ground arith

on_post_of_abort :
    (b : Boost) (html who : Text) (t : TianyaContext) → (on_post_of b html who t).abort ≡ t.abort
unfolding on_post_of
on_post_of_abort b html who t =
    ground
      (arith, note_user_abort who t, add_post_abort b (post_text b t.context) (note_user who t))

pub post_run :
    (b : Boost) (who : Text) (d : PostText) (p : Page) (rest : List Event)
    → IsPost b p.chareset who d
    → p.self.state ≡ state_div_bbs_content
    → p.self.abort ≡ false
    → read_loop b p (post_events d rest)
      ≡ read_loop b (record p { self = settled b who d p.self }) rest
post_run b who d p rest v s a =
    body_run b d.body p (line d.closing.raw ∷ line d.mark.raw ∷ rest) s a v.body_reads
    ∙ step b q r d.closing (line d.mark.raw ∷ rest) v.closing_reads
        (ap (λ s. dispatch b s d.closing.raw d.closing.html q) s
          ∙ (unfold dispatch in
              ap (λ t. stays (record q { self = t })) (on_div_end d.closing.html q.self v.closes)))
        a
    ∙ step b r (record p { self = settled b who d p.self }) d.mark rest v.mark_reads
        (unfold dispatch in
          ap (λ t. stays (record p { self = t })) (on_author_marked b p.chareset who d r.self v))
        (on_post_of_abort b d.mark.html who r.self ∙ a)
  where
    q : Page
    q = with_text p (p.self.context ++ texts d.body)

    r : Page
    r = record p {
      self = record (p.self) { context = p.self.context ++ texts d.body; state = state_author };
    }

-- What the author wrote, as it is kept.
abbrev pub kept_text : Boost → PostText → TianyaContext → Text
kept_text b d t = strip_tags b (post_text b (t.context ++ texts d.body))

on_post_of_author :
    (b : Boost) (html who : Text) (t : TianyaContext)
    → is_some (b.regex_search replytime_pattern html) ≡ true
    → equal who t.author ≡ true
    → t.filter_reply ≡ false
    → on_post_of b html who t ≡ record t {
      context = strip_tags b (post_text b t.context);
      posts = t.posts ++ strip_tags b (post_text b t.context) ∷ [];
      log = t.log ++ one_content_fetched (strip_tags b (post_text b t.context)) ∷ [];
    }
unfolding on_post_of note_user add_post
on_post_of_author b html who t dated same off = simp (dated, same, off)

-- With the filter off, the lines of a post by the author of the whole lead back to the state between
-- posts with exactly one post more, its text without tags, kept and signalled; nothing else changes.
pub read_loop-author_post :
    (b : Boost) (who : Text) (d : PostText) (p : Page) (rest : List Event)
    → IsPost b p.chareset who d
    → p.self.state ≡ state_div_bbs_content
    → p.self.abort ≡ false
    → p.self.filter_reply ≡ false
    → who ≡ p.self.author
    → read_loop b p (post_events d rest)
      ≡ read_loop b
          (record p {
            self = record (p.self) {
              state = state_unkown;
              context = [];
              posts = p.self.posts ++ kept_text b d p.self ∷ [];
              log = p.self.log ++ one_content_fetched (kept_text b d p.self) ∷ [];
            };
          })
          rest
read_loop-author_post b who d p rest v s a off same =
    post_run b who d p rest v s a
    ∙ ap
        (λ t.
          read_loop b (record p { self = record t { context = []; state = state_unkown } }) rest)
        (on_post_of_author b d.mark.html who _ v.dated ((equal_iff who p.self.author).1 same) off)

if_users :
    (c : Bool) (us : List Text) (t : TianyaContext)
    → (if c then record t { users = us } else t) ≡ record t { users = if c then us else t.users }
if_users true us t = refl
if_users false us t = refl

note_user_lem :
    (who : Text) (t : TianyaContext)
    → note_user who t
      ≡ record t { users = if t.filter_reply then add_user who t.users else t.users }
unfolding note_user
note_user_lem who t = if_users t.filter_reply (add_user who t.users) t

on_post_of_other :
    (b : Boost) (html who : Text) (t : TianyaContext)
    → equal who t.author ≡ false
    → on_post_of b html who t
      ≡ record t { users = if t.filter_reply then add_user who t.users else t.users }
unfolding on_post_of
on_post_of_other b html who t other = simp other (note_user_lem who t)

-- A post by anybody else leaves no trace but the name, which the filter keeps where it is on: the
-- posts and all that leaves the object are as before.
pub read_loop-other_post :
    (b : Boost) (who : Text) (d : PostText) (p : Page) (rest : List Event)
    → IsPost b p.chareset who d
    → p.self.state ≡ state_div_bbs_content
    → p.self.abort ≡ false
    → equal who p.self.author ≡ false
    → read_loop b p (post_events d rest)
      ≡ read_loop b
          (record p {
            self = record (p.self) {
              state = state_unkown;
              context = [];
              users = if p.self.filter_reply then add_user who p.self.users else p.self.users;
            };
          })
          rest
read_loop-other_post b who d p rest v s a other =
    post_run b who d p rest v s a
    ∙ ap
        (λ t.
          read_loop b (record p { self = record t { context = []; state = state_unkown } }) rest)
        (on_post_of_other b d.mark.html who _ other)

on_post_of_own :
    (b : Boost) (html who : Text) (t : TianyaContext)
    → is_some (b.regex_search replytime_pattern html) ≡ true
    → equal who t.author ≡ true
    → on_post_of b html who t
      ≡ add_post b
          (post_text b t.context)
          (record t { users = if t.filter_reply then add_user who t.users else t.users })
unfolding on_post_of
on_post_of_own b html who t dated same =
    simp (dated, same) (ap (add_post b (post_text b t.context)) (note_user_lem who t))

-- A post by the author, with the filter on or off: it is added behind the note of the user.
pub own_run :
    (b : Boost) (who : Text) (d : PostText) (p : Page) (rest : List Event)
    → IsPost b p.chareset who d
    → p.self.state ≡ state_div_bbs_content
    → p.self.abort ≡ false
    → equal who p.self.author ≡ true
    → read_loop b p (post_events d rest)
      ≡ read_loop b
          (record p {
            self =
                record (add_post b (post_text b (p.self.context ++ texts d.body)) (record (p.self) {
                  context = p.self.context ++ texts d.body;
                  state = state_author;
                  users = if p.self.filter_reply then add_user who p.self.users else p.self.users;
                })) { context = []; state = state_unkown };
          })
          rest
own_run b who d p rest v s a same =
    post_run b who d p rest v s a
    ∙ ap
        (λ t.
          read_loop b (record p { self = record t { context = []; state = state_unkown } }) rest)
        (on_post_of_own b d.mark.html who _ v.dated same)

pub add_post_answer :
    (b : Boost) (text : Text) (t : TianyaContext)
    → (t.filter_reply && is_reply text t.users) ≡ true
    → add_post b text t ≡ record t { context = text; log = t.log ++ one_content_fetched text ∷ [] }
unfolding add_post
add_post_answer b text t h = rw h refl

pub add_post_kept :
    (b : Boost) (text : Text) (t : TianyaContext)
    → (t.filter_reply && is_reply text t.users) ≡ false
    → add_post b text t ≡ record t {
      context = strip_tags b text;
      posts = t.posts ++ strip_tags b text ∷ [];
      log = t.log ++ one_content_fetched (strip_tags b text) ∷ [];
    }
unfolding add_post
add_post_kept b text t h = rw h refl

-- A user among the names answers for the whole list.
names_any-append :
    (text u : Text) (before behind : List Text)
    → names_user text u ≡ true
    → names_any text (before ++ u ∷ behind) ≡ true
unfolding names_any
names_any-append text u [] behind h = ground arith
names_any-append text u (s ∷ before) behind h =
    ground (arith, names_any-append text u before behind h)

names_any-add_user :
    (text w : Text) (us : List Text)
    → names_any text us ≡ true
    → names_any text (add_user w us) ≡ true
unfolding names_any add_user
names_any-add_user text w [] h = cc
names_any-add_user text w (s ∷ us) h = ground (arith, names_any-add_user text w us)

-- A text that has a known user behind an `@` is a reply.
is_reply_known :
    (text u w : Text) (before behind : List Text)
    → contains (codes "@" ++ u) text ≡ true
    → is_reply text (add_user w (before ++ u ∷ behind)) ≡ true
unfolding is_reply
is_reply_known text u w before behind h = ground (
  arith,
  contains_prefix (codes "@") u text h,
  names_any-add_user text w (before ++ u ∷ behind)
      (names_any-append text u before behind (unfold names_user in ground arith)),
)

note_user_on :
    (who : Text) (t : TianyaContext)
    → t.filter_reply ≡ true
    → note_user who t ≡ record t { users = add_user who t.users }
unfolding note_user
note_user_on who t on = simp on

add_post_reply :
    (b : Boost) (text : Text) (t : TianyaContext)
    → t.filter_reply ≡ true
    → is_reply text t.users ≡ true
    → add_post b text t ≡ record t { context = text; log = t.log ++ one_content_fetched text ∷ [] }
unfolding add_post
add_post_reply b text t on r = simp (on, r)

on_post_of_reply :
    (b : Boost) (html who u : Text) (t : TianyaContext) (before behind : List Text)
    → is_some (b.regex_search replytime_pattern html) ≡ true
    → equal who t.author ≡ true
    → t.filter_reply ≡ true
    → t.users ≡ before ++ u ∷ behind
    → contains (codes "@" ++ u) (post_text b t.context) ≡ true
    → on_post_of b html who t ≡ record t {
      context = post_text b t.context;
      users = add_user who t.users;
      log = t.log ++ one_content_fetched (post_text b t.context) ∷ [];
    }
unfolding on_post_of
on_post_of_reply b html who u t before behind dated same on us h =
    simp (dated, same)
      (rw (note_user_on who t on) (
        add_post_reply b (post_text b t.context) (record t { users = add_user who t.users }) on
          (rw us (is_reply_known (post_text b t.context) u who before behind h))))

-- With the filter on, a post of the author that names a user met before behind an `@` is signalled,
-- with its tags, and not kept: the posts are as before.
pub read_loop-reply_post :
    (b : Boost) (who u : Text) (d : PostText) (p : Page) (rest : List Event)
    (before behind : List Text)
    → IsPost b p.chareset who d
    → p.self.state ≡ state_div_bbs_content
    → p.self.abort ≡ false
    → p.self.filter_reply ≡ true
    → who ≡ p.self.author
    → p.self.users ≡ before ++ u ∷ behind
    → contains (codes "@" ++ u) (post_text b (p.self.context ++ texts d.body)) ≡ true
    → read_loop b p (post_events d rest)
      ≡ read_loop b
          (record p {
            self = record (p.self) {
              state = state_unkown;
              context = [];
              users = add_user who p.self.users;
              log =
                  p.self.log
                  ++ one_content_fetched (post_text b (p.self.context ++ texts d.body)) ∷ [];
            };
          })
          rest
read_loop-reply_post b who u d p rest before behind v s a on same us h =
    post_run b who d p rest v s a
    ∙ ap
        (λ t.
          read_loop b (record p { self = record t { context = []; state = state_unkown } }) rest)
        (on_post_of_reply b d.mark.html who u _ before behind v.dated
          ((equal_iff who p.self.author).1 same) on us h)
