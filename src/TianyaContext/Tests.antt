-- ===== src/TianyaContext/Tests.antt =====
-- The post's reader at concrete lines.
use tianya.Prelude.{◌≡◌, refl, negsuc, Bool, true, false, List, [], ◌∷◌, ◌++◌}
use tianya.Text.{Text, codes, contains, equal}
use tianya.Html.{first_quoted, strip_tags}
use tianya.Http.{Line, Opening}
use tianya.Util.{no_url, ansi_wide}
use tianya.Sample.{plain}
use tianya.TianyaContext.Machine.{
  TianyaContext, Page, state_unkown, state_div_bbs_content, one_content_fetched, add_user,
  post_text,
}
use tianya.TianyaContext.Session.{
  read_failed, Connection, connected, resolve_failed, read_loop, crawl,
}
use tianya.TianyaContext.Complete.{Progress, crawl-Progress}
use tianya.TianyaContext.Post.{PostText, IsPost, post_events}
use tianya.TianyaContext.Posts.{
  kept_text, read_loop-author_post, read_loop-other_post, read_loop-reply_post,
}

abbrev pub reading : Bool → TianyaContext
reading filter = record {
  state = state_div_bbs_content;
  author = codes "me";
  posts = [];
  context = [];
  post_url = [];
  next_page_url = [];
  page_index = 0;
  page_count = negsuc 0;
  filter_reply = filter;
  users = codes "you" ∷ [];
  abort = false;
  is_open = true;
  log = [];
}

abbrev pub ascii : Text → Line
ascii s = record { raw = s; html = s }

abbrev pub post_by : Text → Text → PostText
post_by text who = record {
  body = ascii text ∷ [];
  closing = ascii (codes "</div>");
  mark = ascii (codes "author=\"" ++ (who ++ codes "\" replytime=\"1\""));
}

abbrev page : Bool → Page
page filter = record { self = reading filter; chareset = codes "utf-8" }

pub own-IsPost : (c : Text) → IsPost plain c (codes "me") (post_by (codes "a<font>b") (codes "me"))
unfolding ansi_wide contains equal first_quoted
own-IsPost c = record {
  body_reads = ((refl, refl), tt);
  closing_reads = refl;
  mark_reads = refl;
  closes = refl;
  marks = refl;
  what = (codes "author=\"me\" replytime=\"1\"") ∷ codes "me" ∷ [];
  named = refl;
  named_lem = refl;
  dated = refl;
}

pub other-IsPost : (c : Text) → IsPost plain c (codes "you") (post_by (codes "hi") (codes "you"))
unfolding ansi_wide contains equal first_quoted
other-IsPost c = record {
  body_reads = ((refl, refl), tt);
  closing_reads = refl;
  mark_reads = refl;
  closes = refl;
  marks = refl;
  what = (codes "author=\"you\" replytime=\"1\"") ∷ codes "you" ∷ [];
  named = refl;
  named_lem = refl;
  dated = refl;
}

pub answer-IsPost : (c : Text) → IsPost plain c (codes "me") (post_by (codes "@you") (codes "me"))
unfolding ansi_wide contains equal first_quoted
answer-IsPost c = record {
  body_reads = ((refl, refl), tt);
  closing_reads = refl;
  mark_reads = refl;
  closes = refl;
  marks = refl;
  what = (codes "author=\"me\" replytime=\"1\"") ∷ codes "me" ∷ [];
  named = refl;
  named_lem = refl;
  dated = refl;
}

kept_text_test :
    kept_text plain (post_by (codes "a<font>b") (codes "me")) (reading false) ≡ codes "ab"
unfolding post_text strip_tags contains equal
kept_text_test = refl

read_loop-author_post_test :
    read_loop plain
      (page false)
      (post_events (post_by (codes "a<font>b") (codes "me")) (read_failed ∷ []))
    ≡ read_loop plain
        (record {
          chareset = codes "utf-8";
          self = record (reading false) {
            state = state_unkown;
            context = [];
            posts = kept_text plain (post_by (codes "a<font>b") (codes "me")) (reading false) ∷ [];
            log =
                one_content_fetched
                  (kept_text plain (post_by (codes "a<font>b") (codes "me")) (reading false))
                ∷ [];
          };
        })
        (read_failed ∷ [])
read_loop-author_post_test =
    read_loop-author_post plain (codes "me") (post_by (codes "a<font>b") (codes "me")) (page false)
      (read_failed ∷ []) (own-IsPost _) refl refl refl refl

read_loop-other_post_test :
    read_loop plain
      (page true)
      (post_events (post_by (codes "hi") (codes "you")) (read_failed ∷ []))
    ≡ read_loop plain
        (record {
          chareset = codes "utf-8";
          self = record (reading true) {
            state = state_unkown;
            context = [];
            users = add_user (codes "you") (codes "you" ∷ []);
          };
        })
        (read_failed ∷ [])
unfolding equal
read_loop-other_post_test =
    read_loop-other_post plain (codes "you") (post_by (codes "hi") (codes "you")) (page true)
      (read_failed ∷ []) (other-IsPost _) refl refl refl

read_loop-reply_post_example :
    read_loop plain
      (page true)
      (post_events (post_by (codes "@you") (codes "me")) (read_failed ∷ []))
    ≡ read_loop plain
        (record {
          chareset = codes "utf-8";
          self = record (reading true) {
            state = state_unkown;
            context = [];
            users = add_user (codes "me") (codes "you" ∷ []);
            log = one_content_fetched (post_text plain (codes "@you")) ∷ [];
          };
        })
        (read_failed ∷ [])
unfolding post_text contains
read_loop-reply_post_example =
    read_loop-reply_post plain (codes "me") (codes "you") (post_by (codes "@you") (codes "me"))
      (page true) (read_failed ∷ []) [] [] (answer-IsPost _) refl refl refl refl refl refl

abbrev pub well : Opening
well = record { write_failed = false; header_failed = false; stopped = false }

abbrev pub one_post : List Connection
one_post =
    connected well (post_events (post_by (codes "hi") (codes "me")) (read_failed ∷ []))
    ∷ resolve_failed
    ∷ []

crawl-Progress_example : Progress (reading true) (crawl plain no_url one_post (reading true))
crawl-Progress_example = crawl-Progress plain no_url one_post (reading true)
