-- ===== src/TianyaContext/Thread/Tests.antt =====
-- A post of two pages: the first has the author, the count of pages, a post of the author and both
-- links, the last a post by somebody else and one of the author.
use tianya.Prelude.{◌≡◌, refl, false, none, some, List, [], ◌∷◌, ◌++◌, map}
use tianya.Text.{Text, codes, mem_char, contains, equal, is_empty}
use tianya.Html.{quote, first_quoted, strip_tags}
use tianya.Util.{ansi_wide, parser_url}
use tianya.Sample.{plain, free}
use tianya.TianyaContext.Machine.{TianyaContext, start, post_text}
use tianya.TianyaContext.Session.{line, crawl, serialize, serialize_to_file}
use tianya.TianyaContext.Paging.{IsLink}
use tianya.TianyaContext.Tests.{reading, ascii, post_by, own-IsPost, other-IsPost, answer-IsPost}
use tianya.TianyaContext.Thread.{
  Part, other, naming, by, counting, post, IsBy, IsStart, IsCount, AreParts,
}
use tianya.TianyaContext.Thread.Gains.{heard, asked}
use tianya.TianyaContext.Thread.Pages.{
  PageText, utf_8, IsPage, thread, thread_posts, thread_requests,
}
use tianya.TianyaContext.Thread.Whole.{crawl-thread}

abbrev pub fresh : TianyaContext
fresh = record (reading false) { author = [] }

abbrev mine : Part
mine =
    post (codes "me") (ascii (codes "<div class=\"bbs-content\">"))
      (post_by (codes "a<font>b") (codes "me"))

abbrev theirs : Part
theirs =
    post (codes "you") (ascii (codes "<div class=\"bbs-content\">"))
      (post_by (codes "hi") (codes "you"))

abbrev first_page : PageText
first_page = record {
  parts =
      naming (ascii (codes "<meta charset=\"gbk\">"))
      ∷ by (ascii (codes "<meta name=\"author\" content=\"me\">")) (codes "me")
      ∷ counting (ascii (codes "\tpageCount : 2,\r"))
      ∷ [];
  first = ascii (codes "<a href=\"/p2\">下页</a>");
  between = mine ∷ [];
  second = ascii (codes "<a href=\"/p2\">下页</a>");
  path = codes "/p2";
  unread = line (codes "</body>") ∷ [];
}

abbrev pub pages : List PageText
pages = first_page ∷ []

-- An answer of the author to somebody else.
abbrev answer : Part
answer =
    post (codes "me") (ascii (codes "<div class=\"bbs-content\">"))
      (post_by (codes "@you") (codes "me"))

-- A last page with it.
abbrev pub talk : List Part
talk = theirs ∷ answer ∷ []

abbrev pub last : List Part
last = other (ascii (codes "<body>")) ∷ theirs ∷ mine ∷ []

anchor-IsLink : IsLink (codes "<a href=\"/p2\">下页</a>")
unfolding contains
anchor-IsLink = record {
  links = refl;
  no_chareset = refl;
  no_author = refl;
  no_content = refl;
  no_count = refl;
}

content-IsStart : IsStart (codes "<div class=\"bbs-content\">")
unfolding contains
content-IsStart = record {
  no_chareset = refl;
  no_author = refl;
  content = refl;
  no_count = refl;
  no_link = refl;
}

author-IsBy : IsBy plain (codes "<meta name=\"author\" content=\"me\">") (codes "me")
unfolding contains mem_char
author-IsBy = record {
  before = codes "<meta name=\"author\" content=";
  behind = codes ">";
  html_lem = refl;
  name_free = free quote (codes "me") refl;
  behind_free = free quote (codes ">") refl;
  no_chareset = refl;
  tells = refl;
  bare = (refl, refl, refl);
  name_bare = (refl, refl, refl);
}

page_number-IsCount : IsCount plain (codes "\tpageCount : 2,\r")
unfolding contains
page_number-IsCount = record {
  no_chareset = refl;
  no_author = refl;
  no_content = refl;
  no_link = refl;
  trimmed = refl;
}

pub first_page-IsPage : IsPage plain first_page
unfolding ansi_wide mem_char contains first_quoted
first_page-IsPage = record {
  parts_lem = (
    refl,
    refl,
    refl,
    ((refl, refl, refl), (refl, (author-IsBy, (refl, (page_number-IsCount, tt))))),
  );
  first_link = anchor-IsLink;
  first_reads = refl;
  between_lem = (refl, content-IsStart, (own-IsPost _, tt));
  second_link = anchor-IsLink;
  second_reads = refl;
  quoted = refl;
}

pub last-AreParts : AreParts plain utf_8 last
unfolding ansi_wide contains
last-AreParts = (
  refl,
  refl,
  refl,
  (
    (refl, refl, refl),
    (refl, content-IsStart, (other-IsPost _, (refl, content-IsStart, (own-IsPost _, tt)))),
  ),
)

abbrev pub address : Text
address = codes "http://bbs.tianya.cn/post-1.shtml"

thread_posts_test : thread_posts plain [] pages last ≡ codes "ab" ∷ codes "ab" ∷ []
unfolding equal contains post_text strip_tags is_empty
thread_posts_test = refl

crawl-thread_example :
    ((crawl plain (parser_url plain address) (thread pages last) (start plain address fresh)).posts
      ≡ thread_posts plain [] pages last)
    × (heard
          (crawl plain
            (parser_url plain address)
            (thread pages last)
            (start plain address fresh)).log
        ≡ map some (thread_posts plain [] pages last) ++ none ∷ [])
    × (asked
          (crawl plain
            (parser_url plain address)
            (thread pages last)
            (start plain address fresh)).log
        ≡ thread_requests plain (parser_url plain address) pages)
    × (serialize_to_file plain
          (crawl plain (parser_url plain address) (thread pages last) (start plain address fresh))
        ≡ 0xEF ∷ 0xBB ∷ 0xBF ∷ serialize plain (thread_posts plain [] pages last))
crawl-thread_example =
    crawl-thread plain address pages last fresh (first_page-IsPage, tt) last-AreParts refl refl refl
      refl refl refl

pub talk-AreParts : AreParts plain utf_8 talk
unfolding ansi_wide
talk-AreParts =
    (refl, content-IsStart, (other-IsPost _, (refl, content-IsStart, (answer-IsPost _, tt))))
