-- ===== src/TianyaContext/Machine.antt =====
-- The state machine of tianya_context::process_handle: what one line of a post's page does.
use tianya.Prelude.{
  ℕ, suc, ◌+◌, Bool, true, false, ◌&&◌, ◌||◌, Option, none, some, List, [], ◌∷◌, ◌++◌,
  if◌then◌else◌, ℤ, negsuc, eqb_ℤ, take, drop, ◌==◌, is_some,
}
use tianya.Text.{Text, codes, contains, equal, is_empty, starts_with, find_last_of}
use tianya.Boost.{Boost, capture}
use tianya.Util.{
  skip_blank, is_digit, read_signed, to_int, put_int, UrlInfo, parser_url, get_chareset, ansi_wide,
  wide_utf8,
}
use tianya.Html.{quote, first_quoted, strip_tags}

pub data State : Type 0 where
  state_unkown state_div_bbs_content state_author : State

-- What leaves the object; the last two are its signals.
pub data Effect : Type 0 where
  resolving : Text → Text → UrlInfo → Effect
  sent : Text → Effect
  closed : Effect
  one_content_fetched : Text → Effect
  download_complete : Effect

-- The members that the code reads or writes (`author` and `posts` are those of m_context_info), with
-- `m_socket.is_open()` and `log`, the effects so far in their order. The order of m_users is of no
-- account to the code.
pub record TianyaContext : Type 0 where
  pub state : State
  pub author : Text
  pub posts : List Text
  pub context : Text
  pub post_url : Text
  pub next_page_url : Text
  pub page_index : ℕ
  pub page_count : ℤ
  pub filter_reply : Bool
  pub users : List Text
  pub abort : Bool
  pub is_open : Bool
  pub log : List Effect

pub record Page : Type 0 where
  pub self : TianyaContext
  pub chareset : Text

-- One round of the loop goes on, returns true, or leaves by an exception.
pub data Turn : Type 0 where
  stays : Page → Turn
  follows : TianyaContext → Turn
  throws : TianyaContext → Turn

abbrev pub site : Text
site = codes "http://bbs.tianya.cn"

unfoldable pub start : Boost → Text → TianyaContext → TianyaContext
start b url t =
    let ui = parser_url b url in
    record t {
      post_url = url;
      state = state_unkown;
      log = t.log ++ resolving ui.domain (put_int ui.port) ui ∷ [];
    }

-- A page's line under way, with the object: the source goes on with what a search has cut off.
pub record Scan : Type 0 where
  pub html : Text
  pub self : TianyaContext

abbrev pub author_meta : Text
author_meta = codes "<meta name=\"author\" content="

unfoldable pub scan_author : Boost → Scan → Scan
scan_author b c =
    if is_empty c.self.author && contains author_meta c.html
    then elim (find_last_of quote c.html) [
      | none ↦ c
      | some i ↦ elim (find_last_of quote (take i c.html)) [
        | none ↦ record c { html = take i c.html }
        | some j ↦ record {
          html = b.trim (drop (suc j) (take i c.html));
          self = record (c.self) { author = b.trim (drop (suc j) (take i c.html)) };
        }
      ]
    ]
    else c

unfoldable pub scan_content : Scan → Scan
scan_content c =
    if contains (codes "<div class=\"bbs-content") c.html
    then record c { self = record (c.self) { context = []; state = state_div_bbs_content } }
    else c

-- The number behind `:`, for `%d`: at least one digit, with or without a sign.
unfoldable pub scan_int : Text → Option ℤ
scan_int [] = none
scan_int (c ∷ []) = if is_digit c then some (to_int (read_signed (c ∷ []))) else none
scan_int (c ∷ d ∷ s) =
    if is_digit c || ((c == b'-' || c == b'+') && is_digit d)
    then some (to_int (read_signed (c ∷ d ∷ s)))
    else none

unfoldable pub scan_colon : Text → Option ℤ
unfolding scan_int
scan_colon [] = none
scan_colon (c ∷ cs) = if c == b':' then scan_int (skip_blank cs) else none

-- std::swscanf(line, L"pageCount : %d,", &count): the count, if it is converted. A blank of the
-- format stands for any number of blanks.
unfoldable pub scan_page_count : Text → Option ℤ
unfolding scan_colon
scan_page_count line =
    if starts_with (codes "pageCount") line then scan_colon (skip_blank (drop 9 line)) else none

unfoldable pub scan_count : Boost → Scan → Scan
unfolding scan_page_count
scan_count b c =
    if eqb_ℤ c.self.page_count (negsuc 0) && contains (codes "pageCount :") c.html
    then elim (scan_page_count (b.trim c.html)) [
      | none ↦ record c { html = b.trim c.html }
      | some n ↦ record { html = b.trim c.html; self = record (c.self) { page_count = n } }
    ]
    else c

-- The address of the next page: m_next_page_url holds it during the call of start, and is empty
-- again after it.
unfoldable pub next_page : Boost → Text → TianyaContext → TianyaContext
unfolding start
next_page b url t =
    record (start b url (record t { next_page_url = url; page_index = t.page_index + 1 })) {
      next_page_url = [];
    }

-- The first link to a next page on a page is passed over, the second is followed.
unfoldable pub scan_next : Boost → Text → Scan → Turn
unfolding next_page
scan_next b chareset c =
    let stay = stays (record { self = c.self; chareset = chareset }) in
    if contains (codes "下页") c.html
    then (if is_empty c.self.next_page_url
        then stays (record {
          self = record (c.self) { next_page_url = codes "skip" };
          chareset = chareset;
        })
        else elim (first_quoted c.html) [
          | none ↦ stay
          | some path ↦ follows (next_page b (wide_utf8 b (site ++ b.trim path)) c.self)
        ])
    else stay

abbrev line_chareset : Boost → Text → Text → Page → Text
line_chareset b raw html p =
    if contains (codes "meta charset=") html then get_chareset b raw else p.chareset

unfoldable pub on_unkown : Boost → Text → Text → Page → Turn
unfolding scan_author scan_content scan_count scan_next
on_unkown b raw html p =
    scan_next b (line_chareset b raw html p)
      (scan_count b (scan_content (scan_author b (record { html = html; self = p.self }))))

unfoldable pub on_div : Text → TianyaContext → TianyaContext
on_div html t =
    if contains (codes "</div>") html
    then record t { state = state_author }
    else record t { context = t.context ++ html }

-- std::set::insert
unfoldable pub add_user : Text → List Text → List Text
add_user u [] = u ∷ []
add_user u (v ∷ vs) = if equal u v then v ∷ vs else v ∷ add_user u vs

-- The text answers a user: it names the user behind `@`, behind `作者：`, or before `：`.
unfoldable pub names_user : Text → Text → Bool
names_user text s =
    contains (codes "@" ++ s) text
    || contains (codes "作者：" ++ s) text
    || contains (s ++ codes "：") text

unfoldable pub names_any : Text → List Text → Bool
unfolding names_user
names_any text [] = false
names_any text (s ∷ ss) = names_user text s || names_any text ss

-- The test of a reply: the line that sets a quotation off, or a user's name.
unfoldable pub is_reply : Text → List Text → Bool
unfolding names_any
is_reply text users =
    if contains (codes "——————————————————————") text
    then true
    else (contains (codes "：") text || contains (codes "@") text) && names_any text users

abbrev pub author_pattern : Text
author_pattern = codes "author=\"(.*?)\""

abbrev pub replytime_pattern : Text
replytime_pattern = codes "replytime=\"(.*?)\""

-- The text of a post: trimmed, with its line breaks.
unfoldable pub post_text : Boost → Text → Text
post_text b context = b.replace_all (b.trim context) (codes "<br>") (codes "\n")

-- A post by the author of the whole: kept without its tags unless it is filtered, and signalled.
unfoldable pub add_post : Boost → Text → TianyaContext → TianyaContext
unfolding is_reply
add_post b text t =
    if t.filter_reply && is_reply text t.users
    then record t { context = text; log = t.log ++ one_content_fetched text ∷ [] }
    else record t {
      context = strip_tags b text;
      posts = t.posts ++ strip_tags b text ∷ [];
      log = t.log ++ one_content_fetched (strip_tags b text) ∷ [];
    }

unfoldable pub note_user : Text → TianyaContext → TianyaContext
unfolding add_user
note_user u t = if t.filter_reply then record t { users = add_user u t.users } else t

unfoldable pub on_post_of : Boost → Text → Text → TianyaContext → TianyaContext
unfolding note_user add_post post_text
on_post_of b html author t =
    if equal author t.author && is_some (b.regex_search replytime_pattern html)
    then add_post b (post_text b t.context) (note_user author t)
    else note_user author t

unfoldable pub on_author : Boost → Text → TianyaContext → TianyaContext
unfolding on_post_of
on_author b html t =
    if contains (codes "author") html
    then record (elim (b.regex_search author_pattern html) [
      | none ↦ t
      | some what ↦ on_post_of b html (b.trim (capture what 1)) t
    ]) { context = []; state = state_unkown }
    else t

-- The switch on m_state.
unfoldable pub dispatch : Boost → State → Text → Text → Page → Turn
unfolding on_unkown on_div on_author
dispatch b state_unkown raw html p = on_unkown b raw html p
dispatch b state_div_bbs_content raw html p = stays (record p { self = on_div html p.self })
dispatch b state_author raw html p = stays (record p { self = on_author b html p.self })

unfoldable pub handle_line : Boost → Text → Page → Turn
unfolding dispatch
handle_line b raw p = elim (ansi_wide b raw p.chareset) [
  | none ↦ throws p.self
  | some html ↦ dispatch b p.self.state raw html p
]
