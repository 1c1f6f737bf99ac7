-- ===== src/TianyaContext/Thread.antt =====
-- The pages of a whole post for tianya_context: posts and other lines, and what the reader makes of each.
pub mod Gains
pub mod Parts
pub mod Steps
pub mod Pages
pub mod Unfiltered
pub mod Linked
pub mod Whole
pub mod Tests
use tianya.Prelude.{
  ◌≡◌, refl, ap, ◌∙◌, Bool, true, false, ◌&&◌, List, [], ◌∷◌, ◌++◌, if◌then◌else◌, is_some, map,
  Bool-cases, inl, inr, negsuc, eqb_ℤ,
}
use tianya.Text.{Text, codes, contains, equal, is_empty}
use tianya.Text.Find.{IsFree}
use tianya.Boost.{Boost}
use tianya.Util.{get_chareset}
use tianya.Html.{quote, strip_tags}
use tianya.Http.{Line, Reads}
use tianya.TianyaContext.Machine.{
  state_unkown, state_div_bbs_content, one_content_fetched, TianyaContext, Page, Scan, stays,
  author_meta, scan_author, scan_content, scan_count, scan_next, on_unkown, on_post_of, note_user,
  add_post, post_text, add_user, is_reply, dispatch, replytime_pattern,
}
use tianya.TianyaContext.Session.{Event, line, read_loop}
use tianya.TianyaContext.Post.{PostText, texts, IsPost, post_events, step, settled}
use tianya.TianyaContext.Posts.{post_run}
use tianya.TianyaContext.Paging.{scan_author_none, scan_content_none, scan_count_none}

-- What a page is made of: lines that say nothing, lines that name the character set, the line with
-- the author of the whole, lines with the count of pages, and posts with their first line.
pub data Part : Type 0 where
  other : Line → Part
  naming : Line → Part
  by : Line → Text → Part
  counting : Line → Part
  post : Text → Line → PostText → Part

abbrev pub parts_events : List Part → List Event → List Event
parts_events [] rest = rest
parts_events (other l ∷ parts) rest = line l.raw ∷ parts_events parts rest
parts_events (naming l ∷ parts) rest = line l.raw ∷ parts_events parts rest
parts_events (by l name ∷ parts) rest = line l.raw ∷ parts_events parts rest
parts_events (counting l ∷ parts) rest = line l.raw ∷ parts_events parts rest
parts_events (post who l d ∷ parts) rest = line l.raw ∷ post_events d (parts_events parts rest)

-- The character set and the author of the whole behind the parts.
abbrev pub chareset_after : Boost → Text → List Part → Text
chareset_after b c [] = c
chareset_after b c (other l ∷ parts) = chareset_after b c parts
chareset_after b c (naming l ∷ parts) = chareset_after b (get_chareset b l.raw) parts
chareset_after b c (by l name ∷ parts) = chareset_after b c parts
chareset_after b c (counting l ∷ parts) = chareset_after b c parts
chareset_after b c (post who l d ∷ parts) = chareset_after b c parts

abbrev pub first_author : Boost → Text → Text → Text
first_author b a name = if is_empty a then b.trim name else a

abbrev pub author_after : Boost → Text → List Part → Text
author_after b a [] = a
author_after b a (other l ∷ parts) = author_after b a parts
author_after b a (naming l ∷ parts) = author_after b a parts
author_after b a (by l name ∷ parts) = author_after b (first_author b a name) parts
author_after b a (counting l ∷ parts) = author_after b a parts
author_after b a (post who l d ∷ parts) = author_after b a parts

-- A post without its tags.
abbrev pub written : Boost → PostText → Text
written b d = strip_tags b (post_text b (texts d.body))

-- The posts by the author, in their order.
abbrev pub posts_of : Boost → Text → List Part → List Text
posts_of b a [] = []
posts_of b a (other l ∷ parts) = posts_of b a parts
posts_of b a (naming l ∷ parts) = posts_of b a parts
posts_of b a (by l name ∷ parts) = posts_of b (first_author b a name) parts
posts_of b a (counting l ∷ parts) = posts_of b a parts
posts_of b a (post who l d ∷ parts) =
    if equal who a then written b d ∷ posts_of b a parts else posts_of b a parts

-- What a download knows of the people: the author of the whole, and the users that the filter noted.
pub record Known : Type 0 where
  pub author : Text
  pub users : List Text

abbrev pub note : Bool → Text → Known → Known
note v who k = record k { users = if v then add_user who k.users else k.users }

abbrev pub name_author : Boost → Text → Known → Known
name_author b name k = record k { author = first_author b k.author name }

-- What is known behind the parts, with the filter on or off.
abbrev pub known_after : Bool → Boost → Known → List Part → Known
known_after v b k [] = k
known_after v b k (other l ∷ parts) = known_after v b k parts
known_after v b k (naming l ∷ parts) = known_after v b k parts
known_after v b k (by l name ∷ parts) = known_after v b (name_author b name k) parts
known_after v b k (counting l ∷ parts) = known_after v b k parts
known_after v b k (post who l d ∷ parts) = known_after v b (note v who k) parts

-- A post by the author as it is signalled, and whether it is kept: with the filter on, one that
-- answers a known user is signalled with its tags and not kept.
abbrev pub chunk : Bool → Boost → List Text → PostText → Text × Bool
chunk v b users d =
    if v && is_reply (post_text b (texts d.body)) users
    then (post_text b (texts d.body), false)
    else (written b d, true)

abbrev pub chunks_of : Bool → Boost → Known → List Part → List (Text × Bool)
chunks_of v b k [] = []
chunks_of v b k (other l ∷ parts) = chunks_of v b k parts
chunks_of v b k (naming l ∷ parts) = chunks_of v b k parts
chunks_of v b k (by l name ∷ parts) = chunks_of v b (name_author b name k) parts
chunks_of v b k (counting l ∷ parts) = chunks_of v b k parts
chunks_of v b k (post who l d ∷ parts) =
    if equal who k.author
    then chunk v b (note v who k).users d ∷ chunks_of v b (note v who k) parts
    else chunks_of v b (note v who k) parts

-- The chunks that are kept, and all their texts.
abbrev pub kept : List (Text × Bool) → List Text
kept [] = []
kept ((s, true) ∷ cs) = s ∷ kept cs
kept ((s, false) ∷ cs) = kept cs

abbrev pub said : List (Text × Bool) → List Text
said = map (λ c. c.0)

-- The line starts no post, has no count of pages and no link to the next page.
abbrev pub IsBare : Text → Type 0
IsBare html =
    (contains (codes "<div class=\"bbs-content") html ≡ false)
    × (contains (codes "pageCount :") html ≡ false)
    × (contains (codes "下页") html ≡ false)

-- The author stands between the last two quotes of the line; what is left of the line is bare.
pub record IsBy (b : Boost) (html name : Text) : Type 0 where
  pub before : Text
  pub behind : Text
  pub html_lem : html ≡ (before ++ b'"' ∷ name) ++ b'"' ∷ behind
  pub name_free : IsFree quote name
  pub behind_free : IsFree quote behind
  pub no_chareset : contains (codes "meta charset=") html ≡ false
  pub tells : contains author_meta html ≡ true
  pub bare : IsBare html
  pub name_bare : IsBare (b.trim name)

pub record IsStart (html : Text) : Type 0 where
  pub no_chareset : contains (codes "meta charset=") html ≡ false
  pub no_author : contains author_meta html ≡ false
  pub content : contains (codes "<div class=\"bbs-content") html ≡ true
  pub no_count : contains (codes "pageCount :") html ≡ false
  pub no_link : contains (codes "下页") html ≡ false

pub record IsCount (b : Boost) (html : Text) : Type 0 where
  pub no_chareset : contains (codes "meta charset=") html ≡ false
  pub no_author : contains author_meta html ≡ false
  pub no_content : contains (codes "<div class=\"bbs-content") html ≡ false
  pub no_link : contains (codes "下页") html ≡ false
  pub trimmed : contains (codes "下页") (b.trim html) ≡ false

-- Each part is read in the character set that is known when it comes.
abbrev pub AreParts : Boost → Text → List Part → Type 0
AreParts b c [] = Unit
AreParts b c (other l ∷ parts) =
    Reads b c l
    × (contains (codes "meta charset=") l.html ≡ false)
    × (contains author_meta l.html ≡ false)
    × (IsBare l.html × AreParts b c parts)
AreParts b c (naming l ∷ parts) =
    Reads b c l
    × (contains (codes "meta charset=") l.html ≡ true)
    × (contains author_meta l.html ≡ false)
    × (IsBare l.html × AreParts b (get_chareset b l.raw) parts)
AreParts b c (by l name ∷ parts) = Reads b c l × (IsBy b l.html name × AreParts b c parts)
AreParts b c (counting l ∷ parts) = Reads b c l × (IsCount b l.html × AreParts b c parts)
AreParts b c (post who l d ∷ parts) =
    Reads b c l × IsStart l.html × (IsPost b c who d × AreParts b c parts)
