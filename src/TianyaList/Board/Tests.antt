-- ===== src/TianyaList/Board/Tests.antt =====
-- The board's reader on two pages: the first names a character set, has a row and a link, the last
-- has a line that says nothing and a row.
use tianya.Prelude.{◌≡◌, refl, List, [], ◌∷◌, ◌++◌, All}
use tianya.Text.{codes, mem_char, find, contains}
use tianya.Html.{quote}
use tianya.Util.{no_url, ansi_wide}
use tianya.Sample.{plain, free}
use tianya.TianyaList.Session.{crawl, line}
use tianya.TianyaList.Change.{fetched}
use tianya.TianyaList.Tests.{fresh, ascii, row-IsRow}
use tianya.TianyaList.Tests as Given
use tianya.TianyaList.Board.{Part, other, naming, row, AreParts}
use tianya.TianyaList.Board.Pages.{PageText, IsPage, asked}
use tianya.TianyaList.Board.Whole.{board, board_items, board_requests, crawl-board}

abbrev first_page : PageText
first_page = record {
  parts = naming (ascii (codes "<meta charset=\"gbk\">")) ∷ row Given.row ∷ [];
  link = ascii (codes "<a href=\"/list-2\">下一页</a>");
  before = codes "<a href=";
  path = codes "/list-2";
  behind = codes ">下一页</a>";
  unread = line (codes "</body>") ∷ [];
}

abbrev pub pages : List PageText
pages = first_page ∷ []

abbrev pub last : List Part
last = other (ascii (codes "<body>")) ∷ row Given.row ∷ []

first_page-IsPage : IsPage plain first_page
unfolding ansi_wide mem_char find contains
first_page-IsPage = record {
  parts_lem = (refl, refl, (row-IsRow _, tt));
  link_reads = refl;
  no_charset = refl;
  named = refl;
  link_lem = refl;
  before_free = free quote (codes "<a href=") refl;
  path_free = free quote (codes "/list-2") refl;
}

pub pages-IsPage : All (IsPage plain) pages
pages-IsPage = (first_page-IsPage, tt)

pub last-AreParts : AreParts plain (codes "utf-8") last
unfolding ansi_wide find contains
last-AreParts = (refl, refl, refl, refl, (row-IsRow _, tt))

crawl-board_example :
    (fetched (crawl plain no_url (board pages last) fresh).log
      ≡ fetched fresh.log ++ board_items plain pages last)
    × (asked (crawl plain no_url (board pages last) fresh).log
        ≡ asked fresh.log ++ board_requests plain no_url pages)
crawl-board_example = crawl-board plain no_url pages last fresh pages-IsPage last-AreParts refl refl
