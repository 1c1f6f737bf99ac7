-- ===== src/TianyaWindow/Board.antt =====
-- The table of the main window behind a whole board.
use mathlib.Core.List.Perm
use tianya.Prelude.{◌≡◌, refl, false, List, [], All}
use tianya.Text.{Text, codes}
use tianya.Boost.{Boost}
use tianya.Util.{parser_url}
use tianya.TianyaList.Machine.{TianyaList, start}
use tianya.TianyaList.Session.{crawl}
use tianya.TianyaList.Change.{fetched}
use tianya.TianyaList.Board.{Part, AreParts}
use tianya.TianyaList.Board.Pages.{PageText, IsPage}
use tianya.TianyaList.Board.Whole.{board, board_items, crawl-board}
use tianya.TianyaWindow.{new_window, follow}
use tianya.TianyaWindow.Table.{Shows, follow-Shows}

start-fetched :
    (b : Boost) (url : Text) (t : TianyaList) → t.log ≡ [] → fetched (start b url t).log ≡ []
unfolding start
start-fetched b url t e = rw e

-- From the text of the pages to the table: a reader that has signalled nothing yet is started on a
-- board, and it is not stopped; then the table of a new window behind the run is sorted by hits, has
-- the address of every item that the rows of all pages describe, and has no row but these items.
pub crawl-start-Shows :
    (b : Boost) (url : Text) (pages : List PageText) (last : List Part) (t : TianyaList)
    → All (IsPage b) pages
    → AreParts b (codes "utf-8") last
    → t.log ≡ []
    → t.abort ≡ false
    → Shows
        (board_items b pages last)
        (follow
          (crawl b (parser_url b url) (board pages last) (start b url t)).log
          new_window).model.list_info
unfolding start
crawl-start-Shows b url pages last t vs v e a =
    let u = start b url t in
    let c = crawl b (parser_url b url) (board pages last) u in
    follow-Shows c.log (board_items b pages last) (
      rw
        (
          (crawl-board b (parser_url b url) pages last u vs v (unfold start in refl)
              (unfold start in a)).0,
          start-fetched b url t e,
        )
        (Perm.refl _))
