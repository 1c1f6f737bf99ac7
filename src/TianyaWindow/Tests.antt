-- ===== src/TianyaWindow/Tests.antt =====
-- The window behind a run of the board's reader.

use tianya.Prelude.{ℕ, zero, suc, ℤ, pos, ◌≡◌, ◌≢◌, refl, ap, Option, none, some, [], ◌∷◌, arith}
use tianya.Text.{Text, codes, equal}
use tianya.Util.{no_url, parser_url}
use tianya.TianyaList.Machine.{start}
use tianya.TianyaList.Board.Whole.{board, board_items}
use tianya.TianyaList.Board.Tests.{pages, last, pages-IsPage, last-AreParts}
use tianya.TianyaWindow.Board.{crawl-start-Shows}
use tianya.TianyaList.Info.{ListInfo}
use tianya.TianyaModel.{TianyaModel, update_tianya_list, is_repeated, has_url, insert_point}
use tianya.TianyaWindow.Menu.{view_triggered, novel_viewer}
use tianya.TianyaWindow.Stale.{row_index, IsDistinct, view_triggered_other}
use tianya.Sample.{plain}
use tianya.TianyaList.Multimap.{values}
use tianya.TianyaList.Session.{crawl}
use tianya.TianyaList.Tests.{fresh, fresh-IsValid, one_row}
use tianya.TianyaWindow.{new_window, follow}
use tianya.TianyaWindow.Table.{Shows, crawl-Shows}

crawl-Shows_example :
    Shows
      (values (crawl plain no_url one_row fresh).hits)
      (follow (crawl plain no_url one_row fresh).log new_window).model.list_info
crawl-Shows_example = crawl-Shows plain no_url one_row fresh fresh-IsValid

crawl-start-Shows_example :
    Shows
      (board_items plain pages last)
      (follow
        (crawl plain
          (parser_url plain (codes "http://bbs.tianya.cn/list-1.html"))
          (board pages last)
          (start plain (codes "http://bbs.tianya.cn/list-1.html") fresh)).log
        new_window).model.list_info
crawl-start-Shows_example =
    crawl-start-Shows plain (codes "http://bbs.tianya.cn/list-1.html") pages last fresh pages-IsPage
      last-AreParts refl refl

-- The menu stands on the second of two posts when a third comes in above them.
abbrev post : Text → ℤ → ListInfo
post name hits = record {
  title = name;
  post_url = name;
  author = [];
  hits = hits;
  replys = pos 0;
  post_time = [];
}

abbrev two_rows : TianyaModel
two_rows = record { list_info = post (codes "a") (pos 9) ∷ post (codes "b") (pos 5) ∷ [] }

abbrev initial : Text → ℕ
initial [] = 0
initial (c ∷ cs) = c

abbrev initial_of : Option ListInfo → ℕ
initial_of none = 0
initial_of (some x) = initial x.post_url

two_rows-IsDistinct : IsDistinct two_rows
two_rows-IsDistinct zero zero x y e f q = refl
two_rows-IsDistinct zero (suc zero) x y e f q =
    absurd (omega (arith, ap initial_of e, ap initial q, ap initial_of f))
two_rows-IsDistinct zero (suc (suc j)) x y e f q = cc
two_rows-IsDistinct (suc zero) zero x y e f q =
    absurd (omega (arith, ap initial_of e, ap initial q, ap initial_of f))
two_rows-IsDistinct (suc zero) (suc zero) x y e f q = refl
two_rows-IsDistinct (suc zero) (suc (suc j)) x y e f q = cc
two_rows-IsDistinct (suc (suc i)) j x y e f q = cc

view_triggered_other_example :
    (view_triggered (λ m i. i) two_rows (row_index 1 ∷ [])
      ≡ novel_viewer (post (codes "b") (pos 5)) ∷ [])
    × ((s : ListInfo) × (view_triggered
            (λ m i. i)
            (update_tianya_list (post (codes "c") (pos 7)) two_rows).0
            (row_index 1 ∷ [])
          ≡ novel_viewer s ∷ [])
        × (s.post_url ≢ codes "b"))
unfolding is_repeated has_url insert_point equal
view_triggered_other_example =
    view_triggered_other (λ m i. i) two_rows (post (codes "c") (pos 7)) (post (codes "b") (pos 5)) 1
      (λ m i. refl) two_rows-IsDistinct refl refl (omega arith)
