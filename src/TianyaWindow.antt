-- ===== src/TianyaWindow.antt =====
-- src/tianyawindow.cpp: the main window behind its widgets: what it does with each row that the board's
-- reader signals, when it stops the reader, what a selection opens, and the settings of the mails.
pub mod Board
pub mod Menu
pub mod Stale
pub mod Table
pub mod Tests
use tianya.Prelude.{
  ℕ, ℤ, pos, Bool, true, false, Option, none, some, List, [], ◌∷◌, ◌++◌, if◌then◌else◌,
}
use tianya.Text.{Text, codes}
use tianya.Util.{put_int}
use tianya.TianyaList.Info.{ListInfo}
use tianya.TianyaList.Machine.{TianyaList, Effect, hit_item_fetched, resolving, sent, closed}
use tianya.TianyaModel.{TianyaModel, Signal, update_tianya_list, row_count}

-- What the window shows and asks for.
pub data Shown : Type 0 where
  model_signal : Signal → Shown
  show_message : Text → Shown
  single_shot : ℕ → Shown

pub record TianyaWindow : Type 0 where
  pub first_insertion : Bool
  pub model : TianyaModel
  pub log : List Shown

abbrev pub new_window : TianyaWindow
new_window = record { first_insertion = true; model = record { list_info = [] }; log = [] }

abbrev signals : List Signal → List Shown
signals [] = []
signals (s ∷ ss) = model_signal s ∷ signals ss

abbrev pub status_message : ℕ → Text
status_message rows = codes "已更新到 " ++ put_int (pos rows) ++ codes " 条"

-- The lambda that adjusts the columns after the first row.
unfoldable pub adjust : TianyaWindow → TianyaWindow
adjust w = record w {
  first_insertion = false;
  log = if w.first_insertion then w.log ++ single_shot 300 ∷ [] else w.log;
}

-- The slot of a signalled row. The worker's thread waits for both calls into the window's thread, and
-- the lambda that it posts runs before its next row; the message is made before the row is in.
unfoldable pub on_hit_item : ListInfo → TianyaWindow → TianyaWindow
unfolding adjust
on_hit_item info w =
    let updated = update_tianya_list info w.model in
    adjust (record w {
      model = updated.0;
      log =
          w.log
          ++ signals updated.1
          ++ show_message (status_message (row_count false w.model)) ∷ [];
    })

-- The window behind a log of the reader.
unfoldable pub follow : List Effect → TianyaWindow → TianyaWindow
unfolding on_hit_item
follow [] w = w
follow (hit_item_fetched i ∷ log) w = follow log (on_hit_item i w)
follow (resolving d p ui ∷ log) w = follow log w
follow (sent r ∷ log) w = follow log w
follow (closed ∷ log) w = follow log w
