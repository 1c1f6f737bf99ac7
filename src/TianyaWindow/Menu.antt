-- ===== src/TianyaWindow/Menu.antt =====
-- What a double click and the menu of the selected rows open. The menu keeps the indexes that were
-- selected when it came up; the rows behind them are looked up when an entry is clicked.
use tianya.Prelude.{Option, none, some, List, [], ◌∷◌, map}
use tianya.Text.{Text}
use tianya.TianyaList.Info.{ListInfo}
use tianya.TianyaList.Machine.{TianyaList}
use tianya.TianyaList.Session.{stop}
use tianya.TianyaModel.{TianyaModel, Variant, url, info, Role, user_role, ModelIndex, model_data}

-- QSortFilterProxyModel::mapToSource for the sort and the filter that are set: the data of an index of
-- the view is that of the index behind it.
abbrev pub Proxy : Type 0
Proxy = TianyaModel → ModelIndex → ModelIndex

unfoldable pub index_data : Proxy → TianyaModel → ModelIndex → Role → Variant
index_data p m i role = model_data m (p m i) role

pub data Opened : Type 0 where
  address : Text → Opened
  novel_viewer : ListInfo → Opened
  send_progress : ListInfo → Opened

-- QVariant::toUrl
abbrev to_url : Variant → Text
to_url (url u) = u
to_url _ = []

unfoldable pub on_double_clicked : Proxy → TianyaModel → ModelIndex → Opened
unfolding index_data
on_double_clicked p m i = address (to_url (index_data p m i (user_role 1)))

-- The list_info of a variant of the role that has one.
abbrev pub cast_info : Variant → Option ListInfo
cast_info (info a) = some a
cast_info _ = none

unfoldable pub picked : Proxy → TianyaModel → List ModelIndex → List ListInfo
unfolding index_data
picked p m [] = []
picked p m (i ∷ indexes) =
    let rest = picked p m indexes in
    elim (cast_info (index_data p m i (user_role 2))) [ none ↦ rest | some a ↦ a ∷ rest ]

unfoldable pub view_triggered : Proxy → TianyaModel → List ModelIndex → List Opened
unfolding picked
view_triggered p m indexes = map novel_viewer (picked p m indexes)

unfoldable pub send_triggered : Proxy → TianyaModel → List ModelIndex → List Opened
unfolding picked
send_triggered p m indexes = map send_progress (picked p m indexes)

unfoldable pub close_event : TianyaList → TianyaList
unfolding stop
close_event t = stop t
