-- ===== src/TianyaModel.antt =====
-- src/model/tianyamodel.cpp: the table of posts behind the main window. Qt's begin and end of a row
-- insertion are signals of the model, a QVariant is one of the kinds of value the model hands out.
pub mod Kinds
pub mod Order
pub mod Rows
pub mod Unique
pub mod Tests
use tianya.Prelude.{
  ℕ, zero, suc, ◌+◌, ℤ, pos, negsuc, ltb_ℤ, Bool, true, false, Option, none, some, List, [], ◌∷◌,
  ◌==◌, ltb, if◌then◌else◌, length, get_elem?,
}
use tianya.Text.{Text, codes, equal}
use tianya.TianyaList.Info.{ListInfo}

pub data Signal : Type 0 where
  begin_insert_rows : ℕ → ℕ → Signal
  end_insert_rows : Signal

pub record TianyaModel : Type 0 where
  pub list_info : List ListInfo

-- std::find_if for the first row with fewer hits; the length stands for the end.
unfoldable pub insert_point : ℤ → List ListInfo → ℕ
insert_point hits [] = 0
insert_point hits (a ∷ rows) = if ltb_ℤ a.hits hits then 0 else suc (insert_point hits rows)

unfoldable pub has_url : Text → List ListInfo → Bool
has_url url [] = false
has_url url (a ∷ rows) = if equal a.post_url url then true else has_url url rows

-- m_list_info.size() && m_list_info.rbegin()->post_url == url
unfoldable pub last_has_url : Text → List ListInfo → Bool
last_has_url url [] = false
last_has_url url (a ∷ []) = equal a.post_url url
last_has_url url (a ∷ b ∷ rows) = last_has_url url (b ∷ rows)

unfoldable pub insert_at : ℕ → ListInfo → List ListInfo → List ListInfo
insert_at zero info rows = info ∷ rows
insert_at (suc n) info [] = info ∷ []
insert_at (suc n) info (a ∷ rows) = a ∷ insert_at n info rows

-- The test for a repeated post: all rows if the new one goes before a row, else the last row alone.
unfoldable pub is_repeated : ListInfo → List ListInfo → Bool
unfolding insert_point has_url last_has_url
is_repeated info rows =
    if ltb (insert_point info.hits rows) (length rows)
    then has_url info.post_url rows
    else last_has_url info.post_url rows

unfoldable pub update_tianya_list : ListInfo → TianyaModel → TianyaModel × List Signal
unfolding is_repeated insert_at
update_tianya_list info m = if is_repeated info m.list_info then (m, []) else (
  record { list_info = insert_at (insert_point info.hits m.list_info) info m.list_info },
  begin_insert_rows (insert_point info.hits m.list_info) (insert_point info.hits m.list_info)
      ∷ end_insert_rows
      ∷ [],
)

pub data Variant : Type 0 where
  invalid : Variant
  text : Text → Variant
  bytes : Text → Variant
  int : ℤ → Variant
  url : Text → Variant
  info : ListInfo → Variant

-- The roles that the model tells apart: Qt::DisplayRole, Qt::UserRole + n, and any other.
pub data Role : Type 0 where
  display_role : Role
  user_role : ℕ → Role
  other_role : Role

pub data Orientation : Type 0 where
  horizontal vertical : Orientation

-- A QModelIndex with what the model reads of it.
pub record ModelIndex : Type 0 where
  pub row : ℤ
  pub column : ℤ
  pub has_parent : Bool

unfoldable pub row_count : Bool → TianyaModel → ℕ
row_count parent_valid m = if parent_valid then 0 else length m.list_info

unfoldable pub column_count : Bool → ℕ
column_count parent_valid = if parent_valid then 0 else 6

unfoldable pub display : ListInfo → ℕ → Variant
display a c =
    if c == 0
    then text a.title
    else if c == 1
    then text a.author
    else if c == 2
    then int a.hits
    else if c == 3
    then int a.replys
    else if c == 4
    then text a.post_time
    else if c == 5
    then bytes a.post_url
    else invalid

unfoldable pub filter_text : ListInfo → ℕ → Variant
filter_text a c = if c == 0 then text a.title else if c == 1 then text a.author else invalid

-- A column below zero fits no case of the switches.
abbrev pub at_column : (ℕ → Variant) → ℤ → Variant
at_column f (pos c) = f c
at_column f (negsuc c) = invalid

unfoldable pub row_data : ListInfo → ℤ → Role → Variant
unfolding display filter_text
row_data a column display_role = at_column (display a) column
row_data a column (user_role n) =
    if n == 1
    then url a.post_url
    else if n == 2
    then info a
    else if n == 3
    then at_column (filter_text a) column
    else invalid
row_data a column other_role = invalid

-- `index.row() < size` compares as unsigned numbers: a row below zero is beyond every size.
abbrev pub row_at : ℤ → List ListInfo → Option ListInfo
row_at (pos n) rows = get_elem? rows n
row_at (negsuc n) rows = none

unfoldable pub model_data : TianyaModel → ModelIndex → Role → Variant
unfolding row_data
model_data m index role = elim (row_at index.row m.list_info) [
  | none ↦ invalid
  | some a ↦ if index.has_parent then invalid else row_data a index.column role
]

-- The titles of the columns.
abbrev pub header : ℕ → Variant
header c =
    if c == 0
    then text (codes "标题")
    else if c == 1
    then text (codes "作者")
    else if c == 2
    then text (codes "点击")
    else if c == 3
    then text (codes "回复")
    else if c == 4
    then text (codes "时间")
    else if c == 5
    then text (codes "链接")
    else invalid

-- headerData: the title of a column, in the horizontal header and for display only.
unfoldable pub header_data : ℤ → Orientation → Role → Variant
header_data section horizontal display_role = at_column header section
header_data section horizontal (user_role n) = invalid
header_data section horizontal other_role = invalid
header_data section vertical role = invalid
