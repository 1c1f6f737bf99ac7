-- ===== src/TianyaModel/Kinds.antt =====
-- The types of the values that the table of posts hands to the views.
use tianya.Prelude.{ℕ, ◌<◌, pos, ◌≡◌, Bool, true, false, ltb, arith}
use tianya.TianyaList.Info.{ListInfo}
use tianya.TianyaModel.{
  TianyaModel, Variant, invalid, text, bytes, int, url, info, display_role, horizontal, row_count,
  column_count, display, row_data, model_data, header_data,
}
use tianya.TianyaModel.Rows.{model_data-row_count}

pub data Kind : Type 0 where
  no_kind text_kind bytes_kind int_kind url_kind info_kind : Kind

abbrev pub kind : Variant → Kind
kind invalid = no_kind
kind (text s) = text_kind
kind (bytes s) = bytes_kind
kind (int n) = int_kind
kind (url s) = url_kind
kind (info a) = info_kind

abbrev pub is_valid : Variant → Bool
is_valid invalid = false
is_valid (text s) = true
is_valid (bytes s) = true
is_valid (int n) = true
is_valid (url s) = true
is_valid (info a) = true

display-is_valid : (a : ListInfo) (c : ℕ) → is_valid (display a c) ≡ ltb c 6
unfolding display
display-is_valid a c = ground arith

display-kind : (a b : ListInfo) (c : ℕ) → kind (display a c) ≡ kind (display b c)
unfolding display
display-kind a b c = ground arith

header-is_valid : (c : ℕ) → is_valid (header_data (pos c) horizontal display_role) ≡ ltb c 6
unfolding header_data
header-is_valid c = ground arith

abbrev pub cell : TianyaModel → ℕ → ℕ → Variant
cell m r c = model_data m (record { row = pos r; column = pos c; has_parent = false }) display_role

cell-display :
    (m : TianyaModel) (r c : ℕ)
    → r < row_count false m
    → (a : ListInfo) × (cell m r c ≡ display a c)
unfolding row_data
cell-display m r c h = let (a, e, d) = (model_data-row_count m (pos c) display_role).0 r h in (a, d)

-- The table is typed by its columns: in the rows below the row count, a column shows a value exactly if
-- it is one of those that columnCount counts, and these are the columns that have a title; and any
-- two rows show values of the same type in the same column.
pub model_data-kind :
    (m : TianyaModel) (r s c : ℕ)
    → r < row_count false m
    → s < row_count false m
    → (is_valid (cell m r c) ≡ ltb c (column_count false))
      × (is_valid (header_data (pos c) horizontal display_role) ≡ ltb c (column_count false))
      × (kind (cell m r c) ≡ kind (cell m s c))
unfolding column_count
model_data-kind m r s c h k =
    let (a, e) = cell-display m r c h in
    let (b, f) = cell-display m s c k in
    (rw e (display-is_valid a c), header-is_valid c, rw (e, f) (display-kind a b c))
