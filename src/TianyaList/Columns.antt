-- ===== src/TianyaList/Columns.antt =====
-- What serialize_to_file writes: rows that fit their columns, and what a long title does.
use mathlib.Core.List.{append_assoc, append-nil}
use tianya.Prelude.{
  ℕ, suc, ◌-◌, ◌/◌, ◌^◌, ◌≤◌, ◌≡◌, sym, refl, ◌∙◌, ap, true, some, [], ◌∷◌, ◌++◌, arith, ltb,
  length, replicate, All, ℤ,
}
use tianya.Text.{Text, codes}
use tianya.Boost.{Boost}
use tianya.Util.{wide_ansi, wide_utf8, put_int}
use tianya.Util.Locale.{Codec, ansi_wide}
use tianya.TianyaList.Info.{ListInfo}
use tianya.TianyaList.Multimap.{OrderedInfo}
use tianya.TianyaList.Serialize.{
  Row, row, overrun, complete, undefined_after, tab_count, add_column, gbk_column, end_row,
  number_columns, write_row, put_row, serialize_rows, serialize_to_file,
}

-- A text whose conversion to GBK has a number of bytes that the width takes.
pub record FitsGbk (b : Boost) (width : ℕ) (s : Text) : Type 0 where
  pub gbk : Text
  pub converted : wide_ansi b s (codes "GBK") ≡ some gbk
  pub within : length gbk / 4 ≤ width

-- A row whose columns are wide enough.
pub record Fits (b : Boost) (i : ListInfo) : Type 0 where
  pub title : FitsGbk b 30 i.title
  pub author : FitsGbk b 8 i.author
  pub hits : length (put_int i.hits) / 4 ≤ 8
  pub replys : length (put_int i.replys) / 4 ≤ 8
  pub time : length i.post_time / 4 ≤ 8

-- A row with one column more: a text, filled up with tabs of four characters.
abbrev pub with_column : ℕ → Text → Text → Text → Text
with_column width measured shown buffer =
    buffer ++ shown ++ replicate (width - length measured / 4) b'\t'

-- The row as it is meant.
abbrev pub row_of : (b : Boost) → Codec → (i : ListInfo) → Fits b i → Text
row_of b k i f =
    with_column 8 i.post_time i.post_time (
      with_column 8 (put_int i.replys) (ansi_wide k (put_int i.replys)) (
        with_column 8 (put_int i.hits) (ansi_wide k (put_int i.hits))
          (with_column 8 f.author.gbk i.author (with_column 30 f.title.gbk i.title []))))
    ++ ansi_wide k i.post_url
    ++ codes "\n"

tab_count_fits :
    (width : ℕ) (s : Text)
    → width ≤ 30
    → length s / 4 ≤ width
    → tab_count width s ≡ width - length s / 4
unfolding tab_count
tab_count_fits width s small h = omega arith

fits_int : (width n : ℕ) → width ≤ 30 → ltb (width - n) (2 ^ 31) ≡ true
fits_int width n h = ground arith

add_column_fits :
    (width : ℕ) (measured shown : Text) (next : Text → Row) (buffer : Text)
    → width ≤ 30
    → length measured / 4 ≤ width
    → add_column width measured shown next buffer ≡ next (with_column width measured shown buffer)
unfolding add_column
add_column_fits width measured shown next buffer small h =
    rw (tab_count_fits width measured small h, fits_int width (length measured / 4) small) refl

gbk_column_fits :
    (b : Boost) (width : ℕ) (shown : Text) (next : Text → Row) (buffer : Text)
    (f : FitsGbk b width shown)
    → width ≤ 30
    → gbk_column b width shown next buffer ≡ next (with_column width f.gbk shown buffer)
unfolding gbk_column
gbk_column_fits b width shown next buffer f small =
    rw (f.converted, gbk_column) (add_column_fits width f.gbk shown next buffer small f.within)

-- A text that is too long: the subtraction wraps round to more than an int counts.
add_column_overruns :
    (width : ℕ) (measured shown : Text) (next : Text → Row) (buffer : Text)
    → width ≤ 30
    → suc width ≤ length measured / 4
    → length measured / 4 ≤ 2 ^ 62
    → add_column width measured shown next buffer ≡ overrun
unfolding add_column tab_count
add_column_overruns width measured shown next buffer small h big = ground arith

gbk_column_overruns :
    (b : Boost) (width : ℕ) (shown gbk : Text) (next : Text → Row) (buffer : Text)
    → wide_ansi b shown (codes "GBK") ≡ some gbk
    → width ≤ 30
    → suc width ≤ length gbk / 4
    → length gbk / 4 ≤ 2 ^ 62
    → gbk_column b width shown next buffer ≡ overrun
unfolding gbk_column
gbk_column_overruns b width shown gbk next buffer e small h big =
    rw (e, gbk_column) (add_column_overruns width gbk shown next buffer small h big)

write_row-Fits :
    (b : Boost) (k : Codec) (i : ListInfo) (f : Fits b i) → write_row b k i ≡ row (row_of b k i f)
unfolding write_row number_columns end_row
write_row-Fits b k i f =
    let last = add_column 8 i.post_time i.post_time (end_row k i) in
    let replys = add_column 8 (put_int i.replys) (ansi_wide k (put_int i.replys)) last in
    let titled = with_column 30 f.title.gbk i.title [] in
    let named = with_column 8 f.author.gbk i.author titled in
    let hit = with_column 8 (put_int i.hits) (ansi_wide k (put_int i.hits)) named in
    let answered = with_column 8 (put_int i.replys) (ansi_wide k (put_int i.replys)) hit in
    gbk_column_fits b 30 i.title (gbk_column b 8 i.author (number_columns k i)) [] f.title
      (omega arith)
    ∙ gbk_column_fits b 8 i.author (number_columns k i) titled f.author (omega arith)
    ∙ add_column_fits 8 (put_int i.hits) (ansi_wide k (put_int i.hits)) replys named (omega arith)
        f.hits
    ∙ add_column_fits 8 (put_int i.replys) (ansi_wide k (put_int i.replys)) last hit (omega arith)
        f.replys
    ∙ add_column_fits 8 i.post_time i.post_time (end_row k i) answered (omega arith) f.time

-- Rows that fit, and the file's text for them.
abbrev pub FitAll : Boost → OrderedInfo → Type 0
FitAll b m = All (λ e. Fits b e.1) m

abbrev pub rows_of : (b : Boost) → Codec → (m : OrderedInfo) → FitAll b m → Text
rows_of b k [] f = []
rows_of b k ((n, i) ∷ m) (f, fs) = wide_utf8 b (row_of b k i f) ++ rows_of b k m fs

serialize_rows_fit :
    (b : Boost) (k : Codec) (m rest : OrderedInfo) (so_far : Text) (f : FitAll b m)
    → serialize_rows b k (m ++ rest) so_far ≡ serialize_rows b k rest (so_far ++ rows_of b k m f)
unfolding serialize_rows put_row
serialize_rows_fit b k [] rest so_far f = rw (append-nil so_far) refl
serialize_rows_fit b k ((n, i) ∷ m) rest so_far (f, fs) =
    ap (put_row b so_far (serialize_rows b k (m ++ rest))) (write_row-Fits b k i f)
    ∙ serialize_rows_fit b k m rest (so_far ++ wide_utf8 b (row_of b k i f)) fs
    ∙ ap (serialize_rows b k rest)
        (append_assoc so_far (wide_utf8 b (row_of b k i f)) (rows_of b k m fs))

-- If every text of every row is no longer than its column, the file has all rows in the order of the
-- list, each with its columns filled up with tabs of four characters.
pub serialize_to_file_fits :
    (b : Boost) (k : Codec) (m : OrderedInfo) (f : FitAll b m)
    → serialize_to_file b k m ≡ complete (rows_of b k m f)
unfolding serialize_to_file serialize_rows
serialize_to_file_fits b k m f =
    ap (λ l. serialize_rows b k l []) (sym (append-nil m)) ∙ serialize_rows_fit b k m [] [] f

-- A title of 124 bytes or more in GBK, behind rows that fit: the number of tabs wraps round to one
-- that an int cannot count, so that the row overruns its loop; the rows in front of it are written.
pub serialize_to_file_overruns :
    (b : Boost) (k : Codec) (m rest : OrderedInfo) (n : ℤ) (i : ListInfo) (gbk : Text)
    (f : FitAll b m)
    → wide_ansi b i.title (codes "GBK") ≡ some gbk
    → 124 ≤ length gbk
    → length gbk ≤ 2 ^ 62
    → (2 ^ 31 ≤ tab_count 30 gbk)
      × (write_row b k i ≡ overrun)
      × (serialize_to_file b k (m ++ (n, i) ∷ rest) ≡ undefined_after (rows_of b k m f))
unfolding serialize_to_file serialize_rows put_row write_row
serialize_to_file_overruns b k m rest n i gbk f e long big =
    let over =
      gbk_column_overruns b 30 i.title gbk (gbk_column b 8 i.author (number_columns k i)) [] e
        (omega arith) (omega arith) (omega arith) in
    (
      unfold tab_count in ground arith,
      over,
      serialize_rows_fit b k m ((n, i) ∷ rest) [] f
          ∙ ap (put_row b (rows_of b k m f) (serialize_rows b k rest)) over,
    )
