-- ===== src/TianyaList/Serialize.antt =====
-- tianya_list::serialize_to_file: the list in the order of its hits, with tabs between the columns.
use tianya.Prelude.{
  ℕ, ◌+◌, ◌-◌, ◌/◌, ◌%◌, ◌^◌, none, some, [], ◌∷◌, ◌++◌, ltb, if◌then◌else◌, length, replicate,
}
use tianya.Text.{Text, codes}
use tianya.Boost.{Boost}
use tianya.Util.{wide_ansi, wide_utf8, put_int}
use tianya.Util.Locale.{Codec, ansi_wide}
use tianya.TianyaList.Info.{ListInfo}
use tianya.TianyaList.Multimap.{OrderedInfo}

-- A row's text; or the conversion to GBK threw; or a loop ran its int past the largest one.
pub data Row : Type 0 where
  row : Text → Row
  thrown : Row
  overrun : Row

-- The file as it is in the end; or with the rows in front of the one at which an exception left the
-- function; or with the rows in front of one at which an int overflows, behind which the behaviour is
-- undefined, so that nothing is said of what follows.
pub data File : Type 0 where
  complete : Text → File
  cut_off : Text → File
  undefined_after : Text → File

-- The number of tabs, in a 64-bit size_t.
unfoldable pub tab_count : ℕ → Text → ℕ
tab_count width measured = (width + (2 ^ 64 - length measured / 4)) % 2 ^ 64

-- A column behind what the row has, as long as the loop's int can count its tabs.
unfoldable pub add_column : ℕ → Text → Text → (Text → Row) → Text → Row
unfolding tab_count
add_column width measured shown next buffer =
    if ltb (tab_count width measured) (2 ^ 31)
    then next (buffer ++ shown ++ replicate (tab_count width measured) b'\t')
    else overrun

unfoldable pub gbk_column : Boost → ℕ → Text → (Text → Row) → Text → Row
unfolding add_column
gbk_column b width shown next buffer = elim (wide_ansi b shown (codes "GBK")) [
  | none ↦ thrown
  | some gbk ↦ add_column width gbk shown next buffer
]

-- The address at the end; std::to_string's text and the address pass through the locale.
unfoldable pub end_row : Codec → ListInfo → Text → Row
unfolding ansi_wide
end_row k data_info buffer = row (buffer ++ ansi_wide k data_info.post_url ++ codes "\n")

unfoldable pub number_columns : Codec → ListInfo → Text → Row
unfolding add_column end_row put_int ansi_wide
number_columns k i = add_column 8 (put_int i.hits) (ansi_wide k (put_int i.hits)) (
    add_column 8 (put_int i.replys) (ansi_wide k (put_int i.replys))
      (add_column 8 i.post_time i.post_time (end_row k i)))

unfoldable pub write_row : Boost → Codec → ListInfo → Row
unfolding gbk_column number_columns
write_row b k i = gbk_column b 30 i.title (gbk_column b 8 i.author (number_columns k i)) []

unfoldable pub put_row : Boost → Text → (Text → File) → Row → File
unfolding wide_utf8
put_row b so_far next (row s) = next (so_far ++ wide_utf8 b s)
put_row b so_far next thrown = cut_off so_far
put_row b so_far next overrun = undefined_after so_far

-- What a file that opens gets, behind what it has.
unfoldable pub serialize_rows : Boost → Codec → OrderedInfo → Text → File
unfolding put_row write_row
serialize_rows b k [] so_far = complete so_far
serialize_rows b k ((n, i) ∷ items) so_far =
    put_row b so_far (serialize_rows b k items) (write_row b k i)

unfoldable pub serialize_to_file : Boost → Codec → OrderedInfo → File
unfolding serialize_rows
serialize_to_file b k m = serialize_rows b k m []
