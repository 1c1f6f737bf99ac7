-- ===== src/TianyaList/FileTests.antt =====
-- serialize_to_file on a list of one short row, and on one with a long title behind it.
use tianya.Prelude.{◌≡◌, ◌≤◌, ◌^◌, refl, none, some, [], ◌∷◌, pos, arith, replicate}
use tianya.Text.{Text, codes}
use tianya.Util.{wide_ansi, put_int}
use tianya.Util.Locale.{Codec}
use tianya.Sample.{plain}
use tianya.TianyaList.Info.{ListInfo}
use tianya.TianyaList.Multimap.{OrderedInfo}
use tianya.TianyaList.Serialize.{
  complete, overrun, undefined_after, tab_count, write_row, serialize_to_file,
}
use tianya.TianyaList.Columns.{
  Fits, FitAll, rows_of, serialize_to_file_fits, serialize_to_file_overruns,
}

abbrev ascii : Codec
ascii = record {
  wctomb = λ c. some (c ∷ []);
  mbtowc = λ s. elim s [ [] ↦ none | c ∷ cs ↦ some (c, 1) ];
}

abbrev short : ListInfo
short = record {
  title = codes "A";
  post_url = codes "/p";
  author = codes "me";
  hits = pos 12;
  replys = pos 3;
  post_time = codes "12:30";
}

abbrev long : ListInfo
long = record short { title = replicate 124 b'a' }

unchanged : (s : Text) → wide_ansi plain s (codes "GBK") ≡ some s
unfolding wide_ansi
unchanged s = refl

short-Fits : Fits plain short
unfolding put_int
short-Fits = record {
  title = record { gbk = codes "A"; converted = unchanged (codes "A"); within = omega arith };
  author = record { gbk = codes "me"; converted = unchanged (codes "me"); within = omega arith };
  hits = omega arith;
  replys = omega arith;
  time = omega arith;
}

abbrev one_row : OrderedInfo
one_row = (pos 12, short) ∷ []

one_row-FitAll : FitAll plain one_row
one_row-FitAll = (short-Fits, tt)

serialize_to_file_fits_example :
    serialize_to_file plain ascii one_row ≡ complete (rows_of plain ascii one_row one_row-FitAll)
serialize_to_file_fits_example = serialize_to_file_fits plain ascii one_row one_row-FitAll

serialize_to_file_overruns_example :
    (2 ^ 31 ≤ tab_count 30 (replicate 124 b'a'))
    × (write_row plain ascii long ≡ overrun)
    × (serialize_to_file plain ascii ((pos 12, short) ∷ (pos 12, long) ∷ [])
        ≡ undefined_after (rows_of plain ascii one_row one_row-FitAll))
serialize_to_file_overruns_example =
    serialize_to_file_overruns plain ascii one_row [] (pos 12) long (replicate 124 b'a')
      one_row-FitAll (unchanged (replicate 124 b'a')) (omega arith) (omega arith)
