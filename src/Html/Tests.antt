-- ===== src/Html/Tests.antt =====
-- The cuts and the tag loop at concrete lines.
use tianya.Prelude.{◌≡◌, refl, none, some}
use tianya.Text.{codes, mem_char, find, contains, equal}
use tianya.Html.{tag_pattern, quote, close_angle, first_quoted, last_quoted, cell_text, strip_tags}
use tianya.Html.Cuts.{first_quoted-append, last_quoted-append, cell_text-append}
use tianya.Html.Tags.{strip_tags_done}
use tianya.Sample.{plain, plain-TagLaws, free}

first_quoted-append_test : first_quoted (codes "<a href=\"/post\" id=\"x\">") ≡ some (codes "/post")
unfolding mem_char
first_quoted-append_test =
    first_quoted-append (codes "<a href=") (codes "/post") (codes " id=\"x\">")
      (free quote (codes "<a href=") refl) (free quote (codes "/post") refl)

last_quoted-append_test : last_quoted (codes "<td title=\"12:30\">") ≡ codes "12:30"
unfolding mem_char
last_quoted-append_test =
    last_quoted-append (codes "<td title=") (codes "12:30") (codes ">")
      (free quote (codes "12:30") refl) (free quote (codes ">") refl)

cell_text-append_test : cell_text (codes "</td>") (codes "<td>42</td>") ≡ codes "42"
unfolding mem_char find
cell_text-append_test =
    cell_text-append (codes "</td>") (codes "<td") (codes "42") (codes "</td>")
      (free close_angle (codes "42") refl) refl

strip_tags_done_example :
    plain.regex_search tag_pattern (strip_tags plain (codes "a<font>b<font>c")) ≡ none
strip_tags_done_example = strip_tags_done plain plain-TagLaws (codes "a<font>b<font>c")

strip_tags_test : strip_tags plain (codes "a<font>b<font>c") ≡ codes "abc"
unfolding strip_tags contains equal
strip_tags_test = refl
