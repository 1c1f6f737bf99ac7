-- ===== src/Html.antt =====
-- The ways in which tianya_list.cpp and tianya_context.hpp cut a value out of a line of a page. Each
-- stands several times in the source; every position is a find, every cut a substr.
pub mod Cuts
pub mod Tags
pub mod Tests
use tianya.Prelude.{ℕ, zero, suc, Option, none, some, List, [], ◌∷◌, take, drop, length}
use tianya.Text.{Text, codes, find, find_first_of, find_last_of}
use tianya.Boost.{Boost, capture}

abbrev pub quote : Text
quote = b'"' ∷ []

abbrev pub close_angle : Text
close_angle = b'>' ∷ []

-- From behind the first quote up to the next one, if there are two.
unfoldable pub first_quoted : Text → Option Text
unfolding find_first_of
first_quoted line = elim (find_first_of quote line) [
  | none ↦ none
  | some i ↦ elim (find_first_of quote (drop (suc i) line)) [
    | none ↦ none
    | some j ↦ some (take j (drop (suc i) line))
  ]
]

-- Between the last two quotes, with what is there where one or both are missing.
unfoldable pub last_quoted : Text → Text
unfolding find_last_of
last_quoted line = elim (find_last_of quote line) [
  | none ↦ line
  | some i ↦ elim (find_last_of quote (take i line)) [
    | none ↦ take i line
    | some j ↦ drop (suc j) (take i line)
  ]
]

-- From behind the last `>` up to the closing tag, with what is there where one or both are missing.
unfoldable pub cell_text : Text → Text → Text
unfolding find find_last_of
cell_text closing line = elim (find closing line) [
  | none ↦ line
  | some i ↦ elim (find_last_of close_angle (take i line)) [
    | none ↦ take i line
    | some j ↦ drop (suc j) (take i line)
  ]
]

abbrev pub tag_pattern : Text
tag_pattern = codes "</{0,1}(font|span|strong)(.*?)>"

-- The loop that removes every font, span and strong tag: each round searches for one and removes its
-- text wherever it stands. The fuel is one more than the length of the line.
unfoldable pub strip_rounds : Boost → ℕ → Text → Text
strip_rounds b zero line = line
strip_rounds b (suc fuel) line = elim (b.regex_search tag_pattern line) [
  | none ↦ line
  | some what ↦ strip_rounds b fuel (b.replace_all line (capture what 0) [])
]

unfoldable pub strip_tags : Boost → Text → Text
unfolding strip_rounds
strip_tags b line = strip_rounds b (suc (length line)) line
