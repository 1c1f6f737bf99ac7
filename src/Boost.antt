-- ===== src/Boost.antt =====
-- What the program takes from Boost: string algorithms, regular expressions and character sets. They
-- are not part of the repository, so they are arguments of the definitions that call them.
use tianya.Prelude.{ℕ, Bool, Option, List, [], get_elem?, some, none}
use tianya.Text.{Text}

pub record Boost : Type 0 where
  -- boost::trim, boost::trim_right and boost::trim_left with the classification of the locale.
  pub trim : Text → Text
  pub trim_right : Text → Text
  pub trim_left : Text → Text
  -- boost::trim_if(s, boost::is_any_of(set))
  pub trim_any_of : Text → Text → Text
  -- boost::is_space()
  pub is_space : ℕ → Bool
  -- boost::to_lower
  pub to_lower : Text → Text
  -- boost::replace_all(input, search, format)
  pub replace_all : Text → Text → Text → Text
  -- boost::split(out, input, boost::is_any_of(set))
  pub split_any_of : Text → Text → List Text
  -- boost::regex_search and boost::regex_match: what[0], what[1] and so on, if there is a match.
  pub regex_search : Text → Text → Option (List Text)
  pub regex_match : Text → Text → Option (List Text)
  -- boost::locale::conv::utf_to_utf, and `between`, which throws on a character set it does not know.
  pub utf8_to_wide : Text → Text
  pub wide_to_utf8 : Text → Text
  pub between : Text → Text → Text → Option Text

-- what[n]: a group with no match is empty.
abbrev pub capture : List Text → ℕ → Text
capture what n = elim (get_elem? what n) [ some s ↦ s | none ↦ [] ]
