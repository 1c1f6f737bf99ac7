-- ===== src/Html/Tags.antt =====
-- The end of the loop that strips tags.
use tianya.Prelude.{
  ℕ, zero, suc, ◌<◌, ◌≤◌, ◌≡◌, none, some, List, [], arith, length, inl, inr, Option-cases, true,
}
use tianya.Text.{Text, contains}
use tianya.Boost.{Boost, capture}
use tianya.Html.{tag_pattern, strip_rounds, strip_tags}

-- What the loop relies on: a match of the pattern is a part of the line, of six characters at least
-- (`<font>`), and erasing a non-empty part of a text wherever it stands leaves a shorter text.
pub record TagLaws (b : Boost) : Type 0 where
  pub match_occurs :
      (line : Text) (what : List Text)
      → b.regex_search tag_pattern line ≡ some what
      → contains (capture what 0) line ≡ true
  pub match_is_tag :
      (line : Text) (what : List Text)
      → b.regex_search tag_pattern line ≡ some what
      → 6 ≤ length (capture what 0)
  pub erase_shrinks :
      (line part : Text)
      → contains part line ≡ true
      → 1 ≤ length part
      → length (b.replace_all line part []) < length line

removal_shrinks :
    (b : Boost)
    → TagLaws b
    → (line : Text) (what : List Text) → b.regex_search tag_pattern line ≡ some what
    → length (b.replace_all line (capture what 0) []) < length line
removal_shrinks b laws line what e =
    laws.erase_shrinks line (capture what 0) (laws.match_occurs line what e)
      (omega (arith, laws.match_is_tag line what e))

strip_rounds_done :
    (b : Boost)
    → TagLaws b
    → (fuel : ℕ) (line : Text) → length line < fuel
    → b.regex_search tag_pattern (strip_rounds b fuel line) ≡ none
unfolding strip_rounds
strip_rounds_done b laws zero line h = absurd (omega arith)
strip_rounds_done b laws (suc fuel) line h = elim (Option-cases (b.regex_search tag_pattern line)) [
  | inl e ↦ rw (e, strip_rounds) e
  | inr (what, e) ↦
      rw (e, strip_rounds)
        (strip_rounds_done b laws fuel (b.replace_all line (capture what 0) [])
          (omega (arith, removal_shrinks b laws line what e)))
]

-- The loop ends by its own test within its fuel: no tag is found in the line that is left.
pub strip_tags_done :
    (b : Boost) → TagLaws b → (line : Text) → b.regex_search tag_pattern (strip_tags b line) ≡ none
unfolding strip_tags
strip_tags_done b laws line = strip_rounds_done b laws (suc (length line)) line (omega arith)
