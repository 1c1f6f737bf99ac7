-- ===== src/Html/Cuts.antt =====
-- What the cuts return on a line that is built around a value.
use tianya.Prelude.{ℕ, suc, ◌≡◌, refl, ap, true, some, ◌∷◌, ◌++◌, ◌∙◌, take, drop, length}
use tianya.Text.{Text, find, find_first_of, find_last_of, mem_char}
use tianya.Text.Find.{IsFree, find_first_of-append, find_last_of-append, take-length, drop-length}
use tianya.Html.{quote, close_angle, first_quoted, last_quoted, cell_text}

is_quote : mem_char b'"' quote ≡ true
unfolding mem_char
is_quote = refl

is_close_angle : mem_char b'>' close_angle ≡ true
unfolding mem_char
is_close_angle = refl

first_quoted_at :
    (line : Text) (i j : ℕ)
    → find_first_of quote line ≡ some i
    → find_first_of quote (drop (suc i) line) ≡ some j
    → first_quoted line ≡ some (take j (drop (suc i) line))
unfolding first_quoted
first_quoted_at line i j e f = rw (e, first_quoted) (rw f)

last_quoted_at :
    (line : Text) (i j : ℕ)
    → find_last_of quote line ≡ some i
    → find_last_of quote (take i line) ≡ some j
    → last_quoted line ≡ drop (suc j) (take i line)
unfolding last_quoted
last_quoted_at line i j e f = rw (e, last_quoted) (rw f)

cell_text_at :
    (closing line : Text) (i j : ℕ)
    → find closing line ≡ some i
    → find_last_of close_angle (take i line) ≡ some j
    → cell_text closing line ≡ drop (suc j) (take i line)
unfolding cell_text
cell_text_at closing line i j e f = rw (e, cell_text) (rw f)

-- A text in the first pair of quotes of a line is what is cut out, whatever stands behind the pair.
pub first_quoted-append :
    (before inner rest : Text)
    → IsFree quote before
    → IsFree quote inner
    → first_quoted (before ++ b'"' ∷ (inner ++ b'"' ∷ rest)) ≡ some inner
first_quoted-append before inner rest hb hi =
    first_quoted_at (before ++ b'"' ∷ (inner ++ b'"' ∷ rest)) (length before) (length inner)
      (find_first_of-append quote before b'"' (inner ++ b'"' ∷ rest) hb is_quote)
      (rw (drop-length before b'"' (inner ++ b'"' ∷ rest))
        (find_first_of-append quote inner b'"' rest hi is_quote))
    ∙ ap some (
        ap (take (length inner)) (drop-length before b'"' (inner ++ b'"' ∷ rest))
        ∙ take-length inner (b'"' ∷ rest))

-- The text between the last two quotes of a line is what is cut out.
pub last_quoted-append :
    (before inner rest : Text)
    → IsFree quote inner
    → IsFree quote rest
    → last_quoted ((before ++ b'"' ∷ inner) ++ b'"' ∷ rest) ≡ inner
last_quoted-append before inner rest hi hr =
    last_quoted_at ((before ++ b'"' ∷ inner) ++ b'"' ∷ rest) (length (before ++ b'"' ∷ inner))
      (length before) (find_last_of-append quote (before ++ b'"' ∷ inner) b'"' rest is_quote hr)
      (rw (take-length (before ++ b'"' ∷ inner) (b'"' ∷ rest))
        (find_last_of-append quote before b'"' inner is_quote hi))
    ∙ ap (drop (suc (length before))) (take-length (before ++ b'"' ∷ inner) (b'"' ∷ rest))
    ∙ drop-length before b'"' inner

-- The text of a cell, between its opening tag's `>` and the closing tag, is what is cut out.
pub cell_text-append :
    (closing before inner rest : Text)
    → IsFree close_angle inner
    → find closing ((before ++ b'>' ∷ inner) ++ rest) ≡ some (length (before ++ b'>' ∷ inner))
    → cell_text closing ((before ++ b'>' ∷ inner) ++ rest) ≡ inner
cell_text-append closing before inner rest hi e =
    cell_text_at closing ((before ++ b'>' ∷ inner) ++ rest) (length (before ++ b'>' ∷ inner))
      (length before) e
      (rw (take-length (before ++ b'>' ∷ inner) rest)
        (find_last_of-append close_angle before b'>' inner is_close_angle hi))
    ∙ ap (drop (suc (length before))) (take-length (before ++ b'>' ∷ inner) rest)
    ∙ drop-length before b'>' inner
