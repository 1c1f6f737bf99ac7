-- ===== src/Imf/Inline.antt =====
-- detail::imf_base64inline_decode and detail::process_line: the value of a header field. The loop may
-- not end, so that it takes a number of rounds. A value is taken to have no zero code, at which c_str()
-- would end it, and the groups of the inner search to be what they were when it was made.
use tianya.Prelude.{
  ℕ, zero, suc, ◌≡◌, refl, ◌∙◌, ap, Bool, false, ◌&&◌, ◌||◌, not, Option, none, some, List, [], ◌∷◌,
  ◌++◌, ◌==◌, arith, if◌then◌else◌, All, drop,
}
use tianya.Text.{Text, codes, equal, starts_with}
use tianya.Boost.{Boost, capture}
use tianya.Util.{ansi_utf8}
use tianya.Imf.{Base64, imf_base64inline_encode}

-- What becomes of a reader: a value, an exception, a loop that has not ended in its rounds, or parts
-- within parts deeper than the levels given.
pub data Outcome {ℓ} (A : Type ℓ) : Type ℓ where
  done : A → Outcome A
  thrown : Outcome A
  stuck : Outcome A
  deep : Outcome A

infixl 20 ◌>>=◌
abbrev pub ◌>>=◌ {ℓ κ} : {A : Type ℓ} {B : Type κ} → Outcome A → (A → Outcome B) → Outcome B
done a >>= f = f a
thrown >>= f = thrown
stuck >>= f = stuck
deep >>= f = deep

abbrev pub word_pattern : Text
word_pattern = codes "=\\?([^?])?\\?="

abbrev pub parts_pattern : Text
parts_pattern = codes "(.*)\\?([^?])\\?(.*)"

-- The text after the body of the loop, for what the search of the loop's test found.
unfoldable pub decode_word : Boost → Base64 → Text → List Text → Outcome Text
unfolding ansi_utf8
decode_word b e s what = elim (b.regex_search parts_pattern (capture what 1)) [
  | none ↦ done (b.replace_all s (capture what 0) (codes "decodeerror"))
  | some what2 ↦
      if equal (capture what2 2) (codes "B")
      then elim (ansi_utf8 b (e.decode (capture what2 3)) (capture what2 1)) [
        | none ↦ thrown
        | some result ↦ done (b.replace_all s (capture what 0) result)
      ]
      else done s
]

-- The loop, with the pattern of its test: the body sets the variable of the test to the other pattern,
-- and nothing sets it back.
unfoldable pub decode_rounds : Boost → Base64 → ℕ → Text → Text → Outcome Text
unfolding decode_word
decode_rounds b e zero pattern s = stuck
decode_rounds b e (suc rounds) pattern s = elim (b.regex_search pattern s) [
  | none ↦ done s
  | some what ↦ decode_word b e s what >>= decode_rounds b e rounds parts_pattern
]

unfoldable pub imf_base64inline_decode : Boost → Base64 → ℕ → Text → Outcome Text
unfolding decode_rounds
imf_base64inline_decode b e rounds s = decode_rounds b e rounds word_pattern s

abbrev pub line_pattern : Text
line_pattern = codes "([^:]*)?:[ \t]+(.*)?"

-- The field of a line, or none if the line is not one.
unfoldable pub process_line : Boost → Base64 → ℕ → Text → Outcome (Option (Text × Text))
unfolding imf_base64inline_decode
process_line b e rounds line = elim (b.regex_match line_pattern line) [
  | none ↦ done none
  | some what ↦ imf_base64inline_decode b e rounds (capture what 2) >>= λ val.
      done (some (b.to_lower (capture what 1), val))
]

-- A text in which the first pattern of the loop finds nothing: `=?`, at most one character that is not
-- `?`, and `?=`.
abbrev pub word_at : Text → Bool
word_at s =
    starts_with (codes "=??=") s
    || (starts_with (codes "=?") s
        && (not (starts_with (codes "?") (drop 2 s)) && starts_with (codes "?=") (drop 3 s)))

unfoldable pub has_word : Text → Bool
unfolding starts_with
has_word [] = false
has_word (c ∷ s) = word_at (c ∷ s) || has_word s

-- The documented meaning of the pattern, for texts that it does not match.
pub record WordLaws (b : Boost) : Type 0 where
  pub no_word : (s : Text) → has_word s ≡ false → b.regex_search word_pattern s ≡ none

-- No character of the text is a question mark, as in base64.
abbrev pub IsPlain : Text → Type 0
IsPlain s = All (λ c. (c == b'?') ≡ false) s

has_word_end : (s : Text) → IsPlain s → has_word (s ++ codes "?=") ≡ false
unfolding has_word starts_with
has_word_end [] h = refl
has_word_end (c ∷ []) (h, hs) = ground arith
has_word_end (c ∷ d ∷ s) (h, (k, hs)) = ground (arith, has_word_end (d ∷ s) (k, hs))

has_word-encode :
    (e : Base64) (s : Text) → IsPlain (e.encode s) → has_word (imf_base64inline_encode e s) ≡ false
unfolding has_word imf_base64inline_encode starts_with
has_word-encode e s h = has_word_end (e.encode s) h

-- What imf_base64inline_encode writes is not read back: the pattern of the loop does not match an
-- encoded word, and the value stays encoded, whatever text it was made from.
pub decode-encode :
    (b : Boost) (e : Base64) (rounds : ℕ) (s : Text)
    → WordLaws b
    → IsPlain (e.encode s)
    → imf_base64inline_decode b e (suc rounds) (imf_base64inline_encode e s)
      ≡ done (imf_base64inline_encode e s)
unfolding imf_base64inline_decode decode_rounds
decode-encode b e rounds s laws h =
    rw (laws.no_word (imf_base64inline_encode e s) (has_word-encode e s h), decode_rounds) refl

-- A text that the second pattern takes for a word of another encoding than B: the body leaves it as
-- it is.
pub record IsOther (b : Boost) (s : Text) : Type 0 where
  pub what : List Text
  pub what2 : List Text
  pub found : b.regex_search parts_pattern s ≡ some what
  pub found2 : b.regex_search parts_pattern (capture what 1) ≡ some what2
  pub other : equal (capture what2 2) (codes "B") ≡ false

decode_word_other :
    (b : Boost) (e : Base64) (s : Text) (o : IsOther b s) → decode_word b e s o.what ≡ done s
unfolding decode_word
decode_word_other b e s o = rw (o.found2, decode_word) (rw o.other refl)

decode_rounds_other :
    (b : Boost) (e : Base64) (rounds : ℕ) (s : Text)
    → IsOther b s
    → decode_rounds b e rounds parts_pattern s ≡ stuck
unfolding decode_rounds
decode_rounds_other b e zero s o = refl
decode_rounds_other b e (suc rounds) s o =
    rw (o.found, decode_rounds)
      (ap (λ r. r >>= decode_rounds b e rounds parts_pattern) (decode_word_other b e s o)
        ∙ decode_rounds_other b e rounds s o)

-- The loop does not end on every value: once it has replaced a word that it could not read, a rest that
-- the second pattern takes for a word of another encoding than B keeps it going, however many rounds
-- it is given.
pub decode_never_ends :
    (b : Boost) (e : Base64) (rounds : ℕ) (s : Text) (what : List Text)
    → b.regex_search word_pattern s ≡ some what
    → b.regex_search parts_pattern (capture what 1) ≡ none
    → IsOther b (b.replace_all s (capture what 0) (codes "decodeerror"))
    → imf_base64inline_decode b e rounds s ≡ stuck
unfolding imf_base64inline_decode decode_rounds decode_word
decode_never_ends b e zero s what f n o = refl
decode_never_ends b e (suc rounds) s what f n o =
    rw (f, decode_rounds) (rw (n, decode_word) (decode_rounds_other b e rounds _ o))
