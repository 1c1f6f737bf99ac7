-- ===== src/Imf/Tests.antt =====
-- Mails that are read with a stand-in for the regular expressions.
use tianya.Prelude.{
  ℕ, ◌≡◌, ◌≢◌, refl, Bool, true, false, not, ◌&&◌, Option, none, some, List, [], ◌∷◌, ◌++◌, ◌==◌,
  map, arith, if◌then◌else◌, All,
}
use tianya.Text.{Text, codes, equal, is_empty, starts_with}
use tianya.Boost.{Boost}
use tianya.Util.{skip_blank}
use tianya.Sample.{plain, trim_shrinks, trim_right_shrinks}
use tianya.Imf.Levels.{SizeLaws, imf_read_stream_levels}
use tianya.Imf.{
  InternetMailFormat, internet_mail_format, Header, text, parts, Base64, imf_base64inline_encode,
}
use tianya.Imf.Inline.{
  Outcome, done, stuck, deep, ◌>>=◌, word_pattern, WordLaws, has_word, IsOther,
  imf_base64inline_decode, decode-encode, decode_never_ends,
}
use tianya.Imf.Read.{
  multipart_pattern, header_value, is_folding, body_text, read_header, read_parts, decode_multipart,
  imf_read_stream,
}
use tianya.Imf.Fold.{
  Field, joined, unfolded_lines, lines_with, put_lines, with_body, read_header-lines_with,
}
use tianya.Imf.Parts.{Section, section_lines, part_of, decode_multipart-body_text}

-- The first `=?`, at most one character and `?=`.
abbrev word_here : Text → Option (List Text)
word_here [] = none
word_here (c ∷ s) =
    if starts_with (codes "=??=") (c ∷ s) then some (codes "=??=" ∷ [] ∷ []) else elim s [
      | [] ↦ none
      | a ∷ [] ↦ none
      | a ∷ d ∷ r ↦
          if c == b'=' && (a == b'?' && (not (d == b'?') && starts_with (codes "?=") r))
          then some ((c ∷ a ∷ d ∷ codes "?=") ∷ (d ∷ []) ∷ [])
          else none
    ]

abbrev first_word : Text → Option (List Text)
first_word [] = none
first_word (c ∷ s) = elim (word_here (c ∷ s)) [ some what ↦ some what | none ↦ first_word s ]

-- The last character between two question marks, with what stands before and behind.
abbrev part_here : Text → Option (Text × Text × Text)
part_here (c ∷ d ∷ f ∷ r) =
    if c == b'?' && (not (d == b'?') && f == b'?') then some ([], d ∷ [], r) else none
part_here _ = none

abbrev last_part : Text → Option (Text × Text × Text)
last_part [] = none
last_part (c ∷ s) = elim (last_part s) [
  | some (a, m, r) ↦ some (c ∷ a, m, r)
  | none ↦ part_here (c ∷ s)
]

-- The text before the first colon, and the text behind it.
abbrev at_colon : Text → Option (Text × Text)
at_colon [] = none
at_colon (c ∷ s) =
    let later : Option (Text × Text) = elim (at_colon s) [
      | none ↦ none
      | some (k, v) ↦ some (c ∷ k, v)
    ] in
    if c == b':' then some ([], skip_blank s) else later

abbrev search : Text → Text → Option (List Text)
search pattern s =
    if equal pattern word_pattern
    then first_word s
    else if equal pattern multipart_pattern
    then (if is_empty s then none else some (s ∷ codes "x" ∷ []))
    else elim (last_part s) [ none ↦ none | some (a, m, r) ↦ some (s ∷ a ∷ m ∷ r ∷ []) ]

abbrev reader : Boost
reader = record plain {
  regex_search = search;
  regex_match =
      λ pattern s. elim (at_colon s) [ none ↦ none | some (k, v) ↦ some (s ∷ k ∷ v ∷ []) ];
}

abbrev same : Base64
same = record { encode = λ s. s; encode_lines = λ n s. s; decode = λ s. s }

-- The mail that is read: a field over two lines, and a body.
abbrev mail : Text
mail = codes "to: a\r\n b\r\nx: c\r\n\r\nhi\r\nyou"

abbrev mail_read : Outcome InternetMailFormat
mail_read = imf_read_stream reader same 1 1 mail

reads_mail :
    mail_read
    ≡ done (
        internet_mail_format
          ((codes "to", codes "a\rb")
            ∷ (codes "x", codes "c")
            ∷ (codes "content-transfer-encoding", [])
            ∷ (codes "content-type", [])
            ∷ [])
          false
          (text (codes "hi\r\nyou\n"))
          none)
unfolding imf_read_stream skip_blank starts_with
reads_mail = refl

abbrev is_without : ℕ → Text → Bool
is_without k [] = true
is_without k (c ∷ cs) = not (c == k) && is_without k cs

-- A text is without a character if a run over it does not find it.
without : (k : ℕ) (s : Text) → is_without k s ≡ true → All (λ c. (c == k) ≡ false) s
without k [] h = tt
without k (c ∷ cs) h = (ground arith, without k cs (ground arith))

-- An encoded word that imf_base64inline_encode made is left as it is.
reader-WordLaws :
    WordLaws
      (record plain { regex_search = λ pattern s. if has_word s then some (s ∷ s ∷ []) else none })
reader-WordLaws = record { no_word = λ s h. rw h refl }

decode-encode_example :
    imf_base64inline_decode
      (record plain { regex_search = λ pattern s. if has_word s then some (s ∷ s ∷ []) else none })
      same
      7
      (imf_base64inline_encode same (codes "aGk="))
    ≡ done (imf_base64inline_encode same (codes "aGk="))
decode-encode_example =
    decode-encode
      (record plain { regex_search = λ pattern s. if has_word s then some (s ∷ s ∷ []) else none })
      same 6 (codes "aGk=") reader-WordLaws (without b'?' (codes "aGk=") refl)

rest-IsOther : IsOther reader (codes "decodeerrora?Q?b?Q?c")
unfolding equal
rest-IsOther = record {
  what = codes "decodeerrora?Q?b?Q?c" ∷ codes "decodeerrora?Q?b" ∷ codes "Q" ∷ codes "c" ∷ [];
  what2 = codes "decodeerrora?Q?b" ∷ codes "decodeerrora" ∷ codes "Q" ∷ codes "b" ∷ [];
  found = refl;
  found2 = refl;
  other = refl;
}

decode_never_ends_example : imf_base64inline_decode reader same 50 (codes "=?x?=a?Q?b?Q?c") ≡ stuck
unfolding equal starts_with
decode_never_ends_example =
    decode_never_ends reader same 50 (codes "=?x?=a?Q?b?Q?c") (codes "=?x?=" ∷ codes "x" ∷ []) refl
      refl rest-IsOther

-- A subject over three lines, and another field.
abbrev subject : Field
subject = record { start = codes "subject: a"; more = codes "  b" ∷ codes "\tc\r" ∷ [] }

abbrev receiver : Field
receiver = record { start = codes "to: d\r"; more = codes " e\r" ∷ [] }

read_header-lines_with_example :
    read_header reader same 1 subject.start [] (
      subject.more
      ++ lines_with reader (receiver ∷ []) (codes "\r" ∷ codes "hi\r" ∷ codes "you" ∷ []))
    ≡ (put_lines reader same 1
          (joined reader subject.start subject.more ∷ unfolded_lines reader same 1 (receiver ∷ []))
          []
        >>= with_body reader same 1 (codes "hi\r") (codes "you" ∷ []))
unfolding is_folding is_empty
read_header-lines_with_example =
    read_header-lines_with reader same 1 subject (receiver ∷ []) (codes "\r") (codes "hi\r")
      (codes "you" ∷ []) refl (refl, (refl, tt)) (((refl, refl), (refl, tt)), tt) refl (refl, refl)

-- A body with a preamble, one part and an epilogue.
abbrev section : Section
section = record { lines = codes "a: b" ∷ [] ∷ codes "hi" ∷ []; boundary = codes "--x--" }

abbrev mixed : Header
mixed = (codes "content-type", codes "multipart/mixed; boundary=\"x\"") ∷ []

decode_multipart-body_text_example :
    decode_multipart reader (imf_read_stream reader same 1 1) mixed (
      body_text
        ((codes "pre" ∷ []) ++ codes "--x" ∷ section_lines (section ∷ []) (codes "end" ∷ [])))
    ≡ (read_parts (imf_read_stream reader same 1 1) (map part_of (section ∷ [])) >>= λ mime.
        done (internet_mail_format mixed true (parts mime) none))
unfolding equal header_value is_empty
decode_multipart-body_text_example =
    decode_multipart-body_text reader (imf_read_stream reader same 1 1) mixed
      (codes "multipart/mixed; boundary=\"x\"" ∷ codes "x" ∷ []) (codes "pre" ∷ []) (codes "--x")
      (section ∷ []) (codes "end" ∷ []) refl refl
      (
        without b'\n' (codes "pre") refl,
        (
          without b'\n' (codes "--x") refl,
          (
            without b'\n' (codes "a: b") refl,
            (
              tt,
              (
                without b'\n' (codes "hi") refl,
                (without b'\n' (codes "--x--") refl, (without b'\n' (codes "end") refl, tt)),
              ),
            ),
          ),
        ),
      )
      (refl, tt) refl (((refl, (refl, (refl, tt))), refl), tt) (refl, tt)

reader-SizeLaws : SizeLaws reader same
reader-SizeLaws = record {
  trim_shrinks = trim_shrinks;
  trim_right_shrinks = trim_right_shrinks;
  decode_shrinks = λ s. omega arith;
}

imf_read_stream_levels_example : imf_read_stream reader same 10 1 mail ≢ deep
imf_read_stream_levels_example =
    imf_read_stream_levels reader same 10 1 mail reader-SizeLaws (omega arith)
