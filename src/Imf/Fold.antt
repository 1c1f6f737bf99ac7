-- ===== src/Imf/Fold.antt =====
-- Header fields that are folded over several lines, against a reading of the unfolded lines.

use tianya.Prelude.{ℕ, ◌≡◌, refl, ◌∙◌, true, false, Option, some, List, [], ◌∷◌, ◌++◌, All}
use tianya.Text.{Text, codes, is_empty}
use tianya.Boost.{Boost}
use tianya.Imf.{Header, Base64}
use tianya.Imf.Inline.{Outcome, done, thrown, stuck, deep, ◌>>=◌}
use tianya.Imf.Read.{put_line, is_folding, body_text, read_header}

-- A field as it stands in a mail: the line that it starts with, and lines that go on with it.
pub record Field : Type 0 where
  pub start : Text
  pub more : List Text

module _ (b : Boost) where
  -- The line starts a field: it is not empty and does not start with a blank.
  abbrev pub IsStart : Text → Type 0
  IsStart line = (is_folding b (b.trim_right line) ≡ false) × (is_empty (b.trim_right line) ≡ false)

  -- The line goes on with a field: it starts with a blank.
  abbrev pub IsMore : Text → Type 0
  IsMore line = is_folding b (b.trim_right line) ≡ true

  abbrev pub IsField : Field → Type 0
  IsField f = IsStart f.start × All IsMore f.more

  -- The line that is meant: the parts one behind the other, without the blanks around the breaks.
  abbrev pub joined : Text → List Text → Text
  joined line [] = line
  joined line (m ∷ ms) = joined (line ++ b.trim_left (b.trim_right m)) ms

  abbrev pub unfolded : Field → Text
  unfolded f = joined (b.trim_right f.start) f.more

  abbrev pub lines_with : List Field → List Text → List Text
  lines_with [] rest = rest
  lines_with (f ∷ fs) rest = f.start ∷ (f.more ++ lines_with fs rest)

  module _ (e : Base64) (rounds : ℕ) where
    -- The reference: each line in turn is put into the header.
    abbrev pub put_lines : List Text → Header → Outcome Header
    put_lines [] header = done header
    put_lines (line ∷ lines) header = put_line b e rounds line header >>= put_lines lines

    abbrev pub unfolded_lines : List Field → List Text
    unfolded_lines [] = []
    unfolded_lines (f ∷ fs) = unfolded f ∷ unfolded_lines fs

    read_more :
        (ms : List Text) (pre : Text) (header : Header) (rest : List Text)
        → All IsMore ms
        → read_header b e rounds pre header (ms ++ rest)
          ≡ read_header b e rounds (joined pre ms) header rest
    unfolding read_header
    read_more [] pre header rest h = refl
    read_more (m ∷ ms) pre header rest (h, hs) =
        rw (h, read_header) (read_more ms (pre ++ b.trim_left (b.trim_right m)) header rest hs)

    is_empty-append : (s t : Text) → is_empty s ≡ false → is_empty (s ++ t) ≡ false
    unfolding is_empty
    is_empty-append [] t h = cc
    is_empty-append (c ∷ s) t h = refl

    is_empty-joined :
        (pre : Text) (ms : List Text) → is_empty pre ≡ false → is_empty (joined pre ms) ≡ false
    is_empty-joined pre [] h = h
    is_empty-joined pre (m ∷ ms) h =
        is_empty-joined (pre ++ b.trim_left (b.trim_right m)) ms
          (is_empty-append pre (b.trim_left (b.trim_right m)) h)

    -- A line that is no folding sends the line before to the header.
    read_next :
        (pre raw : Text) (header : Header) (lines : List Text)
        → is_empty pre ≡ false
        → is_folding b (b.trim_right raw) ≡ false
        → read_header b e rounds pre header (raw ∷ lines) ≡ (
            put_line b e rounds pre header >>= λ h.
            read_header b e rounds (b.trim_right raw) h lines)
    unfolding read_header
    read_next pre raw header lines f h = rw (h, read_header) (rw f refl)

    -- The header and the text that the lines behind the blank line stand for.
    abbrev pub with_body : Text → List Text → Header → Outcome (Header × Option Text)
    with_body line ls h = done (h, some ((b.trim_right line ++ codes "\r\n") ++ body_text ls))

    read_body :
        (line : Text) (h : Header) (ls : List Text)
        → IsStart line
        → read_header b e rounds [] h (line ∷ ls) ≡ with_body line ls h
    unfolding read_header is_empty
    read_body line h ls (f, g) = rw (f, read_header) (rw g refl)

    put_lines_step :
        (r : Outcome Header) (k : Header → Outcome (Header × Option Text)) (lines : List Text)
        (l : Header → Outcome (Header × Option Text))
        → ((h : Header) → k h ≡ (put_lines lines h >>= l))
        → (r >>= k) ≡ ((r >>= put_lines lines) >>= l)
    put_lines_step (done h) k lines l p = p h
    put_lines_step thrown k lines l p = refl
    put_lines_step stuck k lines l p = refl
    put_lines_step deep k lines l p = refl

    read_fields :
        (fs : List Field) (pre : Text) (header : Header) (blank line : Text) (ls : List Text)
        → is_empty pre ≡ false
        → All IsField fs
        → b.trim_right blank ≡ []
        → IsStart line
        → read_header b e rounds pre header (lines_with fs (blank ∷ line ∷ ls))
          ≡ (put_lines (pre ∷ unfolded_lines fs) header >>= with_body line ls)
    unfolding is_folding
    read_fields [] pre header blank line ls f hs z s =
        read_next pre blank header (line ∷ ls) f (rw z refl)
        ∙ put_lines_step (put_line b e rounds pre header)
            (λ h. read_header b e rounds (b.trim_right blank) h (line ∷ ls)) [] (with_body line ls)
            (λ h. rw z (read_body line h ls s))
    read_fields (g ∷ fs) pre header blank line ls f (((n, m), ms), hs) z s =
        let later = lines_with fs (blank ∷ line ∷ ls) in
        read_next pre g.start header (g.more ++ later) f n
        ∙ put_lines_step (put_line b e rounds pre header)
            (λ h. read_header b e rounds (b.trim_right g.start) h (g.more ++ later))
            (unfolded_lines (g ∷ fs)) (with_body line ls)
            (λ h.
              read_more g.more (b.trim_right g.start) h later ms
              ∙ read_fields fs (unfolded g) h blank line ls
                  (is_empty-joined (b.trim_right g.start) g.more m) hs z s)

    -- Fields that are folded over lines are read as the same fields in one line each, in the order of
    -- the lines, and a blank line ends the header. If the line behind it is not blank and does not
    -- start with a blank, the body begins with that line. The first line of the stream is taken as it
    -- stands, its end not trimmed.
    pub read_header-lines_with :
        (first : Field) (fs : List Field) (blank line : Text) (ls : List Text)
        → is_empty first.start ≡ false
        → All IsMore first.more
        → All IsField fs
        → b.trim_right blank ≡ []
        → IsStart line
        → read_header b e rounds first.start [] (first.more ++ lines_with fs (blank ∷ line ∷ ls))
          ≡ (put_lines (joined first.start first.more ∷ unfolded_lines fs) [] >>= with_body line ls)
    read_header-lines_with first fs blank line ls f ms hs z s =
        read_more first.more first.start [] (lines_with fs (blank ∷ line ∷ ls)) ms
        ∙ read_fields fs (joined first.start first.more) [] blank line ls
            (is_empty-joined first.start first.more f) hs z s
