-- ===== src/Imf/Read.antt =====
-- imf_read_stream, imf_decode_multipart and mime_read_stream: a mail is read from lines. A stream is
-- the list of its lines: the last is the one that ends with the stream, so that eof() is the empty
-- list.
use tianya.Prelude.{
  ℕ, zero, suc, Bool, true, false, ◌||◌, not, Option, none, some, List, [], ◌∷◌, ◌++◌, ◌==◌,
  if◌then◌else◌,
}
use tianya.Text.{Text, codes, equal, is_empty}
use tianya.Boost.{Boost, capture}
use tianya.Imf.{
  InternetMailFormat, internet_mail_format, Header, text, parts, MimeContent, nil, cons, Base64,
}
use tianya.Imf.Inline.{Outcome, done, deep, ◌>>=◌, process_line}

-- What std::getline reads from a text, line after line.
unfoldable pub lines_from : Text → Text → List Text
lines_from line [] = line ∷ []
lines_from line (c ∷ cs) =
    let longer = lines_from (line ++ c ∷ []) cs in
    if c == b'\n' then line ∷ lines_from [] cs else longer

unfoldable pub lines_of : Text → List Text
unfolding lines_from
lines_of s = lines_from [] s

-- unordered_map::insert: a key that is there keeps its value.
unfoldable pub insert_field : Text × Text → Header → Header
unfolding equal
insert_field (key, value) [] = (key, value) ∷ []
insert_field (key, value) ((k, v) ∷ header) =
    if equal k key then (k, v) ∷ header else (k, v) ∷ insert_field (key, value) header

-- operator[]: the value of a key; one that is not there is put in with an empty value.
unfoldable pub header_value : Text → Header → Text
unfolding equal
header_value key [] = []
header_value key ((k, v) ∷ header) = if equal k key then v else header_value key header

unfoldable pub touch_field : Text → Header → Header
unfolding insert_field
touch_field key header = insert_field (key, []) header

-- A header line that is complete; one that is no field is left out.
unfoldable pub put_line : Boost → Base64 → ℕ → Text → Header → Outcome Header
unfolding process_line insert_field
put_line b e rounds line header = process_line b e rounds line >>= λ field.
    done (elim field [ none ↦ header | some f ↦ insert_field f header ])

unfoldable pub is_folding : Boost → Text → Bool
is_folding b [] = false
is_folding b (c ∷ cs) = b.is_space c

-- The lines of the body as they are put together again.
unfoldable pub body_text : List Text → Text
body_text [] = []
body_text (line ∷ lines) = (line ++ codes "\n") ++ body_text lines

-- The loop over the header's lines, with the line before: the header, and the body if there is one.
unfoldable pub read_header :
    Boost → Base64 → ℕ → Text → Header → List Text → Outcome (Header × Option Text)
unfolding put_line is_folding body_text is_empty
read_header b e rounds pre header [] = done (header, none)
read_header b e rounds pre header (raw ∷ lines) =
    let line = b.trim_right raw in
    let folded = read_header b e rounds (pre ++ b.trim_left line) header lines in
    let next = put_line b e rounds pre header >>= λ h. read_header b e rounds line h lines in
    let blank = read_header b e rounds line header lines in
    if is_folding b line
    then folded
    else if not (is_empty pre)
    then next
    else if not (is_empty line)
    then done (header, some ((line ++ codes "\r\n") ++ body_text lines))
    else blank

-- The body behind its transfer encoding.
unfoldable pub decode_body : Boost → Base64 → Header → Text → Text
unfolding header_value
decode_body b e header body =
    if equal (b.to_lower (header_value (codes "content-transfer-encoding") header)) (codes "base64")
    then e.decode body
    else body

abbrev pub multipart_pattern : Text
multipart_pattern = codes "multipart/.*;.*?boundary=\"(.*)?\""

abbrev pub is_start : Boost → Text → Text → Bool
is_start b boundary line = equal (b.trim line) (codes "--" ++ boundary)

abbrev pub is_end : Boost → Text → Text → Bool
is_end b boundary line = equal (b.trim line) ((codes "--" ++ boundary) ++ codes "--")

-- The inner loop of mime_read_stream: the texts of the parts; what no boundary follows is left out.
unfoldable pub collect_parts : Boost → Text → Text → List Text → List Text
collect_parts b boundary part [] = []
collect_parts b boundary part (line ∷ lines) =
    let closed = collect_parts b boundary [] lines in
    let more = collect_parts b boundary (part ++ (line ++ codes "\n")) lines in
    if is_start b boundary line || is_end b boundary line then part ∷ closed else more

-- The outer loop: up to the first boundary.
unfoldable pub find_parts : Boost → Text → List Text → List Text
unfolding collect_parts
find_parts b boundary [] = []
find_parts b boundary (line ∷ lines) =
    let later = find_parts b boundary lines in
    if is_start b boundary line then collect_parts b boundary [] lines else later

-- Each part is a mail, read in the same way.
unfoldable pub read_parts : (Text → Outcome InternetMailFormat) → List Text → Outcome MimeContent
read_parts read [] = done nil
read_parts read (part ∷ rest) =
    read part >>= λ imf. read_parts read rest >>= λ more. done (cons imf more)

-- imf_decode_multipart
unfoldable pub decode_multipart :
    Boost → (Text → Outcome InternetMailFormat) → Header → Text → Outcome InternetMailFormat
unfolding read_parts find_parts lines_of header_value
decode_multipart b read header body =
    elim (b.regex_search multipart_pattern (header_value (codes "content-type") header)) [
      | none ↦ done (internet_mail_format header false (text body) none)
      | some what ↦ read_parts read (find_parts b (capture what 1) (lines_of body)) >>= λ mime.
          done (internet_mail_format header true (parts mime) none)
    ]

-- A stream without a body leaves the body empty.
unfoldable pub after_header :
    Boost
    → Base64
    → (Text → Outcome InternetMailFormat)
    → Header × Option Text
    → Outcome InternetMailFormat
unfolding decode_multipart decode_body touch_field
after_header b e read (header, none) = done (internet_mail_format header false (text []) none)
after_header b e read (header, some body) =
    let encoded = touch_field (codes "content-transfer-encoding") header in
    decode_multipart b read (touch_field (codes "content-type") encoded)
      (decode_body b e encoded body)

abbrev pub first_line : List Text → Text
first_line [] = []
first_line (line ∷ lines) = line

abbrev pub rest_lines : List Text → List Text
rest_lines [] = []
rest_lines (line ∷ lines) = lines

-- imf_read_stream of a text, with the levels of parts within parts, and the rounds of each value.
unfoldable pub imf_read_stream : Boost → Base64 → ℕ → ℕ → Text → Outcome InternetMailFormat
unfolding read_header after_header lines_of
imf_read_stream b e zero rounds s = deep
imf_read_stream b e (suc levels) rounds s =
    read_header b e rounds (first_line (lines_of s)) [] (rest_lines (lines_of s))
    >>= after_header b e (imf_read_stream b e levels rounds)
