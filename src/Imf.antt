-- ===== src/Imf.antt =====
-- src/smtpclient/internet_mail_format.hpp: a mail, and how it is written out. The encoding in base64
-- comes from avboost and is an argument.
pub mod Lines
pub mod Inline
pub mod Read
pub mod Fold
pub mod Parts
pub mod Gives
pub mod Levels
pub mod Tests
use tianya.Prelude.{
  ℕ, zero, suc, ◌+◌, ◌-◌, ◌*◌, ◌%◌, ◌^◌, ◌≤◌, ◌<◌, ◌≡◌, Bool, true, false, ◌||◌, Option, none, some,
  List, [], ◌∷◌, ◌++◌, leb, if◌then◌else◌, length,
}
use tianya.Text.{Text, codes, equal, find_last_of}
use tianya.Boost.{Boost, capture}

-- The header's fields, in the order in which the map goes through them.
abbrev pub Header : Type 0
Header = List (Text × Text)

-- What custom_data writes, if it is set, is a text.
mutual
  pub data InternetMailFormat : Type 0 where
    internet_mail_format : Header → Bool → Body → Option Text → InternetMailFormat

  pub data Body : Type 0 where
    text : Text → Body
    parts : MimeContent → Body

  pub data MimeContent : Type 0 where
    nil : MimeContent
    cons : InternetMailFormat → MimeContent → MimeContent

unfoldable pub get_header : InternetMailFormat → Header
get_header (internet_mail_format header multipart body custom) = header

-- boost::base64_encode, of a string and in lines of a given length, and boost::base64_decode.
pub record Base64 : Type 0 where
  pub encode : Text → Text
  pub encode_lines : ℕ → Text → Text
  pub decode : Text → Text

unfoldable pub mail_address_split : Boost → Text → List Text
mail_address_split b line = b.split_any_of (codes ";,") line

-- The column that the source computes, in a 64-bit size_t: npos + 2 is 1.
unfoldable pub last_column : Text → ℕ
unfolding find_last_of
last_column to = elim (find_last_of (codes "\r\n") to) [
  | none ↦ (length to + (2 ^ 64 - 1)) % 2 ^ 64
  | some zero ↦ length to
  | some (suc i) ↦ (length to + (2 ^ 64 - (suc i + 2))) % 2 ^ 64
]

unfoldable pub checked_newline_append : Text → Text → Text
unfolding last_column
checked_newline_append to add =
    if leb 78 ((last_column to + length add) % 2 ^ 64)
    then (to ++ codes "\r\n\t") ++ add
    else to ++ add

unfoldable imf_base64inline_encode : Base64 → Text → Text
imf_base64inline_encode e s = codes "=?utf8?B?" ++ e.encode s ++ codes "?="

abbrev address_pattern : Text
address_pattern = codes "[\"]?([^\\s\"]*)?\"?\\s*(<.*@.*?>)"

-- One address of the line.
unfoldable append_mail : Boost → Base64 → Text → Text → Text
unfolding checked_newline_append imf_base64inline_encode
append_mail b e out mail = elim (b.regex_search address_pattern mail) [
  | none ↦ checked_newline_append out (mail ++ codes "; ")
  | some what ↦ checked_newline_append out (
      codes "\""
      ++ imf_base64inline_encode e (capture what 1)
      ++ codes "\" "
      ++ b.trim (capture what 2)
      ++ codes "; ")
]

unfoldable append_mails : Boost → Base64 → Text → List Text → Text
unfolding append_mail
append_mails b e out [] = out
append_mails b e out (mail ∷ mails) = append_mails b e (append_mail b e out mail) mails

unfoldable imf_mailaddr_base64inline_encode : Boost → Base64 → Text → Text → Text
unfolding append_mails mail_address_split
imf_mailaddr_base64inline_encode b e out s = append_mails b e out (mail_address_split b s)

-- The value of one field, behind its name.
unfoldable write_value : Boost → Base64 → Text → Text × Text → Text
unfolding imf_mailaddr_base64inline_encode checked_newline_append imf_base64inline_encode
write_value b e out (name, value) =
    if equal name (codes "from") || equal name (codes "to")
    then imf_mailaddr_base64inline_encode b e out value
    else if equal name (codes "subject")
    then checked_newline_append out (imf_base64inline_encode e value)
    else checked_newline_append out value

unfoldable write_header : Boost → Base64 → Text → Header → Text
unfolding write_value
write_header b e out [] = out
write_header b e out ((name, value) ∷ fields) =
    write_header b e (write_value b e (out ++ name ++ codes ": ") (name, value) ++ codes "\r\n")
      fields

-- boost::get throws on a body in parts, whether or not the assertion of have_multipart before it is compiled in.
unfoldable imf_write_stream : Boost → Base64 → InternetMailFormat → Option Text
unfolding write_header
imf_write_stream b e (internet_mail_format header multipart (parts mimes) custom) = none
imf_write_stream b e (internet_mail_format header multipart (text body) custom) = some (
    write_header b e [] header
    ++ codes "content-transfer-encoding: base64\r\n\r\n"
    ++ e.encode_lines 78 body)

-- send_mail_data of smtp.hpp: what is sent, without the end mark.
unfoldable pub mail_data : Boost → Base64 → InternetMailFormat → Option Text
unfolding imf_write_stream
mail_data b e (internet_mail_format header multipart body none) =
    imf_write_stream b e (internet_mail_format header multipart body none)
mail_data b e (internet_mail_format header multipart body (some data_text)) = some data_text
