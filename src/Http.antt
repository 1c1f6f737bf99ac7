-- ===== src/Http.antt =====
-- The request that both readers of pages send, how a connection can start, and the lines that it brings.
use tianya.Prelude.{Bool, if◌then◌else◌, ◌++◌, ◌≡◌, some}
use tianya.Text.{Text, codes, is_empty}
use tianya.Boost.{Boost}
use tianya.Util.{UrlInfo, ansi_wide}

-- How a connection starts: whether the write or the read of the headers fails, and whether stop is
-- called before the loop first tests m_abort.
pub record Opening : Type 0 where
  pub write_failed : Bool
  pub header_failed : Bool
  pub stopped : Bool

unfoldable pub request_path : UrlInfo → Text
request_path ui = if is_empty ui.query then ui.path else ui.path ++ (codes "?" ++ ui.query)

abbrev pub user_agent : Text
user_agent =
    codes
      "User-Agent: Mozilla/5.0 (Windows NT 6.1; WOW64) AppleWebKit/537.36 (KHTML, like Gecko) Chrome/39.0.2171.95 Safari/537.36\r\n"

unfoldable pub request : UrlInfo → Text
unfolding request_path
request ui =
    codes "GET "
    ++ (request_path ui
        ++ (codes " HTTP/1.0\r\nHost: "
            ++ (ui.domain
                ++ (codes "\r\n"
                    ++ (user_agent ++ codes "Accept: */*\r\nConnection: close\r\n\r\n")))))

-- A line as it comes, and what it is in wide characters.
pub record Line : Type 0 where
  pub raw : Text
  pub html : Text

-- The line is read so in a character set.
abbrev pub Reads : Boost → Text → Line → Type 0
Reads b c l = ansi_wide b l.raw c ≡ some l.html
