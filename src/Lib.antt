-- ===== src/Lib.antt =====
-- Tianya Radar: the reader of a board of the Tianya forum, the download of a post, the table of
-- posts in the main window, and the SMTP client that mails a post to a Kindle.
--
-- The parts and how they interact. The main window starts a tianya_list on the board's address. It
-- asks for one page after the other, reads each line by line with a state machine, keeps every row
-- in two multimaps and signals it; the signal ends in TianyaModel.update_tianya_list, whose table
-- the window shows. For a post that is picked, a tianya_context downloads its pages in the same
-- way, keeps the posts of its author, signals each, and signals the end. The window of the post,
-- NovelViewer, shows each chunk as it comes. What has been collected is written to a file or
-- becomes the attachment of the mail that the SMTP client sends with the user's settings.
--
-- The files.
--   Prelude        names of the libraries, Boolean tests on numbers, lists measured by native
--                  numbers (Prelude/Lists), integers over them (Prelude/Int).
--   Text           std::string and std::wstring as lists of codes, with find and its relatives; a
--                  position that may be npos is optional. Text/Find: what the searches return.
--   Boost          the functions of Boost that the program calls, as the fields of a record.
--   Util           libtianya/include/util.hpp: parser_url, get_chareset, the conversions;
--                  std::atol and the output of numbers (Util/Decimal is about these), the
--                  conversions by the locale with mbtowc and wctomb as arguments (Util/Locale).
--   Html           the cuts out of a line that both readers make (Html/Cuts is about them) and
--                  strip_html_tags (Html/Tags).
--   Http           the request that both readers send, and lines as they come and as they read.
--   TianyaList     libtianya/src/tianya_list.cpp and libtianya/include/tianya_list.hpp. Info is
--                  list_info, Multimap std::multimap, Machine the switch over the states with one
--                  function for each case, Session start, stop and the loop of process_handle.
--                  Row and ReadRow describe a row of the page and read it, Board does so for
--                  whole boards (Pages for one page, Whole for the connections); Change, Invariant and
--                  Progress are about whole runs. Serialize is serialize_to_file, Columns what it
--                  writes.
--   TianyaContext  libtianya/include/tianya_context.hpp, split in the same way: Machine, Session,
--                  Grows, Collect and Complete for whole runs, Post and Posts for the reading of
--                  one post, Paging for the way from page to page, Count for the count of the pages,
--                  Thread for whole posts: the parts of a page (Parts, Steps), what they add (Gains),
--                  pages with links (Pages, Linked) and the connections (Whole), with the filter on
--                  or off (Unfiltered).
--   TianyaModel    src/model/tianyamodel.cpp: update_tianya_list and the functions of the item
--                  model, with the rows (Rows), the types of the values (Kinds), their order
--                  (Order) and repeats (Unique).
--   TianyaDownload src/tianya_download.cpp: the tasks between the worker's thread and the
--                  window's, with what a window sees of them (Order), and the mail that is built of
--                  a download (Mail) and the file that it is saved to (Save).
--   NovelViewer    src/novelviewer.cpp: the window of a post: its text, its progress bars, the field
--                  to find a text (Finder) and the dialog to save. Shows is about what it shows,
--                  Saves and Whole compare this with the download.
--   TianyaWindow   src/tianyawindow.cpp: the slot of each row that the reader signals, with the table
--                  behind it (Table, and Board for a whole board); the double click, the menu
--                  of a row and closeEvent (Menu, with Stale about a menu that is up while rows
--                  come in).
--   SendProgress   src/sendprogress.cpp: the window that sends a file to a Kindle, with its timer
--                  (Mails counts the mails of one action, Whole those of a run).
--   SyncObjec      src/syncobj.cpp and post_on_gui_thread of src/main.cpp: the queue between the
--                  threads; Views compares it with the tasks in order.
--   KindleSettings src/kindlesettingdialog.cpp and TianyaWindow::kindle_settings.
--   Qt             the functions of Qt that the program calls, as the fields of a record.
--   Imf            src/smtpclient/internet_mail_format.hpp: what writes a mail, in lines (Lines);
--                  what reads one: the value of a field (Inline), the header and the body (Read).
--                  Fold is about folded header lines, Parts about a body in parts, Gives and Levels
--                  about the levels that a stream needs.
--   Smtp           src/smtpclient/smtp.hpp and src/smtpclient/smtp.cpp: the state, the
--                  constructor and the reader of answers (check_smtp_response; Smtp/Reply is
--                  about it). Smtp/Session is smtp::operator() and send_rcpt_tos_op as a machine
--                  with one point for each operation that the coroutines wait for. Smtp/Tally,
--                  Smtp/Steps, Smtp/Retries and Smtp/Stale are about its runs; Smtp/Protocol has the
--                  protocol as a grammar of the server's answers, Smtp/Dialogue a server that takes every command.
--   Sample         a stand-in for Boost on which the examples run. The modules called
--                  Tests, FileTests, MailTests or PagingTests have the examples.
--
-- How the code is read. An object is a record of its members; the effects that it has on others,
-- that is signals, requests, closed sockets, mails sent, are a log, one of those members. A
-- coroutine takes what its pending operations complete with as a list: lines, errors and calls of
-- stop for the readers, completions for the SMTP client. So each order of events is one list, and
-- a theorem about every list is about every order. A log starts empty and is only appended to. An
-- exception ends a run in a state of its own. A number of type size_t keeps its wrap-around at 2 ^
-- 64, the conversion of a long to an int that at 2 ^ 32. The key of a multimap is an integer;
-- equal keys stand in the order of insertion.
--
-- Fuel. strip_html_tags loops while a pattern matches; it gets one round for each character and
-- one more, which is enough because a round makes the text shorter. The digits of n are put out
-- with fuel n + 1, since each digit divides n by ten, and the conversion by the locale has a round
-- for each byte, since a character takes one at least. The reader of a mail takes a
-- number of levels, for parts within parts, and a number of rounds for each value, since nothing in
-- the source bounds the loop over a value's encoded words: the outcomes deep and stuck say that the
-- levels or the rounds were too few. Every other loop is a recursion on the lines, the events, the
-- rows or the characters.
--
-- Arguments. Boost's string algorithms, regular expressions and conversions of character sets are
-- the record Boost; mbtowc and wctomb are Codec; base64 of avboost is Base64; the settings, the
-- strings and the MIME message are Qt. A theorem that relies on one of them names the laws it
-- needs, such as TagLaws, WordLaws, CodecLaws, SizeLaws and QtLaws, as a hypothesis.
--
-- Not modelled. The layout and the look of the windows and dialogs, the translations and the
-- scrolling of a text, which are Qt throughout; the event loops themselves and the lifetime of the
-- io_service (src/main.cpp), in whose place the events stand in one order; the values of the
-- progress bar of src/sendprogress.cpp, which are floating-point products; sockets, TLS and
-- proxies; the program src/smtpclient/smtptest.cpp, which sends one mail by hand; and the copies
-- of other projects' libraries, avboost and src/mime.
pub mod Boost
pub mod Html
pub mod Http
pub mod Imf
pub mod KindleSettings
pub mod NovelViewer
pub mod Prelude
pub mod Qt
pub mod Sample
pub mod SendProgress
pub mod Smtp
pub mod SyncObjec
pub mod Text
pub mod TianyaContext
pub mod TianyaDownload
pub mod TianyaList
pub mod TianyaModel
pub mod TianyaWindow
pub mod Util
