-- ===== src/TianyaList/Tests.antt =====
-- The board's reader at a concrete page.
use mathlib.Core.List.Perm
use tianya.Prelude.{◌≤◌, ◌+◌, ◌≡◌, refl, pos, false, List, [], ◌∷◌}
use tianya.Text.{Text, codes, mem_char, find, contains, equal}
use tianya.Html.{quote, strip_tags, cell_text, last_quoted}
use tianya.Http.{Line, Opening}
use tianya.Util.{no_url, ansi_wide, atol, to_int, wide_utf8}
use tianya.Sample.{plain, free}
use tianya.TianyaList.Info.{ListInfo}
use tianya.TianyaList.Machine.{TianyaList, Page, state_unkown, cell_number}
use tianya.TianyaList.Session.{
  stop_called, read_failed, Connection, connected, resolve_failed, read_loop, crawl,
}
use tianya.TianyaList.Invariant.{IsValid, crawl-IsValid}
use tianya.TianyaList.Progress.{effort, lines_in, crawl-effort}
use tianya.TianyaList.Row.{RowText, IsRow, row_events, item_of}
use tianya.TianyaList.ReadRow.{with_item, read_loop-row_events}

abbrev no_info : ListInfo
no_info = record {
  title = [];
  post_url = [];
  author = [];
  hits = pos 0;
  replys = pos 0;
  post_time = [];
}

abbrev pub fresh : TianyaList
fresh = record {
  state = state_unkown;
  info = no_info;
  hits = [];
  replys = [];
  post_url = [];
  next_page_url = [];
  abort = false;
  is_open = false;
  log = [];
}

pub fresh-IsValid : IsValid fresh
fresh-IsValid = record {
  hits_sorted = tt;
  replys_sorted = tt;
  hits_keyed = tt;
  replys_keyed = tt;
  hits_signalled = Perm.refl [];
  replys_signalled = Perm.refl [];
  reached = λ e. cc;
}

abbrev pub ascii : Text → Line
ascii s = record { raw = s; html = s }

abbrev pub row : RowText
row = record {
  marker = ascii (codes "<td class=\"td-title facered\">");
  skip_a = ascii (codes "<span>");
  skip_b = ascii (codes "</span>");
  skip_c = ascii (codes "x");
  link = ascii (codes "<a href=\"/p\" >");
  before = codes "<a href=";
  path = codes "/p";
  behind = codes " >";
  names = ascii (codes " A<font>B ") ∷ [];
  name_end = ascii (codes "</a>");
  skip_d = ascii (codes "</td>");
  author = ascii (codes "<td><a>me</a></td>");
  hits = ascii (codes "<td>12</td>");
  replys = ascii (codes "<td>3</td>");
  time = ascii (codes "<td title=\"12:30\">");
}

pub row-IsRow : (c : Text) → IsRow plain c row
unfolding ansi_wide mem_char find contains equal strip_tags
row-IsRow c = record {
  marker_reads = refl;
  skip_a_reads = refl;
  skip_b_reads = refl;
  skip_c_reads = refl;
  link_reads = refl;
  names_read = ((refl, refl), tt);
  name_end_reads = refl;
  skip_d_reads = refl;
  author_reads = refl;
  hits_read = refl;
  replys_read = refl;
  time_reads = refl;
  marked = refl;
  no_charset = refl;
  no_next_page = refl;
  link_lem = refl;
  before_free = free quote (codes "<a href=") refl;
  path_free = free quote (codes "/p") refl;
  ended = refl;
}

abbrev first_page : Page
first_page = record { self = fresh; chareset = codes "utf-8"; yield_time = 0 }

item_test : item_of plain row ≡ record {
  title = codes "AB";
  post_url = codes "http://bbs.tianya.cn/p";
  author = codes "me";
  hits = pos 12;
  replys = pos 3;
  post_time = codes "12:30";
}
unfolding strip_tags cell_number contains equal cell_text last_quoted wide_utf8 atol to_int
item_test = refl

read_loop-row_events_example :
    read_loop plain first_page (row_events row (read_failed ∷ []))
    ≡ read_loop plain
        (record first_page { self = with_item (item_of plain row) fresh; yield_time = 2 })
        (read_failed ∷ [])
read_loop-row_events_example =
    read_loop-row_events plain row first_page (read_failed ∷ []) (row-IsRow (codes "utf-8")) refl
      refl

abbrev well : Opening
well = record { write_failed = false; header_failed = false; stopped = false }

abbrev pub one_row : List Connection
one_row = connected well (row_events row (stop_called ∷ read_failed ∷ [])) ∷ resolve_failed ∷ []

crawl-IsValid_example : IsValid (crawl plain no_url one_row fresh)
crawl-IsValid_example = crawl-IsValid plain no_url one_row fresh fresh-IsValid

crawl-effort_example : effort (crawl plain no_url one_row fresh) ≤ effort fresh + lines_in one_row
crawl-effort_example = crawl-effort plain no_url one_row fresh
