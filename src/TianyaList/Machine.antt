-- ===== src/TianyaList/Machine.antt =====
-- The state machine of tianya_list::process_handle: what one line of a page does, state by state.
use tianya.Prelude.{ℕ, Bool, none, some, List, [], ◌∷◌, ◌++◌, if◌then◌else◌, ℤ}
use tianya.Text.{Text, codes, contains}
use tianya.Boost.{Boost}
use tianya.Util.{atol, to_int, put_int, UrlInfo, parser_url, get_chareset, ansi_wide, wide_utf8}
use tianya.Html.{first_quoted, last_quoted, cell_text, strip_tags}
use tianya.TianyaList.Info.{ListInfo}
use tianya.TianyaList.Multimap.{OrderedInfo, insert}

pub data State : Type 0 where
  state_unkown state_found state_skip1 state_skip2 state_target state_name state_skip4 state_skip5
        state_author state_hits state_replys state_time :
      State

-- What leaves the object: a lookup of a host and a port for an address, the bytes of a request, a
-- closed socket, and the signal with a new row.
pub data Effect : Type 0 where
  resolving : Text → Text → UrlInfo → Effect
  sent : Text → Effect
  closed : Effect
  hit_item_fetched : ListInfo → Effect

-- The members that the code reads or writes, with `m_socket.is_open()` and `log`, the effects so far in their order.
pub record TianyaList : Type 0 where
  pub state : State
  pub info : ListInfo
  pub hits : OrderedInfo
  pub replys : OrderedInfo
  pub post_url : Text
  pub next_page_url : Text
  pub abort : Bool
  pub is_open : Bool
  pub log : List Effect

-- The object with the local variables of process_handle.
pub record Page : Type 0 where
  pub self : TianyaList
  pub chareset : Text
  pub yield_time : ℕ

-- One round of the loop goes on, returns, or leaves by an exception.
pub data Turn : Type 0 where
  stays : Page → Turn
  leaves : TianyaList → Turn
  throws : TianyaList → Turn

abbrev pub site : Text
site = codes "http://bbs.tianya.cn"

abbrev pub facered : Text
facered = codes "<td class=\"td-title facered\">"

unfoldable pub start : Boost → Text → TianyaList → TianyaList
start b url t =
    let ui = parser_url b url in
    record t {
      post_url = url;
      state = state_unkown;
      log = t.log ++ resolving ui.domain (put_int ui.port) ui ∷ [];
    }

abbrev pub goto : State → Page → Page
goto s p = record p { self = record (p.self) { state = s } }

-- The page's row marker, and the reset of yield_time.
unfoldable pub mark_found : Text → Page → Page
mark_found html p =
    if contains facered html
    then record p { self = record (p.self) { state = state_found }; yield_time = 1 }
    else record p { yield_time = 0 }

-- m_next_page_url holds the address during the call of start, and is empty again after it.
unfoldable pub next_page : Boost → Text → TianyaList → TianyaList
unfolding start
next_page b url t = record (start b url (record t { next_page_url = url })) { next_page_url = [] }

unfoldable pub on_unkown : Boost → Text → Text → Page → Turn
unfolding mark_found next_page
on_unkown b raw html p =
    if contains (codes "meta charset=") html
    then stays (record p { yield_time = 0; chareset = get_chareset b raw })
    else if contains (codes "下一页") html
    then elim (first_quoted html) [
      | none ↦ stays (mark_found html p)
      | some path ↦
          leaves (next_page b (wide_utf8 b (site ++ b.trim path)) (mark_found html p).self)
    ]
    else stays (mark_found html p)

unfoldable pub on_target : Boost → Text → Page → Page
on_target b html p = elim (first_quoted html) [
  | none ↦ goto state_unkown p
  | some path ↦ record p {
    self = record (p.self) {
      state = state_name;
      info = record (p.self.info) { post_url = wide_utf8 b (site ++ b.trim path); title = [] };
    };
  }
]

unfoldable pub on_name : Boost → Text → Page → Page
on_name b html p =
    let line = b.trim (strip_tags b html) in
    if contains (codes "</a") line
    then record p {
      self = record (p.self) {
        state = state_skip5;
        info = record (p.self.info) { title = b.trim_any_of (codes " \t\r") p.self.info.title };
      };
    }
    else record p {
      self = record (p.self) { info = record (p.self.info) { title = p.self.info.title ++ line } };
    }

unfoldable pub on_author : Boost → Text → Page → Page
on_author b html p = record p {
  self = record (p.self) {
    state = state_hits;
    info = record (p.self.info) { author = b.trim (cell_text (codes "</a>") html) };
  };
}

-- The number in a cell: std::atol of its UTF-8 text, as an int.
unfoldable pub cell_number : Boost → Text → ℤ
cell_number b html = to_int (atol (wide_utf8 b (b.trim (cell_text (codes "</td>") html))))

unfoldable pub on_hits : Boost → Text → Page → Page
unfolding cell_number
on_hits b html p = record p {
  self = record (p.self) {
    state = state_replys;
    info = record (p.self.info) { hits = cell_number b html };
  };
}

unfoldable pub on_replys : Boost → Text → Page → Page
unfolding cell_number
on_replys b html p = record p {
  self = record (p.self) {
    state = state_time;
    info = record (p.self.info) { replys = cell_number b html };
  };
}

-- The row is complete: it goes into both maps and out by the signal.
unfoldable pub add_item : ListInfo → TianyaList → TianyaList
add_item i t = record t {
  state = state_unkown;
  info = i;
  hits = insert i.hits i t.hits;
  replys = insert i.replys i t.replys;
  log = t.log ++ hit_item_fetched i ∷ [];
}

unfoldable pub on_time : Boost → Text → Page → Page
unfolding add_item
on_time b html p = record p {
  self = add_item (record (p.self.info) { post_time = b.trim (last_quoted html) }) p.self;
  yield_time = 2;
}

-- The switch on m_state.
unfoldable pub dispatch : Boost → State → Text → Text → Page → Turn
unfolding on_unkown on_target on_name on_author on_hits on_replys on_time
dispatch b state_unkown raw html p = on_unkown b raw html p
dispatch b state_found raw html p = stays (goto state_skip1 p)
dispatch b state_skip1 raw html p = stays (goto state_skip2 p)
dispatch b state_skip2 raw html p = stays (goto state_target p)
dispatch b state_target raw html p = stays (on_target b html p)
dispatch b state_name raw html p = stays (on_name b html p)
dispatch b state_skip4 raw html p = stays (goto state_skip5 p)
dispatch b state_skip5 raw html p = stays (goto state_author p)
dispatch b state_author raw html p = stays (on_author b html p)
dispatch b state_hits raw html p = stays (on_hits b html p)
dispatch b state_replys raw html p = stays (on_replys b html p)
dispatch b state_time raw html p = stays (on_time b html p)

-- One line: it is converted from the page's character set, then handled in the current state.
unfoldable pub handle_line : Boost → Text → Page → Turn
unfolding dispatch
handle_line b raw p = elim (ansi_wide b raw p.chareset) [
  | none ↦ throws p.self
  | some html ↦ dispatch b p.self.state raw html p
]
