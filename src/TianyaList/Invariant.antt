-- ===== src/TianyaList/Invariant.antt =====
-- The two maps of the object and the rows that were signalled, over whole runs.
use mathlib.Core.List.{Perm, append-nil, perm_append_singleton}
use mathlib.Core.List.Perm
use tianya.Prelude.{
  ℤ, ltb_ℤ, ◌≡◌, refl, ◌∙◌, ◌≢◌, Bool, true, false, ◌||◌, List, [], ◌∷◌, ◌++◌, arith, inl, inr,
  Bool-cases, if◌then◌else◌, All,
}
use tianya.Text.{codes}
use tianya.Boost.{Boost}
use tianya.Util.{UrlInfo, parser_url}
use tianya.Http.{Opening, request}
use tianya.TianyaList.Info.{ListInfo}
use tianya.TianyaList.Multimap.{
  OrderedInfo, insert, IsSorted, insert-IsSorted, values, values-insert,
}
use tianya.TianyaList.Machine.{
  state_skip4, TianyaList, Page, Turn, stays, leaves, throws, Effect, closed, sent,
  hit_item_fetched, add_item, handle_line,
}
use tianya.TianyaList.Session.{
  Event, stop_called, line, read_failed, Run, waiting, returned, following, thrown, close, stop,
  after_line, after_page, send_request, begin_page, read_loop, process_handle, Connection,
  resolve_failed, connect_failed, connected, reopen, crawl,
}
use tianya.TianyaList.Change.{
  fetched, fetched-append, SameRows, Change, same, added, turn_self, handle_line-Change,
}

-- Each entry of a map stands under the number of its row that the map is for.
abbrev pub IsKeyed : (ListInfo → ℤ) → OrderedInfo → Type 0
IsKeyed key m = All (λ e. e.0 ≡ key e.1) m

insert-IsKeyed :
    (key : ListInfo → ℤ) (v : ListInfo) (m : OrderedInfo)
    → IsKeyed key m
    → IsKeyed key (insert (key v) v m)
unfolding insert
insert-IsKeyed key v [] h = (refl, tt)
insert-IsKeyed key v ((j, w) ∷ m) (h, hs) = elim (Bool-cases (ltb_ℤ (key v) j)) [
  | inl less ↦ rw less (refl, (h, hs))
  | inr more ↦ rw more (h, insert-IsKeyed key v m hs)
]

pub record IsValid (t : TianyaList) : Type 0 where
  pub hits_sorted : IsSorted t.hits
  pub replys_sorted : IsSorted t.replys
  pub hits_keyed : IsKeyed (λ i. i.hits) t.hits
  pub replys_keyed : IsKeyed (λ i. i.replys) t.replys
  pub hits_signalled : Perm (values t.hits) (fetched t.log)
  pub replys_signalled : Perm (values t.replys) (fetched t.log)
  pub reached : t.state ≢ state_skip4

SameRows-IsValid : (t u : TianyaList) → SameRows t u → IsValid t → IsValid u
SameRows-IsValid t u s v = record {
  hits_sorted = rw s.hits v.hits_sorted;
  replys_sorted = rw s.replys v.replys_sorted;
  hits_keyed = rw s.hits v.hits_keyed;
  replys_keyed = rw s.replys v.replys_keyed;
  hits_signalled = rw (s.hits, s.signals) v.hits_signalled;
  replys_signalled = rw (s.replys, s.signals) v.replys_signalled;
  reached = s.reached v.reached;
}

-- The new row stands at the end of the signals, and somewhere in the map.
grown :
    (m : OrderedInfo) (k : ℤ) (i : ListInfo) (log : List Effect)
    → Perm (values m) (fetched log)
    → Perm (values (insert k i m)) (fetched (log ++ hit_item_fetched i ∷ []))
grown m k i log p = rw (fetched-append log (hit_item_fetched i ∷ [])) (
    Perm.trans (values-insert k i m)
      (Perm.trans (Perm.cons i p) (Perm.symm (perm_append_singleton i (fetched log)))))

add_item-IsValid : (i : ListInfo) (t : TianyaList) → IsValid t → IsValid (add_item i t)
unfolding add_item
add_item-IsValid i t v = record {
  hits_sorted = insert-IsSorted i.hits i t.hits v.hits_sorted;
  replys_sorted = insert-IsSorted i.replys i t.replys v.replys_sorted;
  hits_keyed = insert-IsKeyed (λ j. j.hits) i t.hits v.hits_keyed;
  replys_keyed = insert-IsKeyed (λ j. j.replys) i t.replys v.replys_keyed;
  hits_signalled = grown t.hits i.hits i t.log v.hits_signalled;
  replys_signalled = grown t.replys i.replys i t.log v.replys_signalled;
  reached = λ e. cc;
}

Change-IsValid : (t u : TianyaList) → Change t u → IsValid t → IsValid u
Change-IsValid t u (same s) v = SameRows-IsValid t u s v
Change-IsValid t u (added i e st) v = rw e (add_item-IsValid i t v)

SameRows-close : (t : TianyaList) → SameRows t (close t)
unfolding close
SameRows-close t = record {
  hits = refl;
  replys = refl;
  signals = fetched-append t.log (closed ∷ []) ∙ append-nil (fetched t.log);
  reached = λ r. r;
  advance = omega arith;
}

SameRows-stop : (t : TianyaList) → SameRows t (stop t)
unfolding stop close
SameRows-stop t = record {
  hits = refl;
  replys = refl;
  signals = fetched-append t.log (closed ∷ []) ∙ append-nil (fetched t.log);
  reached = λ r. r;
  advance = omega arith;
}

SameRows-reopen : (t : TianyaList) → SameRows t (reopen t)
unfolding reopen close
SameRows-reopen t = elim (Bool-cases t.is_open) [
  | inl e ↦
      rw (e, reopen)
        (record {
          hits = refl;
          replys = refl;
          signals = fetched-append t.log (closed ∷ []) ∙ append-nil (fetched t.log);
          reached = λ r. r;
          advance = omega arith;
        })
  | inr e ↦
      rw (e, reopen)
        (record {
          hits = refl;
          replys = refl;
          signals = refl;
          reached = λ r. r;
          advance = omega arith;
        })
]

SameRows-send_request : (ui : UrlInfo) (t : TianyaList) → SameRows t (send_request ui t)
unfolding send_request
SameRows-send_request ui t = record {
  hits = refl;
  replys = refl;
  signals = fetched-append t.log (sent (request ui) ∷ []) ∙ append-nil (fetched t.log);
  reached = λ r. r;
  advance = omega arith;
}

-- The object of a run, however far the run has come.
abbrev pub run_self : Run → TianyaList
run_self (waiting p) = p.self
run_self (returned t) = t
run_self (following t) = t
run_self (thrown t) = t

-- A property of the object that every change of a round keeps holds after every run.
module _ (P : TianyaList → Type 0) (keep : (t u : TianyaList) → Change t u → P t → P u) where
  close_keeps : (t : TianyaList) → P t → P (close t)
  close_keeps t h = keep t (close t) (same (SameRows-close t)) h

  stop_keeps : (t : TianyaList) → P t → P (stop t)
  stop_keeps t h = keep t (stop t) (same (SameRows-stop t)) h

  after_line_keeps :
      (next : Page → Run) (turn : Turn)
      → ((q : Page) → P q.self → P (run_self (next q)))
      → P (turn_self turn)
      → P (run_self (after_line next turn))
  unfolding after_line
  after_line_keeps next (throws t) more h = h
  after_line_keeps next (leaves t) more h = h
  after_line_keeps next (stays q) more h = elim (Bool-cases q.self.abort) [
    | inl e ↦ rw (e, after_line) h
    | inr e ↦ rw (e, after_line) (more q h)
  ]

  after_page_keeps :
      (next : TianyaList → TianyaList) (run : Run)
      → ((u : TianyaList) → P u → P (next u))
      → P (run_self run)
      → P (after_page next run)
  unfolding after_page
  after_page_keeps next (waiting p) more h = h
  after_page_keeps next (returned t) more h = h
  after_page_keeps next (thrown t) more h = h
  after_page_keeps next (following t) more h = more t h

  if_keeps : (c : Bool) (t u : TianyaList) → P t → P u → P (if c then t else u)
  if_keeps true t u h k = h
  if_keeps false t u h k = k

  reopen_keeps : (t : TianyaList) → P t → P (reopen t)
  reopen_keeps t h = keep t (reopen t) (same (SameRows-reopen t)) h

  pub read_loop_keeps :
      (b : Boost) (p : Page) (events : List Event) → P p.self → P (run_self (read_loop b p events))
  unfolding read_loop
  read_loop_keeps b p [] h = h
  read_loop_keeps b p (stop_called ∷ events) h =
      read_loop_keeps b (record p { self = stop p.self }) events (stop_keeps p.self h)
  read_loop_keeps b p (read_failed ∷ events) h = close_keeps p.self h
  read_loop_keeps b p (line raw ∷ events) h =
      after_line_keeps (λ q. read_loop b q events) (handle_line b raw p)
        (λ q k. read_loop_keeps b q events k)
        (keep p.self (turn_self (handle_line b raw p)) (handle_line-Change b raw p) h)

  send_request_keeps : (ui : UrlInfo) (t : TianyaList) → P t → P (send_request ui t)
  send_request_keeps ui t h = keep t (send_request ui t) (same (SameRows-send_request ui t)) h

  begin_page_keeps :
      (b : Boost) (events : List Event) (t : TianyaList)
      → P t
      → P (run_self (begin_page b events t))
  unfolding begin_page
  begin_page_keeps b events t h = elim (Bool-cases t.abort) [
    | inl e ↦ rw (e, begin_page) h
    | inr e ↦
        rw (e, begin_page)
          (read_loop_keeps b (record { self = t; chareset = codes "utf-8"; yield_time = 0 }) events
            h)
  ]

  process_handle_keeps :
      (b : Boost) (ui : UrlInfo) (o : Opening) (events : List Event) (t : TianyaList)
      → P t
      → P (run_self (process_handle b ui o events t))
  unfolding process_handle
  process_handle_keeps b ui o events t h =
      let k = send_request_keeps ui t h in
      elim (Bool-cases (o.write_failed || o.header_failed)) [
        | inl e ↦ rw (e, process_handle) (close_keeps (send_request ui t) k)
        | inr e ↦
            rw (e, process_handle)
              (begin_page_keeps b events _
                (if_keeps o.stopped _ _ (stop_keeps (send_request ui t) k) k))
      ]

  pub crawl_keeps :
      (b : Boost) (ui : UrlInfo) (cs : List Connection) (t : TianyaList) → P t → P (crawl b ui cs t)
  unfolding crawl
  crawl_keeps b ui [] t h = h
  crawl_keeps b ui (resolve_failed ∷ rest) t h = h
  crawl_keeps b ui (connect_failed ∷ rest) t h = if_keeps t.is_open _ _ (close_keeps t h) h
  crawl_keeps b ui (connected o events ∷ rest) t h =
      after_page_keeps (λ u. crawl b (parser_url b u.post_url) rest u)
        (process_handle b ui o events (reopen t))
        (λ u k. crawl_keeps b (parser_url b u.post_url) rest u k)
        (process_handle_keeps b ui o events (reopen t) (reopen_keeps t h))

-- The rows stay consistent through every run: whatever the pages hold, however the connections fail
-- and whenever stop is called, both maps stay sorted by their keys, each row stands in them under its
-- own hits and replies, each map holds exactly the rows that were signalled, and the state that
-- nothing leads to is not entered.
pub crawl-IsValid :
    (b : Boost) (ui : UrlInfo) (cs : List Connection) (t : TianyaList)
    → IsValid t
    → IsValid (crawl b ui cs t)
crawl-IsValid b ui cs t v = crawl_keeps IsValid Change-IsValid b ui cs t v
