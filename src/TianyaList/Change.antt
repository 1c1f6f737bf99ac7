-- ===== src/TianyaList/Change.antt =====
-- What one line can do to the object: nothing to the rows, or one complete row more.
use tianya.Prelude.{
  ℕ, suc, ◌≤◌, ◌≡◌, refl, ◌≢◌, List, [], ◌∷◌, ◌++◌, arith, inl, inr, Bool-cases, Option-cases, ◌∙◌,
}
use mathlib.Core.List.{append-nil}
use tianya.Text.{Text, codes, contains}
use tianya.Boost.{Boost}
use tianya.Util.{ansi_wide}
use tianya.Html.{first_quoted, strip_tags}
use tianya.TianyaList.Info.{ListInfo}
use tianya.TianyaList.Machine.{
  State, state_unkown, state_found, state_skip1, state_skip2, state_target, state_name, state_skip4,
  state_skip5, state_author, state_hits, state_replys, state_time, Effect, resolving, sent, closed,
  hit_item_fetched, TianyaList, Page, Turn, stays, leaves, throws, add_item, facered, on_unkown,
  mark_found, next_page, on_target, on_name, dispatch, handle_line,
}

-- The rows that were signalled, in their order.
abbrev pub fetched : List Effect → List ListInfo
fetched [] = []
fetched (hit_item_fetched i ∷ log) = i ∷ fetched log
fetched (resolving d p ui ∷ log) = fetched log
fetched (sent r ∷ log) = fetched log
fetched (closed ∷ log) = fetched log

pub fetched-append : (xs ys : List Effect) → fetched (xs ++ ys) ≡ fetched xs ++ fetched ys
fetched-append [] ys = refl
fetched-append (hit_item_fetched i ∷ xs) ys = rw (fetched-append xs ys)
fetched-append (resolving d p ui ∷ xs) ys = fetched-append xs ys
fetched-append (sent r ∷ xs) ys = fetched-append xs ys
fetched-append (closed ∷ xs) ys = fetched-append xs ys

-- How many lines of a row the state has behind it.
abbrev pub phase : State → ℕ
phase state_unkown = 0
phase state_found = 1
phase state_skip1 = 2
phase state_skip2 = 3
phase state_target = 4
phase state_name = 5
phase state_skip4 = 5
phase state_skip5 = 6
phase state_author = 7
phase state_hits = 8
phase state_replys = 9
phase state_time = 10

pub record SameRows (t u : TianyaList) : Type 0 where
  pub hits : u.hits ≡ t.hits
  pub replys : u.replys ≡ t.replys
  pub signals : fetched u.log ≡ fetched t.log
  pub reached : t.state ≢ state_skip4 → u.state ≢ state_skip4
  pub advance : phase u.state ≤ suc (phase t.state)

pub data Change (t u : TianyaList) : Type 0 where
  same : SameRows t u → Change t u
  added : (i : ListInfo) → u ≡ add_item i t → t.state ≡ state_time → Change t u

-- The object that a round of the loop leaves behind.
abbrev pub turn_self : Turn → TianyaList
turn_self (stays p) = p.self
turn_self (leaves t) = t
turn_self (throws t) = t

next_page-SameRows :
    (b : Boost) (url : Text) (t u : TianyaList) → SameRows t u → SameRows t (next_page b url u)
unfolding next_page
next_page-SameRows b url t u s = record {
  hits = s.hits;
  replys = s.replys;
  signals = fetched-append u.log _ ∙ append-nil (fetched u.log) ∙ s.signals;
  reached = λ r e. cc;
  advance = omega arith;
}

-- A round that leaves the rows alone: the object with other scratch fields and a state reached.
keep :
    (t : TianyaList) (s : State) (i : ListInfo)
    → (t.state ≢ state_skip4 → s ≢ state_skip4)
    → phase s ≤ suc (phase t.state)
    → SameRows t (record t { state = s; info = i })
keep t s i r a = record { hits = refl; replys = refl; signals = refl; reached = r; advance = a }

mark_found-SameRows :
    (html : Text) (p : Page)
    → p.self.state ≡ state_unkown
    → SameRows p.self (mark_found html p).self
unfolding mark_found
mark_found-SameRows html p e = elim (Bool-cases (contains facered html)) [
  | inl f ↦ rw f (keep p.self state_found p.self.info (λ r x. cc) (ground arith))
  | inr f ↦ rw f (keep p.self p.self.state p.self.info (λ r x. cc) (omega arith))
]

on_unkown-SameRows :
    (b : Boost) (raw html : Text) (p : Page)
    → p.self.state ≡ state_unkown
    → SameRows p.self (turn_self (on_unkown b raw html p))
unfolding on_unkown
on_unkown-SameRows b raw html p e = elim (Bool-cases (contains (codes "meta charset=") html)) [
  | inl f ↦ rw f (keep p.self p.self.state p.self.info (λ r x. cc) (omega arith))
  | inr f ↦ rw f (elim (Bool-cases (contains (codes "下一页") html)) [
    | inr g ↦ rw g (mark_found-SameRows html p e)
    | inl g ↦ rw g (elim (Option-cases (first_quoted html)) [
      | inl h ↦ rw h (mark_found-SameRows html p e)
      | inr (path, h) ↦ rw h (next_page-SameRows b _ p.self _ (mark_found-SameRows html p e))
    ])
  ])
]

on_target-SameRows :
    (b : Boost) (html : Text) (p : Page)
    → p.self.state ≡ state_target
    → SameRows p.self (on_target b html p).self
unfolding on_target
on_target-SameRows b html p e = elim (Option-cases (first_quoted html)) [
  | inl h ↦ rw (h, on_target) (keep p.self state_unkown p.self.info (λ r x. cc) (omega arith))
  | inr (path, h) ↦ rw (h, on_target) (keep p.self state_name _ (λ r x. cc) (ground arith))
]

on_name-SameRows :
    (b : Boost) (html : Text) (p : Page)
    → p.self.state ≡ state_name
    → SameRows p.self (on_name b html p).self
unfolding on_name
on_name-SameRows b html p e =
    elim (Bool-cases (contains (codes "</a") (b.trim (strip_tags b html)))) [
      | inl h ↦ rw h (keep p.self state_skip5 _ (λ r x. cc) (ground arith))
      | inr h ↦ rw h (keep p.self p.self.state _ (λ r x. cc) (omega arith))
    ]

dispatch-Change :
    (b : Boost) (s : State) (raw html : Text) (p : Page)
    → p.self.state ≡ s
    → Change p.self (turn_self (dispatch b s raw html p))
unfolding dispatch
dispatch-Change b state_unkown raw html p e = same (on_unkown-SameRows b raw html p e)
dispatch-Change b state_found raw html p e =
    same (keep p.self state_skip1 _ (λ r x. cc) (ground arith))
dispatch-Change b state_skip1 raw html p e =
    same (keep p.self state_skip2 _ (λ r x. cc) (ground arith))
dispatch-Change b state_skip2 raw html p e =
    same (keep p.self state_target _ (λ r x. cc) (ground arith))
dispatch-Change b state_target raw html p e = same (on_target-SameRows b html p e)
dispatch-Change b state_name raw html p e = same (on_name-SameRows b html p e)
dispatch-Change b state_skip4 raw html p e =
    same (keep p.self state_skip5 _ (λ r x. cc) (ground arith))
dispatch-Change b state_skip5 raw html p e =
    same (keep p.self state_author _ (λ r x. cc) (ground arith))
dispatch-Change b state_author raw html p e =
    same (keep p.self state_hits _ (λ r x. cc) (ground arith))
dispatch-Change b state_hits raw html p e =
    same (keep p.self state_replys _ (λ r x. cc) (ground arith))
dispatch-Change b state_replys raw html p e =
    same (keep p.self state_time _ (λ r x. cc) (ground arith))
dispatch-Change b state_time raw html p e = added _ refl e

-- One line leaves the rows as they were, or adds one row in the state that completes it.
pub handle_line-Change :
    (b : Boost) (raw : Text) (p : Page) → Change p.self (turn_self (handle_line b raw p))
unfolding handle_line
handle_line-Change b raw p = elim (Option-cases (ansi_wide b raw p.chareset)) [
  | inl e ↦
      rw (e, handle_line, turn_self)
        (same (keep p.self p.self.state p.self.info (λ r. r) (omega arith)))
  | inr (html, e) ↦ rw (e, handle_line, turn_self) (dispatch-Change b p.self.state raw html p refl)
]
