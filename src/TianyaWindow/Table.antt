-- ===== src/TianyaWindow/Table.antt =====
-- The table of the window and the maps of the reader, over whole runs.
use mathlib.Core.List.Perm
use mathlib.Core.List.{
  Perm, Mem, mem-cons_self, mem-cons_of_mem, forall_mem-cons, not-mem-nil, Mem-prop,
}
use tianya.Prelude.{ℕ, zero, suc, ◌≡◌, refl, true, List, [], ◌∷◌, arith, inl, inr, Bool-cases, All}
use tianya.Text.{Text, equal_iff}
use tianya.Boost.{Boost}
use tianya.Util.{UrlInfo}
use tianya.TianyaList.Info.{ListInfo}
use tianya.TianyaList.Multimap.{values}
use tianya.TianyaList.Machine.{TianyaList, Effect, hit_item_fetched, resolving, sent, closed}
use tianya.TianyaList.Session.{Connection, crawl}
use tianya.TianyaList.Change.{fetched}
use tianya.TianyaList.Invariant.{IsValid, crawl-IsValid}
use tianya.TianyaModel.{
  TianyaModel, insert_point, has_url, last_has_url, insert_at, is_repeated, update_tianya_list,
}
use tianya.TianyaModel.Order.{IsDescending, update_tianya_list-IsDescending}
use tianya.TianyaWindow.{TianyaWindow, new_window, on_hit_item, adjust, follow}

last_has_url-has_url :
    (url : Text) (rows : List ListInfo) → last_has_url url rows ≡ true → has_url url rows ≡ true
unfolding last_has_url has_url
last_has_url-has_url url [] h = h
last_has_url-has_url url (a ∷ []) h = ground arith
last_has_url-has_url url (a ∷ b ∷ rows) h = ground (arith, last_has_url-has_url url (b ∷ rows))

has_url-insert_at :
    (url : Text) (n : ℕ) (a : ListInfo) (rows : List ListInfo)
    → has_url url (insert_at n a rows) ≡ has_url url (a ∷ rows)
unfolding has_url insert_at
has_url-insert_at url zero a rows = refl
has_url-insert_at url (suc n) a [] = refl
has_url-insert_at url (suc n) a (b ∷ rows) = ground (arith, has_url-insert_at url n a rows)

-- A row that is signalled has its address in the table afterwards, and no address is lost.
update_tianya_list-has_url :
    (a : ListInfo) (m : TianyaModel)
    → has_url a.post_url (update_tianya_list a m).0.list_info ≡ true
unfolding update_tianya_list is_repeated
update_tianya_list-has_url a m = ground (
  arith,
  last_has_url-has_url a.post_url m.list_info,
  has_url-insert_at a.post_url (insert_point a.hits m.list_info) a m.list_info,
  (equal_iff a.post_url a.post_url).1 refl,
)

update_tianya_list_keeps :
    (url : Text) (a : ListInfo) (m : TianyaModel)
    → has_url url m.list_info ≡ true
    → has_url url (update_tianya_list a m).0.list_info ≡ true
unfolding update_tianya_list has_url
update_tianya_list_keeps url a m h =
    ground (arith, has_url-insert_at url (insert_point a.hits m.list_info) a m.list_info)

insert_at-All :
    (P : ListInfo → Type 0) (n : ℕ) (a : ListInfo) (rows : List ListInfo)
    → P a
    → All P rows
    → All P (insert_at n a rows)
unfolding insert_at
insert_at-All P zero a rows h hs = (h, hs)
insert_at-All P (suc n) a [] h hs = (h, tt)
insert_at-All P (suc n) a (b ∷ rows) h (g, gs) = (g, insert_at-All P n a rows h gs)

-- A row of the table that is new is the one that was signalled.
update_tianya_list-All :
    (P : ListInfo → Type 0) (a : ListInfo) (m : TianyaModel)
    → P a
    → All P m.list_info
    → All P (update_tianya_list a m).0.list_info
unfolding update_tianya_list
update_tianya_list-All P a m h hs = elim (Bool-cases (is_repeated a m.list_info)) [
  | inl r ↦ rw r hs
  | inr n ↦ rw n (insert_at-All P (insert_point a.hits m.list_info) a m.list_info h hs)
]

module _ (P : ListInfo → Type 0) where
  follow-All :
      (log : List Effect) (w : TianyaWindow)
      → All P (fetched log)
      → All P w.model.list_info
      → All P (follow log w).model.list_info
  unfolding follow on_hit_item adjust
  follow-All [] w h hs = hs
  follow-All (hit_item_fetched i ∷ log) w (g, gs) hs =
      follow-All log (on_hit_item i w) gs (update_tianya_list-All P i w.model g hs)
  follow-All (resolving d p ui ∷ log) w h hs = follow-All log w h hs
  follow-All (sent r ∷ log) w h hs = follow-All log w h hs
  follow-All (closed ∷ log) w h hs = follow-All log w h hs

follow-IsDescending :
    (log : List Effect) (w : TianyaWindow)
    → IsDescending w.model.list_info
    → IsDescending (follow log w).model.list_info
unfolding follow on_hit_item adjust
follow-IsDescending [] w h = h
follow-IsDescending (hit_item_fetched i ∷ log) w h =
    follow-IsDescending log (on_hit_item i w) (update_tianya_list-IsDescending i w.model h)
follow-IsDescending (resolving d p ui ∷ log) w h = follow-IsDescending log w h
follow-IsDescending (sent r ∷ log) w h = follow-IsDescending log w h
follow-IsDescending (closed ∷ log) w h = follow-IsDescending log w h

follow_keeps :
    (url : Text) (log : List Effect) (w : TianyaWindow)
    → has_url url w.model.list_info ≡ true
    → has_url url (follow log w).model.list_info ≡ true
unfolding follow on_hit_item adjust
follow_keeps url [] w h = h
follow_keeps url (hit_item_fetched i ∷ log) w h =
    follow_keeps url log (on_hit_item i w) (update_tianya_list_keeps url i w.model h)
follow_keeps url (resolving d p ui ∷ log) w h = follow_keeps url log w h
follow_keeps url (sent r ∷ log) w h = follow_keeps url log w h
follow_keeps url (closed ∷ log) w h = follow_keeps url log w h

-- The address of a post stands in the rows.
abbrev pub IsListed : List ListInfo → ListInfo → Type 0
IsListed rows i = has_url i.post_url rows ≡ true

follow-IsListed :
    (log : List Effect) (w : TianyaWindow)
    → All (IsListed (follow log w).model.list_info) (fetched log)
unfolding follow on_hit_item adjust
follow-IsListed [] w = tt
follow-IsListed (hit_item_fetched i ∷ log) w = (
  follow_keeps i.post_url log (on_hit_item i w) (update_tianya_list-has_url i w.model),
  follow-IsListed log (on_hit_item i w),
)
follow-IsListed (resolving d p ui ∷ log) w = follow-IsListed log w
follow-IsListed (sent r ∷ log) w = follow-IsListed log w
follow-IsListed (closed ∷ log) w = follow-IsListed log w

All-elim :
    (P : ListInfo → Type 0)
    → ((x : ListInfo) → IsProp (P x))
    → (xs : List ListInfo) → All P xs
    → (x : ListInfo) → Mem x xs
    → P x
All-elim P p [] h x m = absurd (not-mem-nil m)
All-elim P p (y ∷ xs) (h, hs) x m = (forall_mem-cons p).1 (h, All-elim P p xs hs) x m

All-intro :
    (P : ListInfo → Type 0) (xs : List ListInfo) → ((x : ListInfo) → Mem x xs → P x) → All P xs
All-intro P [] f = tt
All-intro P (y ∷ ys) f = (f y mem-cons_self, All-intro P ys (λ x m. f x (mem-cons_of_mem y m)))

All-Mem : (xs : List ListInfo) → All (λ x. Mem x xs) xs
All-Mem xs = All-intro (λ x. Mem x xs) xs (λ x m. m)

-- A table that shows what a list has: sorted by hits, with every address of the list, and with rows
-- of the list only.
pub record Shows (items rows : List ListInfo) : Type 0 where
  pub descending : IsDescending rows
  pub listed : (i : ListInfo) → Mem i items → IsListed rows i
  pub taken : (r : ListInfo) → Mem r rows → Mem r items

-- The table behind a log, in terms of any list with the rows that were signalled.
pub follow-Shows :
    (log : List Effect) (items : List ListInfo)
    → Perm items (fetched log)
    → Shows items (follow log new_window).model.list_info
follow-Shows log items same =
    let rows = (follow log new_window).model.list_info in
    record {
      descending = follow-IsDescending log new_window tt;
      listed = λ i m.
          All-elim (IsListed rows) (λ x. hlevel) (fetched log) (follow-IsListed log new_window) i
            ((Perm.mem_iff same).0 m);
      taken = λ r m. (Perm.mem_iff same).1 (
          All-elim (λ x. Mem x (fetched log)) (λ x. Mem-prop) rows
            (follow-All (λ x. Mem x (fetched log)) log new_window (All-Mem (fetched log)) tt) r m);
    }

-- The window and the reader agree after every run: whatever the pages hold, however the connections
-- fail and whenever the reader is stopped, the table is sorted by hits, has the address of every post
-- in the reader's map, and has no row that is not in that map.
pub crawl-Shows :
    (b : Boost) (ui : UrlInfo) (cs : List Connection) (t : TianyaList)
    → IsValid t
    → Shows
        (values (crawl b ui cs t).hits)
        (follow (crawl b ui cs t).log new_window).model.list_info
crawl-Shows b ui cs t v =
    follow-Shows (crawl b ui cs t).log (values (crawl b ui cs t).hits)
      (crawl-IsValid b ui cs t v).hits_signalled
