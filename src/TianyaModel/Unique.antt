-- ===== src/TianyaModel/Unique.antt =====
-- How often a post's address stands in the table: the test for repeated posts, and where it misses.
use tianya.Prelude.{
  ℕ, zero, suc, ◌≤◌, ◌<◌, ◌≡◌, refl, true, false, List, [], ◌∷◌, arith, length, if◌then◌else◌,
}
use tianya.Text.{Text, equal, equal_iff}
use tianya.TianyaList.Info.{ListInfo}
use tianya.TianyaModel.{
  TianyaModel, insert_point, has_url, last_has_url, insert_at, is_repeated, update_tianya_list,
}

-- How many rows have the address.
abbrev pub count_url : Text → List ListInfo → ℕ
count_url url [] = 0
count_url url (a ∷ rows) =
    if equal a.post_url url then suc (count_url url rows) else count_url url rows

pub has_url-count_url :
    (url : Text) (rows : List ListInfo) → has_url url rows ≡ false → count_url url rows ≡ 0
unfolding has_url
has_url-count_url url [] h = refl
has_url-count_url url (a ∷ rows) h = ground (arith, has_url-count_url url rows)

count_url-insert_at :
    (url : Text) (n : ℕ) (a : ListInfo) (rows : List ListInfo)
    → count_url url (insert_at n a rows) ≡ count_url url (a ∷ rows)
unfolding insert_at
count_url-insert_at url zero a rows = refl
count_url-insert_at url (suc n) a [] = refl
count_url-insert_at url (suc n) a (b ∷ rows) = ground (arith, count_url-insert_at url n a rows)

equal_self : (s : Text) → equal s s ≡ true
equal_self s = (equal_iff s s).1 refl

-- A post that the test lets through, and that does not go to the end, has a new address.
not_repeated :
    (a : ListInfo) (rows : List ListInfo) (url : Text)
    → insert_point a.hits rows < length rows
    → is_repeated a rows ≡ false
    → equal a.post_url url ≡ true
    → count_url url rows ≡ 0
unfolding is_repeated
not_repeated a rows url before n same =
    ground (arith, has_url-count_url a.post_url rows, (equal_iff a.post_url url).0 same)

-- A post that has more hits than some row never doubles an address: if no address stands in the
-- table twice, none does afterwards.
pub update_tianya_list-count_url :
    (a : ListInfo) (m : TianyaModel)
    → insert_point a.hits m.list_info < length m.list_info
    → ((url : Text) → count_url url m.list_info ≤ 1)
    → (url : Text) → count_url url (update_tianya_list a m).0.list_info ≤ 1
unfolding update_tianya_list
update_tianya_list-count_url a m before once url = ground (
  arith,
  once url,
  not_repeated a m.list_info url,
  count_url-insert_at url (insert_point a.hits m.list_info) a m.list_info,
)

-- The test misses repeats at the end: a post with no more hits than any row, whose address stands in
-- the table but not in its last row, is added again, and its address then stands there once more.
pub update_tianya_list_repeats :
    (a : ListInfo) (m : TianyaModel)
    → insert_point a.hits m.list_info ≡ length m.list_info
    → last_has_url a.post_url m.list_info ≡ false
    → count_url a.post_url (update_tianya_list a m).0.list_info
      ≡ suc (count_url a.post_url m.list_info)
unfolding update_tianya_list is_repeated
update_tianya_list_repeats a m atend last = ground (
  arith,
  count_url-insert_at a.post_url (insert_point a.hits m.list_info) a m.list_info,
  equal_self a.post_url,
)
