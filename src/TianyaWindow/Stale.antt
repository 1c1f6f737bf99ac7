-- ===== src/TianyaWindow/Stale.antt =====
-- A menu that is slow to be clicked: what it opens when the table has changed behind it.
use tianya.Prelude.{
  ℕ, zero, suc, ◌≤◌, ◌<◌, pos, ◌≡◌, ◌≢◌, refl, sym, ◌∙◌, ap, false, Option, none, some, List, [],
  ◌∷◌, map, arith, inl, inr, Bool-cases, ltb, get_elem?, length,
}
use tianya.Text.{Text, equal_iff}
use tianya.TianyaList.Info.{ListInfo}
use tianya.TianyaModel.{
  TianyaModel, insert_point, insert_at, is_repeated, has_url, update_tianya_list, user_role,
  ModelIndex, model_data, row_data,
}
use tianya.TianyaModel.Rows.{
  insert_point-le, moved, get_elem?-insert_at_self, get_elem?-insert_at-moved, get_elem?-lt,
}
use tianya.TianyaWindow.Menu.{Proxy, index_data, novel_viewer, cast_info, picked, view_triggered}

-- An index of selectedRows.
abbrev pub row_index : ℕ → ModelIndex
row_index n = record { row = pos n; column = pos 0; has_parent = false }

-- The view shows the rows as the model has them.
abbrev pub IsPlain : Proxy → Type 0
IsPlain p = (m : TianyaModel) (i : ModelIndex) → p m i ≡ i

view_row :
    (p : Proxy) (m : TianyaModel) (n : ℕ) (a : ListInfo)
    → IsPlain p
    → get_elem? m.list_info n ≡ some a
    → view_triggered p m (row_index n ∷ []) ≡ novel_viewer a ∷ []
unfolding view_triggered picked index_data model_data row_data
view_row p m n a h e =
    ap
      (λ i.
        map novel_viewer
          (elim (cast_info (model_data m i (user_role 2))) [ none ↦ [] | some x ↦ x ∷ [] ]))
      (h m (row_index n))
    ∙ (rw e refl)

-- No two rows of the table have the same address.
abbrev pub IsDistinct : TianyaModel → Type 0
IsDistinct m =
    (i j : ℕ) (x y : ListInfo)
    → get_elem? m.list_info i ≡ some x
    → get_elem? m.list_info j ≡ some y
    → x.post_url ≡ y.post_url
    → i ≡ j

address_of : Option ListInfo → Text
address_of none = []
address_of (some x) = x.post_url

has_url-get_elem? :
    (u : Text) (rows : List ListInfo) (n : ℕ) (r : ListInfo)
    → get_elem? rows n ≡ some r
    → has_url u rows ≡ false
    → r.post_url ≢ u
unfolding has_url address_of
has_url-get_elem? u [] n r e h = cc
has_url-get_elem? u (a ∷ rows) zero r e h =
    λ q. let c = (equal_iff a.post_url u).1 (ap address_of e ∙ q) in ground (arith, h, c)
has_url-get_elem? u (a ∷ rows) (suc n) r e h = has_url-get_elem? u rows n r e (ground (arith, h))

get_elem?_in :
    (rows : List ListInfo) (n : ℕ) (r : ListInfo) → get_elem? rows n ≡ some r → n < length rows
get_elem?_in [] n r e = cc
get_elem?_in (a ∷ rows) zero r e = omega arith
get_elem?_in (a ∷ rows) (suc n) r e = omega (arith, get_elem?_in rows n r e)

-- The row above the one at a place stands there when another has been put in above it.
stands_above :
    (m : TianyaModel) (a r : ListInfo) (k n : ℕ)
    → k ≤ length m.list_info
    → get_elem? m.list_info n ≡ some r
    → k < n
    → IsDistinct m
    → (s : ListInfo) × (get_elem? (insert_at k a m.list_info) n ≡ some s)
      × (s.post_url ≢ r.post_url)
stands_above m a r k zero l e h d = absurd (omega arith)
stands_above m a r k (suc j) l e h d =
    let (s, es) =
      get_elem?-lt m.list_info j (omega (arith, get_elem?_in m.list_info (suc j) r e)) in
    let there : moved k j ≡ suc j = ground (arith, h) in
    (
      s,
      ap (get_elem? (insert_at k a m.list_info)) (sym there)
          ∙ get_elem?-insert_at-moved m.list_info k j a l
          ∙ es,
      λ q. absurd (omega (arith, d j (suc j) s r es e q)),
    )

-- The row that stands at a place once another has been put in at it or above it.
stands_now :
    (m : TianyaModel) (a r : ListInfo) (n : ℕ)
    → is_repeated a m.list_info ≡ false
    → get_elem? m.list_info n ≡ some r
    → insert_point a.hits m.list_info ≤ n
    → IsDistinct m
    → (s : ListInfo) × (get_elem? (insert_at (insert_point a.hits m.list_info) a m.list_info) n
        ≡ some s)
      × (s.post_url ≢ r.post_url)
unfolding is_repeated
stands_now m a r n f e k d = elim (Bool-cases (ltb (insert_point a.hits m.list_info) n)) [
  | inl c ↦
      stands_above m a r (insert_point a.hits m.list_info) n (insert_point-le m.list_info a.hits) e
        (ground (arith, c)) d
  | inr c ↦
      let same : n ≡ insert_point a.hits m.list_info = ground (arith, c, k) in
      let new : has_url a.post_url m.list_info ≡ false =
        ground (arith, f, same, get_elem?_in m.list_info n r e) in
      (
        a,
        ap (get_elem? (insert_at (insert_point a.hits m.list_info) a m.list_info)) same
            ∙ get_elem?-insert_at_self m.list_info (insert_point a.hits m.list_info) a
                (insert_point-le m.list_info a.hits),
        λ q. has_url-get_elem? a.post_url m.list_info n r e new (sym q),
      )
]

-- The menu comes up on a row, and before its entry is clicked a new post comes in at that row or above
-- it, while the view shows the rows in the order of the model and no address is repeated: what is
-- opened then is not the post that was selected, whose viewer would have been opened before, but
-- another one.
pub view_triggered_other :
    (p : Proxy) (m : TianyaModel) (a r : ListInfo) (n : ℕ)
    → IsPlain p
    → IsDistinct m
    → is_repeated a m.list_info ≡ false
    → get_elem? m.list_info n ≡ some r
    → insert_point a.hits m.list_info ≤ n
    → (view_triggered p m (row_index n ∷ []) ≡ novel_viewer r ∷ [])
      × ((s : ListInfo) × (view_triggered p (update_tianya_list a m).0 (row_index n ∷ [])
            ≡ novel_viewer s ∷ [])
          × (s.post_url ≢ r.post_url))
unfolding update_tianya_list
view_triggered_other p m a r n h d f e k =
    let (s, es, other) = stands_now m a r n f e k d in
    (view_row p m n r h e, (s, view_row p (update_tianya_list a m).0 n s h (rw f es), other))
