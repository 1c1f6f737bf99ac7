-- ===== src/TianyaModel/Order.antt =====
-- The order of the rows by their hits.
use tianya.Prelude.{ℤ, ◌≤ℤ◌, ltb_ℤ, List, [], ◌∷◌, arith, inl, inr, Bool-cases}
use tianya.TianyaList.Info.{ListInfo}
use tianya.TianyaModel.{TianyaModel, insert_point, insert_at, is_repeated, update_tianya_list}

-- The first of the rows, if there is one, has at most so many hits.
abbrev pub AtMost : ℤ → List ListInfo → Type 0
AtMost h [] = Unit
AtMost h (a ∷ rows) = a.hits ≤ℤ h

-- Hits never rise from one row to the next.
abbrev pub IsDescending : List ListInfo → Type 0
IsDescending [] = Unit
IsDescending (a ∷ rows) = AtMost a.hits rows × IsDescending rows

insert_at-AtMost :
    (h : ℤ) (info : ListInfo) (rows : List ListInfo)
    → AtMost h rows
    → info.hits ≤ℤ h
    → AtMost h (insert_at (insert_point info.hits rows) info rows)
unfolding insert_at insert_point
insert_at-AtMost h info [] a l = l
insert_at-AtMost h info (r ∷ rows) a l = ground arith

insert_at-IsDescending :
    (info : ListInfo) (rows : List ListInfo)
    → IsDescending rows
    → IsDescending (insert_at (insert_point info.hits rows) info rows)
unfolding insert_at insert_point
insert_at-IsDescending info [] d = (tt, tt)
insert_at-IsDescending info (r ∷ rows) (a, d) = elim (Bool-cases (ltb_ℤ r.hits info.hits)) [
  | inl less ↦ rw less (ground arith, (a, d))
  | inr more ↦
      rw more
        (insert_at-AtMost r.hits info rows a (ground arith), insert_at-IsDescending info rows d)
]

-- Adding a post to a table whose rows descend by hits gives a table whose rows descend by hits.
pub update_tianya_list-IsDescending :
    (info : ListInfo) (m : TianyaModel)
    → IsDescending m.list_info
    → IsDescending (update_tianya_list info m).0.list_info
unfolding update_tianya_list
update_tianya_list-IsDescending info m d = elim (Bool-cases (is_repeated info m.list_info)) [
  | inl r ↦ rw r d
  | inr n ↦ rw n (insert_at-IsDescending info m.list_info d)
]
