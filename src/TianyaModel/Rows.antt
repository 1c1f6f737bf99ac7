-- ===== src/TianyaModel/Rows.antt =====
-- What the views are told and what they then read.
use tianya.Prelude.{
  ℕ, zero, suc, ◌≤◌, ◌<◌, ◌≡◌, refl, ap, ℤ, pos, negsuc, ltb, Bool, true, false, none, some, List,
  [], ◌∷◌, arith, inl, inr, Bool-cases, Option-cases, length, get_elem?, if◌then◌else◌,
}
use tianya.TianyaList.Info.{ListInfo}
use tianya.TianyaModel.{
  TianyaModel, Signal, begin_insert_rows, end_insert_rows, insert_point, insert_at, is_repeated,
  update_tianya_list, Role, invalid, model_data, row_data, row_count,
}

pub insert_point-le : (rows : List ListInfo) (hits : ℤ) → insert_point hits rows ≤ length rows
unfolding insert_point
insert_point-le [] hits = omega arith
insert_point-le (a ∷ rows) hits = ground (arith, insert_point-le rows hits)

length-insert_at :
    (rows : List ListInfo) (n : ℕ) (a : ListInfo) → length (insert_at n a rows) ≡ suc (length rows)
unfolding insert_at
length-insert_at rows zero a = refl
length-insert_at [] (suc n) a = refl
length-insert_at (b ∷ rows) (suc n) a = ap suc (length-insert_at rows n a)

-- Where row `i` of the old table stands once a row has been put in at `n`.
abbrev pub moved : ℕ → ℕ → ℕ
moved n i = if ltb i n then i else suc i

pub get_elem?-insert_at_self :
    (rows : List ListInfo) (n : ℕ) (a : ListInfo)
    → n ≤ length rows
    → get_elem? (insert_at n a rows) n ≡ some a
unfolding insert_at
get_elem?-insert_at_self rows zero a h = refl
get_elem?-insert_at_self [] (suc n) a h = absurd (omega arith)
get_elem?-insert_at_self (b ∷ rows) (suc n) a h = get_elem?-insert_at_self rows n a (omega arith)

pub get_elem?-insert_at-moved :
    (rows : List ListInfo) (n i : ℕ) (a : ListInfo)
    → n ≤ length rows
    → get_elem? (insert_at n a rows) (moved n i) ≡ get_elem? rows i
unfolding insert_at
get_elem?-insert_at-moved rows zero i a h = ground arith
get_elem?-insert_at-moved [] (suc n) i a h = absurd (omega arith)
get_elem?-insert_at-moved (b ∷ rows) (suc n) zero a h = ground arith
get_elem?-insert_at-moved (b ∷ rows) (suc n) (suc i) a h =
    ground (arith, get_elem?-insert_at-moved rows n i a (omega arith))

-- What a new post does to the table: nothing, with no signal, or one row more at the announced place.
pub data Updated (a : ListInfo) (m n : TianyaModel) (signals : List Signal) : Type 0 where
  kept : n ≡ m → signals ≡ [] → Updated a m n signals
  added :
      (offset : ℕ)
      → signals ≡ begin_insert_rows offset offset ∷ end_insert_rows ∷ []
      → offset ≤ length m.list_info
      → row_count false n ≡ suc (row_count false m)
      → get_elem? n.list_info offset ≡ some a
      → ((i : ℕ) → get_elem? n.list_info (moved offset i) ≡ get_elem? m.list_info i)
      → Updated a m n signals

-- A new post either leaves the table as it was and sends no signal, or the table has exactly one row
-- more, which is the post and stands at the row that the pair of signals announces, and each old row
-- stands where it stood, or one further down if it was at or below that place.
pub update_tianya_list-Updated :
    (a : ListInfo) (m : TianyaModel)
    → Updated a m (update_tianya_list a m).0 (update_tianya_list a m).1
unfolding update_tianya_list row_count
update_tianya_list-Updated a m = elim (Bool-cases (is_repeated a m.list_info)) [
  | inl r ↦ rw r (kept refl refl)
  | inr n ↦ rw n (
      added (insert_point a.hits m.list_info) refl (insert_point-le m.list_info a.hits)
        (length-insert_at m.list_info _ a)
        (get_elem?-insert_at_self m.list_info _ a (insert_point-le m.list_info a.hits))
        (λ i. get_elem?-insert_at-moved m.list_info _ i a (insert_point-le m.list_info a.hits)))
]

pub get_elem?-lt :
    (rows : List ListInfo) (n : ℕ) → n < length rows → (a : ListInfo) × (get_elem? rows n ≡ some a)
get_elem?-lt [] n h = absurd (omega arith)
get_elem?-lt (b ∷ rows) zero h = (b, refl)
get_elem?-lt (b ∷ rows) (suc n) h = get_elem?-lt rows n (omega arith)

get_elem?-ge : (rows : List ListInfo) (n : ℕ) → length rows ≤ n → get_elem? rows n ≡ none
get_elem?-ge [] n h = refl
get_elem?-ge (b ∷ rows) zero h = absurd (omega arith)
get_elem?-ge (b ∷ rows) (suc n) h = get_elem?-ge rows n (omega arith)

-- The views read every cell of the table and nothing else: for a row from 0 up to the row count,
-- with no parent, the data is that of the row which stands there, in every column and role; for a
-- row at or past the count, a row below zero, or an index with a parent, no role gives a value.
pub model_data-row_count :
    (m : TianyaModel) (column : ℤ) (role : Role)
    → ((n : ℕ)
        → n < row_count false m
        → (a : ListInfo) × (get_elem? m.list_info n ≡ some a)
          × (model_data m (record { row = pos n; column = column; has_parent = false }) role
              ≡ row_data a column role))
      × ((n : ℕ)
          → row_count false m ≤ n
          → (p : Bool)
          → model_data m (record { row = pos n; column = column; has_parent = p }) role ≡ invalid)
      × ((n : ℕ) (p : Bool)
          → model_data m (record { row = negsuc n; column = column; has_parent = p }) role
            ≡ invalid)
      × ((row : ℤ)
          → model_data m (record { row = row; column = column; has_parent = true }) role ≡ invalid)
unfolding model_data row_count
model_data-row_count m column role = (
  λ n h. let (a, e) = get_elem?-lt m.list_info n h in (a, e, rw (e, model_data)),
  λ n h p. rw (get_elem?-ge m.list_info n h, model_data),
  λ n p. refl,
  with_parent,
)
  where
    with_parent :
        (row : ℤ)
        → model_data m (record { row = row; column = column; has_parent = true }) role ≡ invalid
    with_parent (pos n) = elim (Option-cases (get_elem? m.list_info n)) [
      | inl e ↦ rw (e, model_data)
      | inr (a, e) ↦ rw (e, model_data)
    ]
    with_parent (negsuc n) = refl
