-- ===== src/TianyaList/Multimap.antt =====
-- std::multimap<int, list_info>, the type of m_hits and m_replys: entries in the order of their keys,
-- and a new one behind those with the same key.
use tianya.Prelude.{
  suc, ◌≡◌, refl, ℤ, ◌≤ℤ◌, ltb_ℤ, List, [], ◌∷◌, if◌then◌else◌, arith, inl, inr, Bool-cases, length,
  map,
}
use mathlib.Core.List.{Perm}
use mathlib.Core.List.Perm
use tianya.TianyaList.Info.{ListInfo}

abbrev pub OrderedInfo : Type 0
OrderedInfo = List (ℤ × ListInfo)

unfoldable pub insert : ℤ → ListInfo → OrderedInfo → OrderedInfo
insert k v [] = (k, v) ∷ []
insert k v ((j, w) ∷ m) = if ltb_ℤ k j then (k, v) ∷ (j, w) ∷ m else (j, w) ∷ insert k v m

-- The first entry, if there is one, has at least the key.
abbrev pub AtLeast : ℤ → OrderedInfo → Type 0
AtLeast k [] = Unit
AtLeast k ((j, w) ∷ m) = k ≤ℤ j

abbrev pub IsSorted : OrderedInfo → Type 0
IsSorted [] = Unit
IsSorted ((j, w) ∷ m) = AtLeast j m × IsSorted m

abbrev pub values : OrderedInfo → List ListInfo
values = map (λ e. e.1)

insert-AtLeast :
    (j k : ℤ) (v : ListInfo) (m : OrderedInfo) → AtLeast j m → j ≤ℤ k → AtLeast j (insert k v m)
unfolding insert
insert-AtLeast j k v [] a h = h
insert-AtLeast j k v ((i, w) ∷ m) a h = ground arith

pub insert-IsSorted :
    (k : ℤ) (v : ListInfo) (m : OrderedInfo) → IsSorted m → IsSorted (insert k v m)
unfolding insert
insert-IsSorted k v [] s = (tt, tt)
insert-IsSorted k v ((j, w) ∷ m) (a, s) = elim (Bool-cases (ltb_ℤ k j)) [
  | inl less ↦ rw less (ground arith, (a, s))
  | inr more ↦ rw more (insert-AtLeast j k v m a (ground arith), insert-IsSorted k v m s)
]

pub values-insert :
    (k : ℤ) (v : ListInfo) (m : OrderedInfo) → Perm (values (insert k v m)) (v ∷ values m)
unfolding insert
values-insert k v [] = Perm.refl (v ∷ [])
values-insert k v ((j, w) ∷ m) = elim (Bool-cases (ltb_ℤ k j)) [
  | inl less ↦ rw less (Perm.refl (v ∷ w ∷ values m))
  | inr more ↦ rw more (Perm.trans (Perm.cons w (values-insert k v m)) (Perm.swap v w (values m)))
]

pub length-insert :
    (k : ℤ) (v : ListInfo) (m : OrderedInfo) → length (insert k v m) ≡ suc (length m)
unfolding insert
length-insert k v [] = refl
length-insert k v ((j, w) ∷ m) = ground (arith, length-insert k v m)
