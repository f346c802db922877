-- ===== src/Engine/Loop/Roster.antt =====
-- The roster that the user sees.
use mathlib.Core.List.{Permᴰ}
use mathlib.Core.List.Permᴰ.{nil, cons, swap, trans}
use rdoc_squad_link_lite.Base.{
  ◌≡◌, refl, Bool, false, List, [], ◌∷◌, map, Str, str_lt, str_lt_trans, str_lt_asym, str_lt_total,
  All, Bool-cases, inl, inr, arith,
}
use rdoc_squad_link_lite.Engine.Member.{Members}
use rdoc_squad_link_lite.Engine.Messages.{Participant}
use rdoc_squad_link_lite.Engine.Loop.{Config, row, my_row, place, sort_by_name, participants}

-- The names do not fall.
abbrev pub Sorted : List Participant → Type 0
Sorted [] = Unit
Sorted (r ∷ rows) = All (λ x. str_lt x.name r.name ≡ false) rows × Sorted rows

Permᴰ-refl : (rows : List Participant) → Permᴰ rows rows
Permᴰ-refl [] = nil
Permᴰ-refl (r ∷ rows) = cons refl (Permᴰ-refl rows)

place-Permᴰ : (r : Participant) (rows : List Participant) → Permᴰ (place r rows) (r ∷ rows)
unfolding place
place-Permᴰ r [] = Permᴰ-refl (r ∷ [])
place-Permᴰ r (x ∷ rows) = elim (Bool-cases (str_lt x.name r.name)) [
  | inl e ↦ rw e (trans (cons refl (place-Permᴰ r rows)) (swap refl refl))
  | inr e ↦ rw e (Permᴰ-refl (r ∷ x ∷ rows))
]

sort_by_name-Permᴰ : (rows : List Participant) → Permᴰ (sort_by_name rows) rows
unfolding sort_by_name
sort_by_name-Permᴰ [] = nil
sort_by_name-Permᴰ (r ∷ rows) =
    trans (place-Permᴰ r (sort_by_name rows)) (cons refl (sort_by_name-Permᴰ rows))

-- Nothing in the rows is smaller than the name.
abbrev Least : Str → List Participant → Type 0
Least name rows = All (λ x. str_lt x.name name ≡ false) rows

Least-weaken :
    (a b : Str) (rows : List Participant) → str_lt b a ≡ false → Least b rows → Least a rows
Least-weaken a b [] h l = tt
Least-weaken a b (x ∷ rows) h l =
    (ground (arith, str_lt_trans x.name a b, str_lt_total a b), Least-weaken a b rows h l.1)

place-Least :
    (name : Str) (r : Participant) (rows : List Participant)
    → str_lt r.name name ≡ false
    → Least name rows
    → Least name (place r rows)
unfolding place
place-Least name r [] h l = (h, tt)
place-Least name r (x ∷ rows) h l = elim (Bool-cases (str_lt x.name r.name)) [
  | inl e ↦ rw e (l.0, place-Least name r rows h l.1)
  | inr e ↦ rw e (h, l)
]

place-Sorted : (r : Participant) (rows : List Participant) → Sorted rows → Sorted (place r rows)
unfolding place
place-Sorted r [] s = (tt, tt)
place-Sorted r (x ∷ rows) s = elim (Bool-cases (str_lt x.name r.name)) [
  | inl e ↦
      rw e (place-Least x.name r rows (str_lt_asym x.name r.name e) s.0, place-Sorted r rows s.1)
  | inr e ↦ rw e ((e, Least-weaken r.name x.name rows e s.0), s)
]

sort_by_name-Sorted : (rows : List Participant) → Sorted (sort_by_name rows)
unfolding sort_by_name
sort_by_name-Sorted [] = tt
sort_by_name-Sorted (r ∷ rows) = place-Sorted r (sort_by_name rows) (sort_by_name-Sorted rows)

-- The user's own row comes first; after it comes a row for each member, once, in the order of their
-- names.
pub participants-Sorted :
    (cfg : Config) (members : Members) (channel : Str) (transmitting : Bool)
    → (rows : List Participant) × (participants cfg members channel transmitting
        ≡ my_row cfg channel transmitting ∷ rows)
      × Permᴰ rows (map row members)
      × Sorted rows
unfolding participants
participants-Sorted cfg members channel transmitting =
    let rows = map row members in
    (sort_by_name rows, refl, sort_by_name-Permᴰ rows, sort_by_name-Sorted rows)
