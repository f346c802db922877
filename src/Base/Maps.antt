-- ===== src/Base/Maps.antt =====
-- `HashMap<String, V>` as an association list: `get`, `insert`, `remove`, `contains_key`, `retain`.
-- The order of the entries stands for the unspecified order of iteration.
use Prim.Native.Nat.{suc, ◌≤◌}
use mathlib.Core.Path.{◌≡◌, refl, subst}
use mathlib.Core.Bool.{Bool, true}
use mathlib.Core.Logic.{inl, inr}
use mathlib.Core.Option.{Option, none, some}
use mathlib.Core.List.{List, [], ◌∷◌, map}
use native.Mathlib.Omega.{arith}
use rdoc_squad_link_lite.Base.Tests.{if◌then◌else◌, is_some, Bool-cases}
use rdoc_squad_link_lite.Base.Lists.{length, All}
use rdoc_squad_link_lite.Base.Text.{Str, str_eq, str_eq_iff}

abbrev pub Dict {ℓ} : Type ℓ → Type ℓ
Dict V = List (Str × V)

module _ {ℓ} {V : Type ℓ} where
  unfoldable pub get : Str → Dict V → Option V
  get k [] = none
  get k ((j, v) ∷ m) = if str_eq j k then some v else get k m

  unfoldable pub remove : Str → Dict V → Dict V
  remove k [] = []
  remove k ((j, v) ∷ m) = let rest = remove k m in if str_eq j k then rest else (j, v) ∷ rest

  unfoldable pub insert : Str → V → Dict V → Dict V
  insert k v m = (k, v) ∷ remove k m

  abbrev pub contains_key : Str → Dict V → Bool
  contains_key k m = is_some (get k m)

  abbrev pub values : Dict V → List V
  values = map (λ e. e.1)

  abbrev pub keys : Dict V → List Str
  keys = map (λ e. e.0)

  pub get-remove :
      (k j : Str) (m : Dict V) → get j (remove k m) ≡ (if str_eq k j then none else get j m)
  unfolding get remove
  get-remove k j [] = ground arith
  get-remove k j ((i, v) ∷ m) =
      ground (arith, get-remove k j m, str_eq_iff i k, str_eq_iff i j, str_eq_iff k j)

  pub get-insert :
      (k j : Str) (v : V) (m : Dict V)
      → get j (insert k v m) ≡ (if str_eq k j then some v else get j m)
  unfolding get insert
  get-insert k j v m = ground (arith, get-remove k j m)

  pub get-remove_same : (k : Str) (m : Dict V) → get k (remove k m) ≡ none
  get-remove_same k m = ground (arith, get-remove k k m, str_eq_iff k k)

  pub get-insert_same : (k : Str) (v : V) (m : Dict V) → get k (insert k v m) ≡ some v
  get-insert_same k v m = ground (arith, get-insert k k v m, str_eq_iff k k)

  pub length-remove-le : (k : Str) (m : Dict V) → length (remove k m) ≤ length m
  unfolding remove
  length-remove-le k [] = omega arith
  length-remove-le k ((j, v) ∷ m) = ground (arith, length-remove-le k m)

  -- Removing a key that is there makes the dictionary smaller.
  pub length-remove_present :
      (k : Str) (m : Dict V) → contains_key k m ≡ true → suc (length (remove k m)) ≤ length m
  unfolding get remove
  length-remove_present k [] h = ground arith
  length-remove_present k ((j, v) ∷ m) h =
      ground (arith, length-remove_present k m, length-remove-le k m)

  pub remove_absent : (k : Str) (m : Dict V) → get k m ≡ none → remove k m ≡ m
  unfolding get remove
  remove_absent k [] h = refl
  remove_absent k ((j, v) ∷ m) h = ground (arith, remove_absent k m)

  -- No key stands twice.
  abbrev pub Distinct : Dict V → Type ℓ
  Distinct [] = Unit
  Distinct ((k, v) ∷ m) = (get k m ≡ none) × Distinct m

  pub remove-Distinct : (k : Str) (m : Dict V) → Distinct m → Distinct (remove k m)
  unfolding remove
  remove-Distinct k [] h = tt
  remove-Distinct k ((j, v) ∷ m) h = ground (arith, remove-Distinct k m h.1, get-remove k j m)

  pub insert-Distinct : (k : Str) (v : V) (m : Dict V) → Distinct m → Distinct (insert k v m)
  unfolding insert
  insert-Distinct k v m h =
      (ground (arith, get-remove k k m, str_eq_iff k k), remove-Distinct k m h)

  -- What holds of each entry of a dictionary.
  module _ {ℓ'} (P : Str × V → Type ℓ') where
    pub remove-All : (k : Str) (m : Dict V) → All P m → All P (remove k m)
    unfolding remove
    remove-All k [] h = tt
    remove-All k ((j, v) ∷ m) h = elim (Bool-cases (str_eq j k)) [
      | inl e ↦ rw (e, remove) (remove-All k m h.1)
      | inr e ↦ rw (e, remove) (h.0, remove-All k m h.1)
    ]

    pub insert-All : (k : Str) (v : V) (m : Dict V) → P (k, v) → All P m → All P (insert k v m)
    unfolding insert
    insert-All k v m p h = (p, remove-All k m h)

    pub get-All : (k : Str) (v : V) (m : Dict V) → All P m → get k m ≡ some v → P (k, v)
    unfolding get
    get-All k v [] h e = cc
    get-All k v ((j, w) ∷ m) h e = elim (Bool-cases (str_eq j k)) [
      | inl q ↦
          let same : ◌≡◌ {A = Str × V} (j, w) (k, v) = ground (arith, str_eq_iff j k) in
          subst P same h.0
      | inr q ↦ let later : get k m ≡ some v = ground arith in get-All k v m h.1 later
    ]
