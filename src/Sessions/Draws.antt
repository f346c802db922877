-- ===== src/Sessions/Draws.antt =====
-- The loop of `create` ends.
use rdoc_squad_link_lite.Base.{
  ℕ, suc, ◌≤◌, ◌<◌, ◌≡◌, refl, Bool, true, false, List, [], ◌∷◌, Option, none, Str, str_eq,
  str_eq_iff, is_some, Dict, remove, get-remove, contains_key, length, length-remove_present, any,
  all, arith, if◌then◌else◌, Bool-cases, Option-cases, inl, inr,
}
use rdoc_squad_link_lite.Sessions.{Session, fresh_code, create}

-- How many different codes are drawn.
abbrev pub different : List Str → ℕ
different [] = 0
different (c ∷ cs) = if any (str_eq c) cs then different cs else suc (different cs)

abbrev taken : Dict Session → List Str → Bool
taken map draws = all (λ c. contains_key c map) draws

remove-taken :
    (map : Dict Session) (c : Str) (cs : List Str)
    → any (str_eq c) cs ≡ false
    → taken map cs ≡ true
    → taken (remove c map) cs ≡ true
remove-taken map c [] new h = refl
remove-taken map c (d ∷ cs) new h =
    ground (arith, remove-taken map c cs, get-remove c d map, str_eq_iff c d)

-- Codes that all stand in the map are no more than its entries.
taken-le :
    (map : Dict Session) (draws : List Str) → taken map draws ≡ true → different draws ≤ length map
taken-le map [] h = omega arith
taken-le map (c ∷ cs) h = elim (Bool-cases (any (str_eq c) cs)) [
  | inl e ↦ rw e (taken-le map cs (ground (arith, h)))
  | inr e ↦
      let smaller = length-remove_present c map (ground (arith, h)) in
      let rest = taken-le (remove c map) cs (remove-taken map c cs e (ground (arith, h))) in
      rw e (omega (arith, smaller, rest))
]

fresh_code-taken :
    (map : Dict Session) (draws : List Str) → fresh_code map draws ≡ none → taken map draws ≡ true
unfolding fresh_code
fresh_code-taken map [] h = refl
fresh_code-taken map (c ∷ cs) h = ground (arith, fresh_code-taken map cs)

-- `create` returns once more different codes have been drawn than there are sessions, whatever they
-- are.
pub create-returns :
    (token_for : Str → Option Str) (hex : Str) (n : ℕ) (draws : List Str) (t : ℕ)
    (map : Dict Session)
    → length map < different draws
    → is_some (create token_for hex n draws t map) ≡ true
unfolding create
create-returns token_for hex n draws t map h = elim (Option-cases (fresh_code map draws)) [
  | inl e ↦
      let bound = taken-le map draws (fresh_code-taken map draws e) in
      let no : ⊥ = omega (arith, h, bound) in elim no [ ]
  | inr (code, e) ↦ rw (e, create) refl
]
