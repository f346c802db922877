-- ===== src/Server/Brokering/ClientIp.antt =====
-- Whose address a request counts for.
use rdoc_squad_link_lite.Base.{
  ℕ, ◌≤◌, ◌≡◌, refl, Bool, true, not, List, [], ◌∷◌, ◌++◌, Str, ◌==◌, all, arith, length,
}
use rdoc_squad_link_lite.Server.Brokering.{split, onto_first}

pub onto_first-++ :
    (c : ℕ) (xs ys : List Str) → 1 ≤ length xs → onto_first c (xs ++ ys) ≡ onto_first c xs ++ ys
onto_first-++ c [] ys h = ground arith
onto_first-++ c (s ∷ xs) ys h = refl

length-onto_first : (c : ℕ) (xs : List Str) → 1 ≤ length (onto_first c xs)
length-onto_first c [] = omega arith
length-onto_first c (s ∷ xs) = omega arith

pub length-split : (sep : ℕ) (s : Str) → 1 ≤ length (split sep s)
unfolding split
length-split sep [] = omega arith
length-split sep (c ∷ s) = ground (arith, length-onto_first c (split sep s))

-- The text has no separator.
abbrev pub free_of : ℕ → Str → Bool
free_of sep s = all (λ c. not (c == sep)) s

pub split-free_of : (sep : ℕ) (s : Str) → free_of sep s ≡ true → split sep s ≡ s ∷ []
unfolding split
split-free_of sep [] h = refl
split-free_of sep (c ∷ s) h = ground (arith, split-free_of sep s)
