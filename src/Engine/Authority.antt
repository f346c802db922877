-- ===== src/Engine/Authority.antt =====
-- apps/companion-core/src/lib.rs: who mints the room key, `am_authority` and `is_authority_peer`.
use rdoc_squad_link_lite.Base.{
  ◌≡◌, refl, Bool, true, false, [], ◌∷◌, ◌&&◌, ◌||◌, Str, str_lt, str_eq, get, keys, contains_key,
  all, arith, str_eq_iff, str_lt_asym, Bool-cases,
}
use rdoc_squad_link_lite.Engine.Member.{Members}

unfoldable pub am_authority : Str → Members → Bool
am_authority me members = all (λ k. str_lt me k) (keys members)

unfoldable pub is_authority_peer : Str → Str → Members → Bool
is_authority_peer from me members =
    str_lt from me && all (λ k. str_eq k from || str_lt from k) (keys members)

-- The authority is smaller than each member.
am_authority-lt :
    (me id : Str) (members : Members)
    → am_authority me members ≡ true
    → contains_key id members ≡ true
    → str_lt me id ≡ true
unfolding am_authority get
am_authority-lt me id [] h m = cc
am_authority-lt me id ((k, v) ∷ members) h m =
    ground (arith, str_eq_iff k id, am_authority-lt me id members)

-- Two nodes that have each other in their rosters are never both the authority.
pub one_authority :
    (a b : Str) (of_a of_b : Members)
    → contains_key b of_a ≡ true
    → contains_key a of_b ≡ true
    → am_authority a of_a ≡ true
    → am_authority b of_b ≡ false
one_authority a b of_a of_b ha hb h = ground (
  arith,
  Bool-cases (am_authority b of_b),
  am_authority-lt a b of_a h ha,
  am_authority-lt b a of_b,
  str_lt_asym a b,
)

-- `xs` names only `a` itself and what `a` has in its roster.
abbrev pub Covers : Str → Members → Members → Type 0
Covers a of_a [] = Unit
Covers a of_a ((k, v) ∷ members) =
    ((str_eq k a || contains_key k of_a) ≡ true) × Covers a of_a members

covered :
    (a : Str) (of_a members : Members)
    → am_authority a of_a ≡ true
    → Covers a of_a members
    → all (λ k. str_eq k a || str_lt a k) (keys members) ≡ true
covered a of_a [] h c = refl
covered a of_a ((k, v) ∷ members) h c =
    ground (arith, am_authority-lt a k of_a h, covered a of_a members h c.1)

-- A node that is the authority by its own roster is the authority for each node in it, if that node
-- knows of nobody whom the authority does not know.
pub authority_recognised :
    (a me : Str) (of_a of_me : Members)
    → am_authority a of_a ≡ true
    → contains_key me of_a ≡ true
    → Covers a of_a of_me
    → is_authority_peer a me of_me ≡ true
unfolding is_authority_peer
authority_recognised a me of_a of_me h m c =
    ground (arith, am_authority-lt a me of_a h m, covered a of_a of_me h c)
