-- ===== src/Sessions/Store.antt =====
-- The session map under `create`, `join_at` and `reap`.
use rdoc_squad_link_lite.Base.{
  ℕ, ◌≡◌, refl, Bool, List, [], ◌∷◌, arith, Str, if◌then◌else◌, any, lit, Option, none, some, Dict,
  get, insert, get-insert, str_eq, str_eq_iff, str_eq_refl, Distinct, ◌++◌, not, inl, inr, false,
  Option-cases, contains_key,
}
use rdoc_squad_link_lite.ConstantTime.{ct_eq_refl}
use rdoc_squad_link_lite.Sessions.{
  Session, JoinResult, joined, not_found, guess, join_at, create, fresh_code, new_session, rand_pin,
  sweep, reap,
}

abbrev pub answer : Option Session → Str → ℕ → JoinResult
answer none pin t = not_found
answer (some s) pin t = (guess s pin t).1

abbrev pub guessed : Option Session → Str → ℕ → Option Session
guessed none pin t = none
guessed (some s) pin t = some (guess s pin t).0

-- `join_at` answers as `guess` does at the session that the code names, or that there is none; it
-- changes that session as `guess` does, leaves all the others as they are, and makes none.
pub join_at_lem :
    (map : Dict Session) (code pin : Str) (t : ℕ) (j : Str)
    → ((join_at map code pin t).1 ≡ answer (get code map) pin t)
      × (get j (join_at map code pin t).0
          ≡ (if str_eq code j then guessed (get code map) pin t else get j map))
unfolding join_at
join_at_lem map code pin t j = elim (Option-cases (get code map)) [
  | inl e ↦ (rw (e, join_at), ground (arith, str_eq_iff code j))
  | inr (s, e) ↦ (rw (e, join_at), ground (arith, get-insert code j (guess s pin t).0 map))
]

abbrev pub is_free : Dict Session → Str → Bool
is_free map code = not (contains_key code map)

pub fresh_code-none :
    (map : Dict Session) (draws : List Str)
    → fresh_code map draws ≡ none
    → any (is_free map) draws ≡ false
unfolding fresh_code
fresh_code-none map [] h = refl
fresh_code-none map (c ∷ draws) h = ground (arith, fresh_code-none map draws)

fresh_code-some :
    (map : Dict Session) (draws : List Str) (code : Str)
    → fresh_code map draws ≡ some code
    → get code map ≡ none
unfolding fresh_code
fresh_code-some map [] code h = cc
fresh_code-some map (c ∷ draws) code h = ground (arith, fresh_code-some map draws code)

pub join_at-new_session :
    (map : Dict Session) (code pin room : Str) (token : Option Str) (t u : ℕ)
    → (join_at (insert code (new_session room token pin t) map) code pin u).1 ≡ joined room token
unfolding join_at guess
join_at-new_session map code pin room token t u = ground (
  arith,
  get-insert code code (new_session room token pin t) map,
  str_eq_refl code,
  ct_eq_refl pin,
)

-- What `create` promises: only where every code drawn is taken it does not return. Else the code is
-- new, and whoever has the code and the PIN joins the room with its token, at any time `u`; another
-- code `j` is as before.
abbrev pub Creates :
    (Str → Option Str)
    → Str
    → List Str
    → Dict Session
    → ℕ
    → Str
    → Option ((Str × Str × Str × Option Str) × Dict Session)
    → Type 0
Creates token_for hex draws map u j none = any (is_free map) draws ≡ false
Creates token_for hex draws map u j (some ((code, pin, room, token), map')) =
    ((join_at map' code pin u).1 ≡ joined room token)
    × (room ≡ lit "squad-" ++ hex)
    × (token ≡ token_for room)
    × (get code map ≡ none)
    × (get j map' ≡ (if str_eq code j then get code map' else get j map))

-- A created session can be joined with what `create` returned, and creating it disturbs no other
-- session; with a free code among those drawn `create` returns.
pub create-Creates :
    (token_for : Str → Option Str) (hex : Str) (n : ℕ) (draws : List Str) (t : ℕ)
    (map : Dict Session) (u : ℕ) (j : Str)
    → Creates token_for hex draws map u j (create token_for hex n draws t map)
unfolding create
create-Creates token_for hex n draws t map u j = elim (Option-cases (fresh_code map draws)) [
  | inl e ↦ rw (e, create) (fresh_code-none map draws e)
  | inr (code, e) ↦
      let room = lit "squad-" ++ hex in
      let s = new_session room (token_for room) (rand_pin n) t in
      rw (e, create)
        (
          join_at-new_session map code (rand_pin n) room (token_for room) t u,
          refl,
          refl,
          fresh_code-some map draws code e,
          ground (arith, get-insert code j s map, get-insert code code s map, str_eq_iff code j),
        )
]

reap_absent :
    (p : Str → Bool) (n : ℕ) (m : Dict Session) (k : Str)
    → get k m ≡ none
    → get k (reap p n m) ≡ none
unfolding reap get
reap_absent p n [] k h = refl
reap_absent p n ((c, s) ∷ m) k h = ground (arith, reap_absent p n m k)

abbrev swept : (Str → Bool) → ℕ → Option Session → Option Session
swept p n none = none
swept p n (some s) = sweep p n s

-- The sweep decides on each session by itself: what a code names after it is what `sweep` makes of
-- what it named before.
pub get-reap :
    (p : Str → Bool) (n : ℕ) (m : Dict Session) (k : Str)
    → Distinct m
    → get k (reap p n m) ≡ swept p n (get k m)
unfolding reap get
get-reap p n [] k d = refl
get-reap p n ((c, s) ∷ m) k d =
    ground (arith, get-reap p n m k d.1, reap_absent p n m k, str_eq_iff c k)
