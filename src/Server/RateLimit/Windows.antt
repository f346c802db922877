-- ===== src/Server/RateLimit/Windows.antt =====
-- What the limiter promises for an address.
use rdoc_squad_link_lite.Base.{
  ℕ, suc, ◌+◌, ◌-◌, ◌*◌, ◌^◌, ◌≤◌, ◌<◌, ◌≡◌, refl, Bool, ◌&&◌, List, [], ◌∷◌, Option, none, some,
  Str, str_eq, str_eq_iff, leb, arith, if◌then◌else◌, Dict, get, get-insert, All, length, subst,
  Bool-cases, inl, inr,
}
use rdoc_squad_link_lite.Server.RateLimit.{Entry, entry_or_insert, count, allow}

abbrev pub as_number : Bool → ℕ
as_number b = if b then 1 else 0

-- How many of the requests of `ip` are allowed, of requests from whatever addresses at whatever
-- times.
unfoldable pub allowed : Str → ℕ → ℕ → Dict Entry → List (ℕ × Str) → ℕ
allowed ip max window m [] = 0
allowed ip max window m ((now, who) ∷ asks) =
    let (m', answer) = allow now who max window m in
    as_number (str_eq who ip && answer) + allowed ip max window m' asks

get-allow :
    (now max window : ℕ) (who ip : Str) (m : Dict Entry)
    → get ip (allow now who max window m).0 ≡ (
        if str_eq who ip
        then some (count now max window (entry_or_insert now (get who m))).0
        else get ip m)
unfolding allow
get-allow now max window who ip m =
    get-insert who ip (count now max window (entry_or_insert now (get who m))).0 m

answer-allow :
    (now max window : ℕ) (ip : Str) (m : Dict Entry)
    → (allow now ip max window m).1 ≡ (count now max window (entry_or_insert now (get ip m))).1
unfolding allow
answer-allow now max window ip m = refl

-- What is left of the window that `e` is in, and whether the next one may begin before t0 + window.
budget : ℕ → ℕ → Option Entry → ℕ
budget max t0 none = max
budget max t0 (some (start, n)) = if leb t0 start then max - n else (max - n) + max

-- The u32 count does not overflow in so many requests.
abbrev pub Few : ℕ → Option Entry → Type 0
Few asks none = asks < 2 ^ 32
Few asks (some (start, n)) = n + asks < 2 ^ 32

count-budget :
    (t0 now max window : ℕ) (o : Option Entry) (asks : ℕ)
    → t0 ≤ now
    → now < t0 + window
    → Few (suc asks) o
    → Few asks (some (count now max window (entry_or_insert now o)).0)
      × (as_number (count now max window (entry_or_insert now o)).1
            + budget max t0 (some (count now max window (entry_or_insert now o)).0)
          ≤ budget max t0 o)
unfolding budget count
count-budget t0 now max window none asks p q h = ground arith
count-budget t0 now max window (some (start, n)) asks p q h = ground arith

abbrev pub Between : ℕ → ℕ → ℕ × Str → Type 0
Between t0 t1 ask = (t0 ≤ ask.0) × (ask.0 < t1)

Few-weaken : (n : ℕ) (o : Option Entry) → Few (suc n) o → Few n o
Few-weaken n none h = omega arith
Few-weaken n (some (start, c)) h = omega arith

allowed-budget :
    (ip : Str) (t0 max window : ℕ) (m : Dict Entry) (asks : List (ℕ × Str))
    → All (Between t0 (t0 + window)) asks
    → Few (length asks) (get ip m)
    → allowed ip max window m asks ≤ budget max t0 (get ip m)
unfolding allowed
allowed-budget ip t0 max window m [] h q = omega arith
allowed-budget ip t0 max window m ((now, who) ∷ asks) h q =
    let m' = (allow now who max window m).0 in
    elim (Bool-cases (str_eq who ip)) [
      | inl e ↦
          let same : who ≡ ip = (str_eq_iff who ip).0 e in
          let (rest_few, spent) =
            count-budget t0 now max window (get ip m) (length asks) h.0.0 h.0.1 q in
          let o : get ip m' ≡ some (count now max window (entry_or_insert now (get ip m))).0 =
            rw (get-allow now max window who ip m, e, same) refl in
          let answer : (allow now who max window m).1
              ≡ (count now max window (entry_or_insert now (get ip m))).1 =
            rw same (answer-allow now max window ip m) in
          let rest =
            subst (λ x. allowed ip max window m' asks ≤ budget max t0 x) o
              (allowed-budget ip t0 max window m' asks h.1 (rw o rest_few)) in
          rw (e, answer) (omega (arith, rest, spent))
      | inr e ↦
          let o : get ip m' ≡ get ip m = rw (get-allow now max window who ip m, e) refl in
          let rest =
            allowed-budget ip t0 max window m' asks h.1
              (rw o (Few-weaken (length asks) (get ip m) q)) in
          let rest' = subst (λ x. allowed ip max window m' asks ≤ budget max t0 x) o rest in
          rw e (omega (arith, rest'))
    ]

budget-le : (max t0 : ℕ) (o : Option Entry) → budget max t0 o ≤ 2 * max
unfolding budget
budget-le max t0 none = omega arith
budget-le max t0 (some (start, n)) = ground arith

-- Of the requests of an address in a span of `window` seconds, whatever its count at the start and
-- whatever other addresses ask, at most twice `max` are allowed, unless the u32 count overflows.
pub allowed-le :
    (ip : Str) (t0 max window : ℕ) (m : Dict Entry) (asks : List (ℕ × Str))
    → All (Between t0 (t0 + window)) asks
    → Few (length asks) (get ip m)
    → allowed ip max window m asks ≤ 2 * max
allowed-le ip t0 max window m asks h q =
    omega (arith, allowed-budget ip t0 max window m asks h q, budget-le max t0 (get ip m))
