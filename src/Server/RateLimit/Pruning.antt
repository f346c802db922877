-- ===== src/Server/RateLimit/Pruning.antt =====
-- The sweep of the limiter's table.
use rdoc_squad_link_lite.Base.{
  ℕ, ◌-◌, ◌≤◌, ◌≡◌, refl, [], ◌∷◌, Option, none, some, Str, str_eq_iff, ltb, arith, if◌then◌else◌,
  Dict, get, insert, Distinct,
}
use rdoc_squad_link_lite.Server.RateLimit.{Entry, entry_or_insert, count, allow, prune}

abbrev kept : ℕ → ℕ → Option Entry → Option Entry
kept now window none = none
kept now window (some e) = if ltb (now - e.0) window then some e else none

prune_absent :
    (now window : ℕ) (m : Dict Entry) (ip : Str)
    → get ip m ≡ none
    → get ip (prune now window m) ≡ none
unfolding prune get
prune_absent now window [] ip h = refl
prune_absent now window ((who, e) ∷ m) ip h = ground (arith, prune_absent now window m ip)

get-prune :
    (now window : ℕ) (m : Dict Entry) (ip : Str)
    → Distinct m
    → get ip (prune now window m) ≡ kept now window (get ip m)
unfolding prune get
get-prune now window [] ip d = refl
get-prune now window ((who, e) ∷ m) ip d =
    ground (arith, get-prune now window m ip d.1, prune_absent now window m ip, str_eq_iff who ip)

count-kept :
    (now later max window : ℕ) (o : Option Entry)
    → now ≤ later
    → count later max window (entry_or_insert later (kept now window o))
      ≡ count later max window (entry_or_insert later o)
unfolding count
count-kept now later max window none h = refl
count-kept now later max window (some (start, n)) h = ground arith

-- Pruning decides nothing: a later request is answered as if the table had not been pruned, and
-- leaves the same entry of its address, where no address stands twice in the table.
pub allow-prune :
    (now later max window : ℕ) (ip : Str) (m : Dict Entry)
    → now ≤ later
    → Distinct m
    → ((allow later ip max window (prune now window m)).1 ≡ (allow later ip max window m).1)
      × (get ip (allow later ip max window (prune now window m)).0
          ≡ get ip (allow later ip max window m).0)
unfolding allow insert get
allow-prune now later max window ip m h d =
    let same = count-kept now later max window (get ip m) h in
    let ips = (str_eq_iff ip ip).1 refl in
    (rw (get-prune now window m ip d, same) refl, rw (get-prune now window m ip d, same, ips) refl)
