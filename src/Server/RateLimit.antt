-- ===== src/Server/RateLimit.antt =====
-- server/init/src/main.rs: `RateLimiter`, a fixed window per address. The clock is an argument.
pub mod Windows
pub mod Pruning
use rdoc_squad_link_lite.Base.{
  ℕ, ◌+◌, ◌-◌, Bool, true, false, List, [], ◌∷◌, Option, none, some, Str, leb, ltb, if◌then◌else◌,
  Dict, get, insert, wrapping_add_u32,
}

abbrev pub rl_window : ℕ
rl_window = 300

abbrev pub rl_join_max : ℕ
rl_join_max = 30

abbrev pub rl_create_max : ℕ
rl_create_max = 20

-- The start of the address's window, and how often it asked since.
abbrev pub Entry : Type 0
Entry = ℕ × ℕ

abbrev pub entry_or_insert : ℕ → Option Entry → Entry
entry_or_insert now none = (now, 0)
entry_or_insert now (some e) = e

-- `allow` on the entry of the address.
unfoldable pub count : ℕ → ℕ → ℕ → Entry → Entry × Bool
count now max window e =
    let (start, n) = if leb window (now - e.0) then (now, 0) else e in
    let n' = wrapping_add_u32 n 1 in ((start, n'), leb n' max)

unfoldable pub allow : ℕ → Str → ℕ → ℕ → Dict Entry → Dict Entry × Bool
allow now ip max window m =
    let (e, allowed) = count now max window (entry_or_insert now (get ip m)) in
    (insert ip e m, allowed)

unfoldable pub prune : ℕ → ℕ → Dict Entry → Dict Entry
prune now window [] = []
prune now window ((ip, e) ∷ m) =
    let rest = prune now window m in if ltb (now - e.0) window then (ip, e) ∷ rest else rest
