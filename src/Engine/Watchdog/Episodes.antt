-- ===== src/Engine/Watchdog/Episodes.antt =====
-- When the warnings of the watchdog come.
use rdoc_squad_link_lite.Base.{
  ℕ, ◌+◌, ◌≤◌, ◌≡◌, ◌≢◌, refl, true, ◌&&◌, ◌||◌, List, [], ◌∷◌, Str, str_lt_total, str_lt_asym, leb,
  arith, if◌then◌else◌,
}
use rdoc_squad_link_lite.Engine.Watchdog.{
  Keyless, keyless_warn_due, relink_due, link_retry_offerer, link_retry_answerer,
}

-- How many warnings come of ticks without a key.
pub warnings : Keyless → List ℕ → ℕ
warnings k [] = 0
warnings k (now ∷ ticks) =
    let (k', due) = keyless_warn_due true k now in (if due then 1 else 0) + warnings k' ticks

warned_once : (k : Keyless) (ticks : List ℕ) → k.warned ≡ true → warnings k ticks ≡ 0
unfolding warnings keyless_warn_due
warned_once k [] h = refl
warned_once k (now ∷ ticks) h = ground (arith, warned_once (keyless_warn_due true k now).0 ticks)

-- An outage warns at most once, whatever the ticks and whatever was before.
pub warnings-le : (k : Keyless) (ticks : List ℕ) → warnings k ticks ≤ 1
unfolding warnings keyless_warn_due
warnings-le k [] = omega arith
warnings-le k (now ∷ ticks) =
    let k' = (keyless_warn_due true k now).0 in
    ground (arith, warned_once k' ticks, warnings-le k' ticks)

-- Of two peers with different ids that see the link down for the same time, none since the last
-- try, exactly one tries again where it has been down for link_retry_offerer but not yet for
-- link_retry_answerer, and both from then on.
pub relink_due_lem :
    (a b : Str) (down : ℕ)
    → a ≢ b
    → ((relink_due a b down down && relink_due b a down down) ≡ leb link_retry_answerer down)
      × ((relink_due a b down down || relink_due b a down down) ≡ leb link_retry_offerer down)
unfolding relink_due
relink_due_lem a b down h = ground (arith, str_lt_total a b, str_lt_asym a b)
