-- ===== src/Engine/Loop/Tick/Retries.antt =====
-- When the watchdog is to rebuild a link.
use rdoc_squad_link_lite.Base.{ℕ, ◌+◌, ◌≤◌, ◌<◌, ◌≡◌, true, false, some, Str, arith, Option-cases}
use rdoc_squad_link_lite.Engine.Member.{Member}
use rdoc_squad_link_lite.Engine.Watchdog.{relink_due, link_retry_offerer, link_retry_answerer}
use rdoc_squad_link_lite.Engine.Loop.Tick.{retries, tried_at, watched}

-- A link that is to be rebuilt at one tick, and stays down, is left alone at every tick in the 8 seconds
-- after it, whichever side we are.
pub retries-watched :
    (me id : Str) (m : Member) (now later : ℕ)
    → retries me now id m ≡ true
    → later < now + link_retry_offerer
    → retries me later id (watched me now id m) ≡ false
unfolding watched relink_due
retries-watched me id m now later h lt =
    ground (arith, Option-cases m.last_relink, Option-cases m.down_since)

pub retries_due :
    (me id : Str) (m : Member) (now since : ℕ)
    → m.linked ≡ false
    → m.down_since ≡ some since
    → since + link_retry_answerer ≤ now
    → tried_at since m.last_relink + link_retry_answerer ≤ now
    → retries me now id m ≡ true
unfolding relink_due
retries_due me id m now since down at_since h k = rw (down, at_since) (ground arith)

pub watched_waits :
    (me id : Str) (m : Member) (since now : ℕ)
    → m.linked ≡ false
    → m.down_since ≡ some since
    → retries me now id m ≡ false
    → let m' = watched me now id m in
      (m'.linked ≡ false) × (m'.down_since ≡ some since) × (m'.last_relink ≡ m.last_relink)
unfolding watched
watched_waits me id m since now down at_since h = (ground arith, ground arith, ground arith)
