-- ===== src/Server/Tests.antt =====
-- The server at concrete inputs.
use rdoc_squad_link_lite.Base.{ℕ, ◌≡◌, ◌↔◌, ◌++◌, true, [], ◌∷◌, Option, none, some, Str, lit}
use rdoc_squad_link_lite.Protocol.ToServer.{join}
use rdoc_squad_link_lite.Server.Auth.{
  AuthConfig, accepted, open_auth, from_values, check, token_for, check-token_for,
}
use rdoc_squad_link_lite.Server.Relay.{AppState, Socket, PeerHandle}
use rdoc_squad_link_lite.Server.Relay.Join.{Config}
use rdoc_squad_link_lite.Server.Relay.Frames.{Parsed, parsed, on_text}
use rdoc_squad_link_lite.Server.Relay.Invariant.{start, frame, IsValid, Reachable-IsValid}
use rdoc_squad_link_lite.Server.Relay.Holders.{Kept, holder, on_text-Kept}

abbrev toy_mac : Str → Str → Str
toy_mac key msg = key ++ msg

check-token_for_example :
    (cfg : AuthConfig) × (from_values (some (lit "s")) none ≡ accepted cfg)
    × ((check toy_mac cfg (lit "squad") (some (lit "ssquad")) ≡ true)
        ↔ (◌≡◌ {A = Option Str} (some (lit "ssquad")) (token_for toy_mac cfg (lit "squad"))))
check-token_for_example = check-token_for toy_mac 115 [] none (lit "squad") (some (lit "ssquad"))

abbrev config : Config
config = record { auth = open_auth; turn_config = none; hmac_hex = toy_mac; hmac_base64 = toy_mac }

abbrev joins : Str → Parsed
joins text = parsed (join 2 (lit "squad") text (lit "Ann") none (lit "secret"))

abbrev socket : ℕ → Socket
socket tx = record { tx = tx; me = none; win_start = 0; win_count = 0 }

abbrev empty : AppState
empty = record { rooms = []; rekeys = [] }

abbrev two_joined : AppState
two_joined =
    (on_text config joins 0 (on_text config joins 0 empty (socket 1) 0 (lit "a")).state (socket 2) 5
      (lit "b")).state

Reachable-IsValid_example : IsValid two_joined
Reachable-IsValid_example = Reachable-IsValid config joins two_joined (
    frame (on_text config joins 0 empty (socket 1) 0 (lit "a")).state (socket 2) 0 5 (lit "b")
      (frame empty (socket 1) 0 0 (lit "a") start))

abbrev of_ann : PeerHandle
of_ann = record { name = lit "Ann"; tx = 1; secret = lit "other" }

abbrev ann_alone : AppState
ann_alone = record { rooms = (lit "squad", (lit "a", of_ann) ∷ []) ∷ []; rekeys = [] }

-- A stranger asks for the id that Ann has.
on_text-Kept_example :
    Kept 2 (holder ann_alone (lit "squad") (lit "a")) (
      holder
        (on_text config joins 0 ann_alone (socket 2) 0 (lit "a")).state
        (lit "squad")
        (lit "a"))
on_text-Kept_example =
    on_text-Kept config joins 0 ann_alone (socket 2) 0 (lit "a") (lit "squad") (lit "a")
