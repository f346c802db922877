-- ===== src/Server/Relay/Queues.antt =====
-- The queue of a connection.
use rdoc_squad_link_lite.Base.{
  ℕ, ◌≤◌, ◌≡◌, refl, List, [], ◌∷◌, ◌++◌, ltb, arith, if◌then◌else◌, length, length-append, take,
  take_all, Bool-cases, inl, inr, sym, ap, ◌∙◌,
}
use rdoc_squad_link_lite.Base.Bytes.{take-append}
use mathlib.Core.List.{append-nil, append_assoc}
use rdoc_squad_link_lite.Protocol.ToClient.{ServerMsg}
use rdoc_squad_link_lite.Server.Relay.{Send, try_send, deliver, peer_chan}
use rdoc_squad_link_lite.Server.Relay.Greeting.{received}

-- The first messages that still fit.
abbrev fitting : List ServerMsg → List ServerMsg → List ServerMsg
fitting queue [] = queue
fitting queue (m ∷ ms) =
    fitting (if ltb (length queue) peer_chan then queue ++ m ∷ [] else queue) ms

deliver_one :
    (queues : ℕ → List ServerMsg) (sends : List Send) (c : ℕ)
    → deliver queues sends c ≡ fitting (queues c) (received c sends)
unfolding deliver received try_send
deliver_one queues [] c = refl
deliver_one queues ((tx, msg) ∷ sends) c =
    ground (arith, deliver_one (try_send queues (tx, msg)) sends c)

fitting-take :
    (queue ms : List ServerMsg)
    → length queue ≤ peer_chan
    → fitting queue ms ≡ take peer_chan (queue ++ ms)
fitting-take queue [] h = rw (append-nil queue) (sym (take_all peer_chan queue h))
fitting-take queue (m ∷ ms) h = elim (Bool-cases (ltb (length queue) peer_chan)) [
  | inl free ↦
      let next = fitting-take (queue ++ m ∷ []) ms (ground (arith, length-append queue (m ∷ []))) in
      rw free (next ∙ ap (take peer_chan) (append_assoc queue (m ∷ []) ms))
  | inr full ↦
      let n : length queue ≡ peer_chan = ground arith in
      rw full (
        fitting-take queue ms h
        ∙ take-append peer_chan queue ms n
        ∙ sym (take-append peer_chan queue (m ∷ ms) n))
]

-- A queue of at most peer_chan messages takes what is sent to it, in order, until it holds
-- peer_chan, and drops the rest.
pub deliver-take :
    (queues : ℕ → List ServerMsg) (sends : List Send) (c : ℕ)
    → length (queues c) ≤ peer_chan
    → deliver queues sends c ≡ take peer_chan (queues c ++ received c sends)
deliver-take queues sends c h =
    deliver_one queues sends c ∙ fitting-take (queues c) (received c sends) h
