-- ===== src/Engine/Loop/Tick/Rebuilt.antt =====
-- That the tick rebuilds the links that are down.
use rdoc_squad_link_lite.Base.{
  ℕ, ◌+◌, ◌≤◌, ◌≡◌, refl, Bool, true, false, List, [], ◌∷◌, ◌++◌, subst, sym, ◌∙◌, not, ◌&&◌, some,
  is_some, values, if◌then◌else◌, Option, Str, str_eq, str_eq_sound, str_eq_iff, get, any, All,
  arith, Bool-cases, inl, inr,
}
use rdoc_squad_link_lite.Protocol.ToServer
use rdoc_squad_link_lite.Mesh.{Mesh, PeerConn, Effect, signal}
use rdoc_squad_link_lite.Mesh.Links.{Webrtc, relink, negotiating}
use rdoc_squad_link_lite.Mesh.Links.Steps.{Works}
use rdoc_squad_link_lite.Mesh.Links.Rebuilding.{rebuild-Offers}
use rdoc_squad_link_lite.Engine.Member.{Member, Members}
use rdoc_squad_link_lite.Engine.Watchdog.{link_retry_answerer, keyless_warn_due}
use rdoc_squad_link_lite.Engine.Loop.{Config, Turn, Loop, Output, on_mesh, mesh_out}
use rdoc_squad_link_lite.Engine.Loop.Tick.{
  retries, tried_at, watched, watch, to_retry, relink_each, on_tick, to_warn, warnings_of,
  keyless_text,
}
use rdoc_squad_link_lite.Engine.Loop.Signals.{log}
use rdoc_squad_link_lite.Crypto.RoomAudio.{generation}
use rdoc_squad_link_lite.Engine.Loop.Tick.Retries.{retries_due, watched_waits}

-- Whether an offer for the peer goes out.
abbrev pub offers_to : Str → Output → Bool
offers_to id (on_mesh (signal (ToServer.offer to sdp))) = str_eq to id
offers_to id _ = false

any-++_left :
    {A : Type 0} (p : A → Bool) (xs ys : List A) → any p xs ≡ true → any p (xs ++ ys) ≡ true
any-++_left p [] ys h = absurd (ground (arith, h))
any-++_left p (x ∷ xs) ys h = ground (arith, any-++_left p xs ys)

any-++_right :
    {A : Type 0} (p : A → Bool) (xs ys : List A) → any p ys ≡ true → any p (xs ++ ys) ≡ true
any-++_right p [] ys h = h
any-++_right p (x ∷ xs) ys h = ground (arith, any-++_right p xs ys h)

mesh_out-++_left :
    (p : Output → Bool) (xs ys : List Effect)
    → any p (mesh_out xs) ≡ true
    → any p (mesh_out (xs ++ ys)) ≡ true
mesh_out-++_left p [] ys h = absurd (ground (arith, h))
mesh_out-++_left p (x ∷ xs) ys h = ground (arith, mesh_out-++_left p xs ys)

mesh_out-++_right :
    (p : Output → Bool) (xs ys : List Effect)
    → any p (mesh_out ys) ≡ true
    → any p (mesh_out (xs ++ ys)) ≡ true
mesh_out-++_right p [] ys h = h
mesh_out-++_right p (x ∷ xs) ys h = ground (arith, mesh_out-++_right p xs ys h)

relink-offers_to :
    (w : Webrtc) (m : Mesh) (peer id : Str)
    → Works w
    → str_eq peer id ≡ true
    → negotiating w (get peer m.peers) ≡ false
    → any (offers_to id) (mesh_out (relink w m peer).effects) ≡ true
unfolding relink
relink-offers_to w m peer id works same free =
    let (m', sdp, closed, made, others) = rebuild-Offers w works m peer in
    rw (free, relink, made) (mesh_out-++_right (offers_to id) closed _ (ground (arith, same)))

relink-others :
    (w : Webrtc) (m : Mesh) (peer id : Str)
    → Works w
    → str_eq peer id ≡ false
    → get id (relink w m peer).mesh.peers ≡ get id m.peers
unfolding relink
relink-others w m peer id works other =
    let (m', sdp, closed, made, others) = rebuild-Offers w works m peer in
    elim (Bool-cases (negotiating w (get peer m.peers))) [
      | inl busy ↦ rw (busy, relink) refl
      | inr free ↦ rw (free, relink, made) (others id other)
    ]

abbrev among : Str → List Str → Bool
among id ids = any (λ i. str_eq i id) ids

relink_each-offers_to :
    (w : Webrtc) (m : Mesh) (ids : List Str) (id : Str)
    → Works w
    → negotiating w (get id m.peers) ≡ false
    → among id ids ≡ true
    → any (offers_to id) (mesh_out (relink_each w m ids).1) ≡ true
unfolding relink_each
relink_each-offers_to w m [] id works free h = absurd (ground (arith, h))
relink_each-offers_to w m (x ∷ ids) id works free h = elim (Bool-cases (str_eq x id)) [
  | inl same ↦
      let free' =
        subst (λ y. negotiating w (get y m.peers) ≡ false) (sym (str_eq_sound x id same)) free in
      mesh_out-++_left (offers_to id) (relink w m x).effects _
        (relink-offers_to w m x id works same free')
  | inr other ↦ mesh_out-++_right (offers_to id) (relink w m x).effects _ (
      relink_each-offers_to w (relink w m x).mesh ids id works
        (subst (λ c. negotiating w c ≡ false) (sym (relink-others w m x id works other)) free)
        (ground (arith, h, other)))
]

relink_each-others :
    (w : Webrtc) (m : Mesh) (ids : List Str) (id : Str)
    → Works w
    → among id ids ≡ false
    → get id (relink_each w m ids).0.peers ≡ get id m.peers
unfolding relink_each
relink_each-others w m [] id works h = refl
relink_each-others w m (x ∷ ids) id works h =
    relink_each-others w (relink w m x).mesh ids id works (ground (arith, h))
    ∙ relink-others w m x id works (ground (arith, h))

to_retry-among :
    (me : Str) (now : ℕ) (members : Members) (id : Str) (m : Member)
    → get id members ≡ some m
    → retries me now id m ≡ true
    → among id (to_retry me now members) ≡ true
unfolding to_retry get
to_retry-among me now [] id m there h = absurd (ground (arith, there))
to_retry-among me now ((j, v) ∷ members) id m there h = elim (Bool-cases (str_eq j id)) [
  | inl same ↦
      let v_same : some v ≡ some m = ground (arith, there, same) in
      let due : retries me now j v ≡ true = ground (arith, str_eq_sound j id same, v_same, h) in
      rw due (ground (arith, same))
  | inr other ↦
      let rest = to_retry-among me now members id m (ground (arith, there, other)) h in
      elim (Bool-cases (retries me now j v)) [
        | inl due ↦ rw due (ground (arith, rest))
        | inr not_due ↦ rw not_due rest
      ]
]

get-watch :
    (me : Str) (now : ℕ) (members : Members) (id : Str) (m : Member)
    → get id members ≡ some m
    → get id (watch me now members) ≡ some (watched me now id m)
unfolding watch get
get-watch me now [] id m there = absurd (ground (arith, there))
get-watch me now ((j, v) ∷ members) id m there =
    ground (arith, str_eq_iff j id, there, get-watch me now members id m)

on_tick-offers_to :
    (cfg : Config) (t : Turn) (l : Loop) (id : Str)
    → Works t.webrtc
    → negotiating t.webrtc (get id l.mesh.peers) ≡ false
    → among id (to_retry cfg.user_id t.now l.members) ≡ true
    → any (offers_to id) (on_tick cfg t l).out ≡ true
unfolding on_tick
on_tick-offers_to cfg t l id works free due =
    let keyless =
      not (is_some (generation l.keys.room)) && any (λ m. m.secure) (values l.members) in
    let warned = (keyless_warn_due keyless l.keyless t.now).1 in
    let retry = to_retry cfg.user_id t.now l.members in
    let (mesh, effects) = relink_each t.webrtc l.mesh retry in
    let warnings = warnings_of mesh (to_warn t.now l.members) in
    any-++_right (offers_to id) (if warned then log keyless_text ∷ [] else [])
      (mesh_out effects ++ warnings)
      (any-++_left (offers_to id) (mesh_out effects) warnings
        (relink_each-offers_to t.webrtc l.mesh retry id works free due))

on_tick-members :
    (cfg : Config) (t : Turn) (l : Loop) (id : Str) (m : Member)
    → get id l.members ≡ some m
    → get id (on_tick cfg t l).loop.members ≡ some (watched cfg.user_id t.now id m)
unfolding on_tick
on_tick-members cfg t l id m there = get-watch cfg.user_id t.now l.members id m there

on_tick-mesh :
    (cfg : Config) (t : Turn) (l : Loop) (id : Str)
    → Works t.webrtc
    → among id (to_retry cfg.user_id t.now l.members) ≡ false
    → get id (on_tick cfg t l).loop.mesh.peers ≡ get id l.mesh.peers
unfolding on_tick
on_tick-mesh cfg t l id works not_due =
    relink_each-others t.webrtc l.mesh (to_retry cfg.user_id t.now l.members) id works not_due

-- What a series of ticks puts out.
unfoldable pub ticks : Config → List Turn → Loop → List Output
ticks cfg [] l = []
ticks cfg (t ∷ ts) l = let s = on_tick cfg t l in s.out ++ ticks cfg ts s.loop

-- The calls of an offer succeed, and the connection, if there is one, is not being negotiated.
abbrev pub CanRebuild : Option PeerConn → Turn → Type 0
CanRebuild conn t = Works t.webrtc × (negotiating t.webrtc conn ≡ false)

-- A link has been down, and was last rebuilt, since before `start`. Of a series of ticks, the last of
-- which comes 24 seconds after `start` or later, one sends an offer to the peer, whichever side we are.
-- During the ticks nothing else happens, the calls that an offer needs succeed, and the connection
-- that there is, if there is one, is not being negotiated.
pub ticks-offers_to :
    (cfg : Config) (l : Loop) (id : Str) (m : Member) (start since : ℕ) (between : List Turn)
    (last : Turn)
    → get id l.members ≡ some m
    → m.linked ≡ false
    → m.down_since ≡ some since
    → since ≤ start
    → tried_at since m.last_relink ≤ start
    → start + link_retry_answerer ≤ last.now
    → All (CanRebuild (get id l.mesh.peers)) (between ++ last ∷ [])
    → any (offers_to id) (ticks cfg (between ++ last ∷ []) l) ≡ true
unfolding ticks
ticks-offers_to cfg l id m start since [] last there down at_since s r h can =
    let due =
      to_retry-among cfg.user_id last.now l.members id m there
        (retries_due cfg.user_id id m last.now since down at_since (omega arith) (omega arith)) in
    any-++_left (offers_to id) (on_tick cfg last l).out []
      (on_tick-offers_to cfg last l id can.0.0 can.0.1 due)
ticks-offers_to cfg l id m start since (t ∷ between) last there down at_since s r h can =
    let next = (on_tick cfg t l).loop in
    elim (Bool-cases (among id (to_retry cfg.user_id t.now l.members))) [
      | inl due ↦
          any-++_left (offers_to id) (on_tick cfg t l).out (ticks cfg (between ++ last ∷ []) next)
            (on_tick-offers_to cfg t l id can.0.0 can.0.1 due)
      | inr not_due ↦
          let waits : retries cfg.user_id t.now id m ≡ false =
            ground (arith, not_due, to_retry-among cfg.user_id t.now l.members id m there) in
          let (down', since', tried) =
            watched_waits cfg.user_id id m since t.now down at_since waits in
          let m' = watched cfg.user_id t.now id m in
          let r' : tried_at since m'.last_relink ≤ start =
            subst (λ o. tried_at since o ≤ start) (sym tried) r in
          let same = on_tick-mesh cfg t l id can.0.0 not_due in
          any-++_right (offers_to id) (on_tick cfg t l).out (ticks cfg (between ++ last ∷ []) next)
            (ticks-offers_to cfg next id m' start since between last
              (on_tick-members cfg t l id m there) down' since' s r' h
              (subst (λ c. All (CanRebuild c) (between ++ last ∷ [])) (sym same) can.1))
    ]
