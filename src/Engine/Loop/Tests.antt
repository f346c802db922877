-- ===== src/Engine/Loop/Tests.antt =====
-- The loop at concrete inputs.
use rdoc_squad_link_lite.Base.{
  any, get, ℕ, ◌+◌, max, ◌≤◌, ◌≡◌, refl, true, false, ◌&&◌, List, [], ◌∷◌, map, none, some, lit,
  leb, if◌then◌else◌, length, take, arith, str_lt, str_eq, remove,
}
use rdoc_squad_link_lite.Protocol.ToClient
use rdoc_squad_link_lite.Crypto.Primitives.{Primitives}
use rdoc_squad_link_lite.Engine.Member
use rdoc_squad_link_lite.Engine.Member.{Member, Members}
use rdoc_squad_link_lite.Engine.Messages
use rdoc_squad_link_lite.Engine.Messages.{Participant}
use rdoc_squad_link_lite.Engine.Channels.{
  Unicode, canon_channel, max_tombstones, channel_in_use, tombstone_allowed,
}
use rdoc_squad_link_lite.Engine.Authority.{am_authority}
use rdoc_squad_link_lite.Engine.Watchdog.{secs, relink_due}
use rdoc_squad_link_lite.Mesh.Codec.{Codec}
use rdoc_squad_link_lite.Mesh.Links.{Webrtc}
use rdoc_squad_link_lite.Engine.Loop.{Config, Libraries, Turn, Loop, start}
use rdoc_squad_link_lite.Engine.Loop.Signals.{on_peer_left}
use rdoc_squad_link_lite.Engine.Loop.Signals.Departures.{Forgotten, on_peer_left-Forgotten}
use rdoc_squad_link_lite.Engine.Loop.Events.{on_event, on_peer_channel_removed, set_insert, strike}
use rdoc_squad_link_lite.Engine.Loop.Commands.Tombstones.{on_event-max_tombstones}
use rdoc_squad_link_lite.Engine.Loop.Tick.{retries, watched}
use rdoc_squad_link_lite.Engine.Loop.Tick.Retries.{retries-watched}
use rdoc_squad_link_lite.Engine.Loop.Tick.Rebuilt.{offers_to, ticks, ticks-offers_to}
use rdoc_squad_link_lite.Mesh.Links.Steps.{Works}
use rdoc_squad_link_lite.Engine.Loop.Turns.{Arm, run, lost, attempt, signal, event, cmd}
use rdoc_squad_link_lite.Engine.Loop.Unchanged.{view}
use rdoc_squad_link_lite.Engine.Loop.Invariant.{IsConsistent}
use rdoc_squad_link_lite.Engine.Loop.Reachable.{run-start-IsConsistent}

abbrev crypto : Primitives
crypto = record {
  sha256 = λ m. m;
  hkdf = λ salt ikm info n. info;
  encrypt = λ key nonce aad msg. msg;
  decrypt = λ key nonce aad ct. some ct;
  kem_generate = λ seed. (seed, []);
  ek_size = 0;
  ct_size = 0;
  encapsulate = λ ek coins. some ([], []);
  decapsulate = λ dk ct. some [];
  x_public = λ a. [];
  x_shared = λ a b. [];
}

abbrev codec : Codec
codec = record {
  to_json = λ m. [];
  from_json = λ s. none;
  encode = λ b. b;
  decode = λ b. some b;
  count_chars = length;
  take_chars = take;
}

-- Of ASCII without blanks at the ends.
abbrev ascii : Unicode
ascii = record {
  trim = λ s. s;
  to_lowercase = map (λ c. if leb 65 c && leb c 90 then c + 32 else c);
}

abbrev libraries : Libraries
libraries = record { crypto = crypto; codec = codec; unicode = ascii }

abbrev webrtc : Webrtc
webrtc = record {
  new_peer_connection = λ peer. some 9;
  add_track = λ pc. true;
  create_data_channel = λ pc. some 1;
  create_offer = λ pc. some [];
  create_answer = λ pc. some [];
  set_local_description = λ pc sdp. true;
  set_remote_description = λ pc sdp. true;
  new_or_connecting = λ pc. false;
  have_local_offer = λ pc. false;
  is_candidate = λ s. true;
  trim_start = λ s. s;
}

abbrev config : Config
config = record {
  room = lit "squad";
  user_id = lit "alice";
  name = lit "Alice";
  token = none;
  secret = lit "secret";
  relay_enabled = false;
}

abbrev at : ℕ → Turn
at now = record { now = now; fresh = lit "fresh"; webrtc = webrtc }

-- Bob comes, somebody announces channels, one is removed, and the server goes away and comes back.
abbrev turns : List (Turn × Arm)
turns =
    (at 0, signal (ToClient.roster (record { user_id = lit "bob"; name = lit "Bob" } ∷ [])))
    ∷ (at 1, event (Messages.peer_channels (lit "Alpha" ∷ lit "Bravo" ∷ [])))
    ∷ (at 2, cmd 0 (Messages.remove_channel (lit "alpha")))
    ∷ (at 3, lost)
    ∷ (at (secs 9), attempt (some (lit "refused")))
    ∷ (at (secs 99), attempt none)
    ∷ []

run-start-IsConsistent_example :
    IsConsistent ascii (view (run config libraries (start config) turns))
unfolding canon_channel
run-start-IsConsistent_example = run-start-IsConsistent config libraries turns refl

abbrev with_bob : Loop
with_bob = record (start config) {
  members = (lit "bob", Member.new (lit "Bob") (lit "Funk 1") false 0) ∷ [];
}

on_peer_left-Forgotten_example :
    Forgotten config libraries
      (at 5)
      (lit "bob")
      with_bob
      (on_peer_left config libraries (at 5) with_bob (lit "bob")).loop
unfolding remove str_eq am_authority
on_peer_left-Forgotten_example =
    on_peer_left-Forgotten config libraries (at 5) with_bob (lit "bob") (omega arith) (omega arith)
      refl

abbrev with_bravo : Loop
with_bravo = record (start config) { known_channels = lit "Funk 1" ∷ lit "Bravo" ∷ [] }

-- A channel of the directory that nobody is in: it is kept as removed.
bravo_is_kept :
    (on_event config libraries
      (at 5)
      with_bravo
      (Messages.peer_channel_removed (lit "Bravo"))).loop.removed_channels
    ≡ lit "bravo" ∷ []
unfolding on_event on_peer_channel_removed canon_channel str_eq channel_in_use tombstone_allowed
    set_insert strike
bravo_is_kept = refl

on_event-max_tombstones_example :
    length
      (on_event config libraries
        (at 5)
        with_bravo
        (Messages.peer_channel_removed (lit "Bravo"))).loop.removed_channels
    ≤ max 0 max_tombstones
on_event-max_tombstones_example =
    on_event-max_tombstones config libraries (at 5) with_bravo
      (Messages.peer_channel_removed (lit "Bravo"))

abbrev silent_bob : Member
silent_bob = Member.new (lit "Bob") (lit "Funk 1") false 0

-- Bob has been silent since the start, and his first connection was never answered.
abbrev alone : Loop
alone = record with_bob { members = (lit "bob", silent_bob) ∷ [] }

webrtc-Works : Works webrtc
webrtc-Works = record {
  connects = λ peer. (9, refl, refl);
  has_channel = λ pc. (1, refl);
  offers = λ pc. ([], refl, refl);
}

ticks-offers_to_example :
    any (offers_to (lit "bob")) (ticks config (at (secs 2) ∷ at (secs 24) ∷ []) alone) ≡ true
unfolding get str_eq
ticks-offers_to_example =
    ticks-offers_to config alone (lit "bob") silent_bob 0 0 (at (secs 2) ∷ []) (at (secs 24)) refl
      refl refl (omega arith) (omega arith) (omega arith)
      ((webrtc-Works, refl), ((webrtc-Works, refl), tt))

paced_test :
    retries
      (lit "alice")
      (secs 10)
      (lit "bob")
      (watched (lit "alice") (secs 8) (lit "bob") silent_bob)
    ≡ false
unfolding relink_due str_lt
paced_test =
    retries-watched (lit "alice") (lit "bob") silent_bob (secs 8) (secs 10) refl (omega arith)
