-- ===== src/Crypto/Tests.antt =====
-- The sessions and the room key at concrete inputs, over primitives that meet the promises.
use rdoc_squad_link_lite.Base.{
  ℕ, ◌+◌, ◌≡◌, ◌≢◌, refl, ap, true, List, [], ◌∷◌, ◌++◌, none, some, Str, str_lt, str_eq,
  str_eq_iff, lit, length, drop, arith,
}
use rdoc_squad_link_lite.Base.Bytes.{drop-append, from_be_bytes}
use rdoc_squad_link_lite.Crypto.Primitives.{Primitives, IsSound}
use rdoc_squad_link_lite.Crypto.Replay.{replay_ok}
use rdoc_squad_link_lite.Crypto.Session.{Session, audio, chat, Kind, open_frame}
use rdoc_squad_link_lite.Crypto.Session.Frames.{
  Paired, open_all, seal_all, open_all-seal_all, open_frame_twice, after_frames, replay_ok-start,
}
use rdoc_squad_link_lite.Crypto.PeerCrypto.{PeerCrypto, is_initiator}
use rdoc_squad_link_lite.Crypto.PeerCrypto.Glare.{Establishes, handshake-Establishes}
use rdoc_squad_link_lite.Crypto.RoomAudio.{
  RoomAudio, RoomKey, new, seal_outbound, open_inbound, stage,
}
use rdoc_squad_link_lite.Crypto.RoomAudio.Staging.{stage_all, stage_all-Perm}
use rdoc_squad_link_lite.Crypto.RoomAudio.Rekey.{two_rekeys}
use mathlib.Core.List.Permᴰ.{swap}

abbrev toy : Primitives
toy = record {
  sha256 = λ m. m;
  hkdf = λ salt ikm info n. info;
  encrypt = λ key nonce aad msg. key ++ msg;
  decrypt = λ key nonce aad ct. some (drop (length key) ct);
  kem_generate = λ seed. (seed, []);
  ek_size = 0;
  ct_size = 0;
  encapsulate = λ ek coins. some ([], lit "shared");
  decapsulate = λ dk ct. some (lit "shared");
  x_public = λ a. [];
  x_shared = λ a b. b;
}

toy-IsSound : IsSound toy
toy-IsSound = record {
  decrypt-encrypt = λ key nonce aad msg. ap some (drop-append (length key) key msg refl);
  ek-size = λ seed. refl;
  encapsulates = λ seed coins. (([], lit "shared"), refl, refl, refl);
  x_shared_comm = λ a b. refl;
}

abbrev left : Session
left = record {
  send_key = lit "k1";
  recv_key = lit "k2";
  send_prefix = lit "p1";
  recv_prefix = lit "p2";
  send_ctr = 0;
  replay = record { recv_max = 0; recv_window = 0 };
  fp = lit "fp";
}

abbrev right : Session
right = record {
  send_key = lit "k2";
  recv_key = lit "k1";
  send_prefix = lit "p2";
  recv_prefix = lit "p1";
  send_ctr = 0;
  replay = record { recv_max = 0; recv_window = 0 };
  fp = lit "fp";
}

left-Paired : Paired left right
left-Paired = record { key = refl; prefix = refl; fresh = λ c _. replay_ok-start c }

abbrev messages : List (Kind × Str)
messages = (chat, lit "hi") ∷ (audio, lit "opus") ∷ []

open_all-seal_all_example :
    open_all toy right (seal_all toy left messages) ≡ some (lit "hi") ∷ some (lit "opus") ∷ []
open_all-seal_all_example =
    open_all-seal_all toy toy-IsSound left right messages (omega arith) left-Paired

abbrev frame : Str
frame = 0 ∷ 0 ∷ 0 ∷ 0 ∷ 0 ∷ 0 ∷ 0 ∷ 5 ∷ lit "k1hi"

opens_once : (open_frame toy right chat frame).1 ≡ some (lit "hi")
unfolding open_frame from_be_bytes replay_ok
opens_once = refl

open_frame_twice_example :
    (open_frame toy (after_frames toy (open_frame toy right chat frame).0 []) audio frame).1 ≡ none
open_frame_twice_example = open_frame_twice toy right chat audio frame (lit "hi") [] opens_once

abbrev node_a : PeerCrypto
node_a = record { my_id = lit "a"; sessions = []; pending = [] }

abbrev node_b : PeerCrypto
node_b = record { my_id = lit "b"; sessions = []; pending = [] }

a_begins : is_initiator node_a (lit "b") ≡ true
unfolding str_lt
a_begins = refl

a_not_b : ◌≢◌ {A = Str} (lit "a") (lit "b")
unfolding str_eq
a_not_b e = cc ((str_eq_iff (lit "a") (lit "b")).1 e)

handshake-Establishes_example :
    Establishes toy node_a node_b (lit "s") (lit "xa") (lit "c") (lit "xb")
handshake-Establishes_example =
    handshake-Establishes toy toy-IsSound node_a node_b (lit "s") (lit "xa") (lit "c") (lit "xb")
      a_begins

abbrev key_1 : RoomKey
key_1 = record { gen = 1; auth = lit "b"; key = lit "1b" }

abbrev key_1a : RoomKey
key_1a = record { gen = 1; auth = lit "a"; key = lit "1a" }

abbrev key_2 : RoomKey
key_2 = record { gen = 2; auth = lit "a"; key = lit "2a" }

abbrev mint : ℕ → Str → Str
mint gen auth = (b'0' + gen) ∷ auth

abbrev keyed : RoomAudio
keyed = record { send = some key_1; cur = some key_1; prev = [] }

stage_all-Perm_example :
    (stage_all new (key_1 ∷ key_1a ∷ [])).cur ≡ (stage_all new (key_1a ∷ key_1 ∷ [])).cur
stage_all-Perm_example =
    stage_all-Perm mint new (swap {a = key_1} {b = key_1a} {l = []} refl refl) (refl, (refl, tt))

two_rekeys_example :
    (frame : Str) × (seal_outbound toy (lit "twelve bytes") keyed (lit "u") (lit "x") ≡ some frame)
    × (open_inbound toy (stage (stage keyed key_2).0 (record key_2 { gen = 3 })).0 (lit "u") frame
        ≡ some (lit "x"))
two_rekeys_example =
    two_rekeys toy toy-IsSound keyed keyed key_1 key_2 (record key_2 { gen = 3 })
      (lit "twelve bytes") (lit "u") (lit "x") refl refl (omega arith) (omega arith) (omega arith)
      refl
