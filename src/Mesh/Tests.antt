-- ===== src/Mesh/Tests.antt =====
-- The mesh at concrete inputs, over libraries that meet the promises.
use mathlib.Core.Option.{some-injective}
use mathlib.Core.List.{append-nil}
use rdoc_squad_link_lite.Base.{
  ℕ, zero, suc, ◌≤◌, ◌≡◌, refl, ap, ◌∙◌, subst, Bool, true, false, List, [], ◌∷◌, ◌++◌, map, Option,
  none, some, Str, lit, ◌==◌, if◌then◌else◌, length, take, drop, arith, All, get, str_eq, str_lt,
}
use rdoc_squad_link_lite.Base.Bytes.{drop-append, to_be_bytes}
use rdoc_squad_link_lite.Protocol.BetweenPeers
use rdoc_squad_link_lite.Protocol.BetweenPeers.{CtrlMsg, kem_hello, kem_reply, enc}
use rdoc_squad_link_lite.Crypto.Primitives.{Primitives, IsSound}
use rdoc_squad_link_lite.Crypto.Handshake.{start, respond}
use rdoc_squad_link_lite.Crypto.PeerCrypto.{PeerCrypto, on_hello}
use rdoc_squad_link_lite.Engine.Channels
use rdoc_squad_link_lite.Crypto.Session
use rdoc_squad_link_lite.Crypto.Session.{Session}
use rdoc_squad_link_lite.Crypto.Session.Frames.{replay_ok-start}
use rdoc_squad_link_lite.Mesh.{Mesh, PeerConn, new_conn, add_ice_candidate}
use rdoc_squad_link_lite.Mesh.Ice.{flush_ice, add_each}
use rdoc_squad_link_lite.Mesh.Ice.Delivery.{arrive, arrive-flush_ice}
use rdoc_squad_link_lite.Mesh.Links.{Webrtc, rekey}
use rdoc_squad_link_lite.Mesh.Links.Steps.{Works}
use rdoc_squad_link_lite.Mesh.Links.Glare.{OneLink, on_offer-OneLink}
use rdoc_squad_link_lite.Mesh.Links.Offers.{OffersTo, rekey-OffersTo}
use rdoc_squad_link_lite.Mesh.Ctrl.Senders.{Keyless, on_message-Keyless}
use rdoc_squad_link_lite.Mesh.Sending.RoomKeys.{Arrives, send_room_key-Arrives}
use rdoc_squad_link_lite.Mesh.Codec.{Codec, IsFaithful}
use rdoc_squad_link_lite.Mesh.Ctrl.{reply_ctrl, max_ctrl_bytes, on_message}
use rdoc_squad_link_lite.Mesh.Ctrl.Pairing.{Pairs, Fits, on_open-Pairs}

-- A text of texts: a zero before each, and its bytes plus one.
abbrev flat : List Str → Str
flat [] = []
flat (s ∷ ss) = 0 ∷ (map suc s ++ flat ss)

-- The rest of the text that is being read, and those after it.
abbrev read : Str → Str × List Str
read [] = ([], [])
read (zero ∷ s) = ([], (read s).0 ∷ (read s).1)
read (suc c ∷ s) = (c ∷ (read s).0, (read s).1)

read-map : (s t : Str) → read (map suc s ++ t) ≡ (s ++ (read t).0, (read t).1)
read-map [] t = refl
read-map (c ∷ s) t = ap (λ r. (c ∷ r.0, r.1)) (read-map s t)

read-flat : (ss : List Str) → read (flat ss) ≡ ([], ss)
read-flat [] = refl
read-flat (s ∷ ss) =
    ap (λ r. ([], r.0 ∷ r.1))
      (read-map s (flat ss)
        ∙ ap (λ r. (s ++ r.0, r.1)) (read-flat ss)
        ∙ ap (λ h. (h, ss)) (append-nil s))

abbrev write : CtrlMsg → Str
write (BetweenPeers.chat m) = 0 ∷ m.ts ∷ m.text
write (BetweenPeers.channel name) = 1 ∷ name
write (BetweenPeers.channels names) = 2 ∷ flat names
write (BetweenPeers.channel_removed name) = 3 ∷ name
write (kem_hello kem_pk x_pk) = 4 ∷ flat (kem_pk ∷ x_pk ∷ [])
write (kem_reply x_pk kem_ct) = 5 ∷ flat (x_pk ∷ kem_ct ∷ [])
write (enc sealed) = 6 ∷ sealed
write (BetweenPeers.room_key gen key) = 7 ∷ gen ∷ key
write (BetweenPeers.room_gen gen) = 8 ∷ gen ∷ []

abbrev pair_of : (Str → Str → CtrlMsg) → List Str → Option CtrlMsg
pair_of f (a ∷ b ∷ []) = some (f a b)
pair_of f _ = none

abbrev numbered : (ℕ → Str → CtrlMsg) → Str → Option CtrlMsg
numbered f [] = none
numbered f (n ∷ s) = some (f n s)

abbrev parse : Str → Option CtrlMsg
parse [] = none
parse (t ∷ s) =
    if t == 0
    then numbered (λ ts text. BetweenPeers.chat (record { text = text; ts = ts })) s
    else if t == 1
    then some (BetweenPeers.channel s)
    else if t == 2
    then some (BetweenPeers.channels (read s).1)
    else if t == 3
    then some (BetweenPeers.channel_removed s)
    else if t == 4
    then pair_of kem_hello (read s).1
    else if t == 5
    then pair_of kem_reply (read s).1
    else if t == 6
    then some (enc s)
    else if t == 7
    then numbered BetweenPeers.room_key s
    else numbered (λ gen rest. BetweenPeers.room_gen gen) s

abbrev codec : Codec
codec = record {
  to_json = write;
  from_json = parse;
  encode = λ b. b;
  decode = λ b. some b;
  count_chars = length;
  take_chars = take;
}

parse-write : (msg : CtrlMsg) → parse (write msg) ≡ some msg
parse-write (BetweenPeers.chat m) = refl
parse-write (BetweenPeers.channel name) = refl
parse-write (BetweenPeers.channels names) =
    ap (λ r. some (BetweenPeers.channels r.1)) (read-flat names)
parse-write (BetweenPeers.channel_removed name) = refl
parse-write (kem_hello kem_pk x_pk) =
    ap (λ r. pair_of kem_hello r.1) (read-flat (kem_pk ∷ x_pk ∷ []))
parse-write (kem_reply x_pk kem_ct) =
    ap (λ r. pair_of kem_reply r.1) (read-flat (x_pk ∷ kem_ct ∷ []))
parse-write (enc sealed) = refl
parse-write (BetweenPeers.room_key gen key) = refl
parse-write (BetweenPeers.room_gen gen) = refl

codec-IsFaithful : IsFaithful codec
codec-IsFaithful = record { from_json-to_json = parse-write; decode-encode = λ b. refl }

abbrev key_32 : Str
key_32 = lit "0123456789abcdef0123456789abcdef"

abbrev toy : Primitives
toy = record {
  sha256 = λ m. m;
  hkdf = λ salt ikm info n. info;
  encrypt = λ key nonce aad msg. key ++ msg;
  decrypt = λ key nonce aad ct. some (drop (length key) ct);
  kem_generate = λ seed. (seed, []);
  ek_size = 0;
  ct_size = 0;
  encapsulate = λ ek coins. some ([], lit "shared");
  decapsulate = λ dk ct. some (lit "shared");
  x_public = λ a. key_32;
  x_shared = λ a b. b;
}

toy-IsSound : IsSound toy
toy-IsSound = record {
  decrypt-encrypt = λ key nonce aad msg. ap some (drop-append (length key) key msg refl);
  ek-size = λ seed. refl;
  encapsulates = λ seed coins. (([], lit "shared"), refl, refl, refl);
  x_shared_comm = λ a b. refl;
}

abbrev alice : PeerCrypto
alice = record { my_id = lit "alice"; sessions = []; pending = [] }

abbrev bob : PeerCrypto
bob = record { my_id = lit "bob"; sessions = []; pending = [] }

alice-Fits : Fits toy codec alice bob [] [] [] []
unfolding start on_hello respond str_lt
alice-Fits = record {
  hello = omega arith;
  reply = λ r e.
      subst (λ q. length (write (reply_ctrl codec q)) ≤ max_ctrl_bytes)
        (some-injective (record { x_pk = key_32; kem_ct = [] }) r e) (omega arith);
}

on_open-Pairs_example : Pairs toy codec alice bob Channels.new Channels.new [] [] [] []
unfolding str_lt
on_open-Pairs_example =
    on_open-Pairs toy codec alice bob Channels.new Channels.new [] [] [] [] toy-IsSound
      codec-IsFaithful (λ s. refl) refl alice-Fits

-- Everything that begins so is a candidate, and a text beyond two is kept back.
abbrev is_candidate : Str → Bool
is_candidate [] = false
is_candidate (c ∷ s) = c == 99

abbrev fresh_conn : PeerConn
fresh_conn = new_conn 7

arrive-flush_ice_example :
    let (c1, effects1) = arrive is_candidate (λ s. s) fresh_conn (lit "c1" ∷ lit "x" ∷ []) in
    let (c2, effects2) = flush_ice is_candidate (λ s. s) c1 in
    (effects1 ≡ [])
    × (effects2 ++ (arrive is_candidate (λ s. s) c2 (lit "c2" ∷ [])).1
        ≡ add_ice_candidate 7 (lit "c1") ∷ add_ice_candidate 7 (lit "c2") ∷ [])
unfolding add_each
arrive-flush_ice_example =
    arrive-flush_ice is_candidate (λ s. s) fresh_conn (lit "c1" ∷ lit "x" ∷ []) (lit "c2" ∷ []) refl
      refl

-- Every call succeeds, and every connection waits for an answer to its offer.
abbrev webrtc : Webrtc
webrtc = record {
  new_peer_connection = λ peer. some 9;
  add_track = λ pc. true;
  create_data_channel = λ pc. some 1;
  create_offer = λ pc. some (lit "offer");
  create_answer = λ pc. some (lit "answer");
  set_local_description = λ pc sdp. true;
  set_remote_description = λ pc sdp. true;
  new_or_connecting = λ pc. false;
  have_local_offer = λ pc. true;
  is_candidate = is_candidate;
  trim_start = λ s. s;
}

abbrev mesh_of : PeerCrypto → Str → Mesh
mesh_of crypto peer = record {
  my_id = crypto.my_id;
  ice_servers = [];
  peers = (peer, record fresh_conn { chat = some 3 }) ∷ [];
  crypto = crypto;
}

on_offer-OneLink_example :
    OneLink webrtc webrtc
      (mesh_of alice bob.my_id)
      (mesh_of bob alice.my_id)
      (record fresh_conn { chat = some 3 })
      (record fresh_conn { chat = some 3 })
      (lit "offer")
      (lit "offer")
      9
      (lit "answer")
unfolding get str_eq str_lt
on_offer-OneLink_example =
    on_offer-OneLink webrtc webrtc (mesh_of alice bob.my_id) (mesh_of bob alice.my_id)
      (record fresh_conn { chat = some 3 }) (record fresh_conn { chat = some 3 }) (lit "offer")
      (lit "offer") 9 (lit "answer") refl (record { has = refl; waits = refl })
      (record { has = refl; waits = refl })
      (record {
        connects = refl;
        tracks = refl;
        described = refl;
        created = refl;
        described_here = refl;
      })
      refl

webrtc-Works : Works webrtc
webrtc-Works = record {
  connects = λ peer. (9, refl, refl);
  has_channel = λ pc. (1, refl);
  offers = λ pc. (lit "offer", refl, refl);
}

rekey-OffersTo_example : OffersTo (rekey webrtc (mesh_of alice bob.my_id)) (bob.my_id ∷ [])
unfolding str_lt
rekey-OffersTo_example = rekey-OffersTo webrtc (mesh_of alice bob.my_id) webrtc-Works

abbrev bare_key : Str
bare_key = write (BetweenPeers.room_key 4 key_32)

on_message-Keyless_example :
    All Keyless (on_message toy codec [] [] alice Channels.new (lit "bob") bare_key).events
unfolding get
on_message-Keyless_example =
    on_message-Keyless toy codec alice Channels.new (lit "bob") [] [] bare_key refl

abbrev half : Str → Str → Session
half send recv = record {
  send_key = send;
  recv_key = recv;
  send_prefix = [];
  recv_prefix = [];
  send_ctr = 0;
  replay = record { recv_max = 0; recv_window = 0 };
  fp = [];
}

abbrev with_session : PeerCrypto → Str → Session → PeerCrypto
with_session c peer s = record c { sessions = (peer, s) ∷ [] }

abbrev sender : PeerCrypto
sender = with_session alice bob.my_id (half (lit "k1") (lit "k2"))

abbrev receiver : PeerCrypto
receiver = with_session bob alice.my_id (half (lit "k2") (lit "k1"))

send_room_key-Arrives_example :
    Arrives toy codec
      (mesh_of sender bob.my_id)
      bob.my_id
      alice.my_id
      3
      receiver
      Channels.new
      []
      4
      key_32
unfolding get str_eq Session.seal to_be_bytes
send_room_key-Arrives_example =
    send_room_key-Arrives toy codec (mesh_of sender bob.my_id) bob.my_id alice.my_id
      (half (lit "k1") (lit "k2")) (half (lit "k2") (lit "k1"))
      (record fresh_conn { chat = some 3 }) 3 receiver Channels.new [] 4 key_32 toy-IsSound
      codec-IsFaithful
      (record { session = refl; has_conn = refl; channel = refl; counter = omega arith }) refl
      (record { key = refl; prefix = refl; fresh = λ c _. replay_ok-start c }) refl (omega arith)
