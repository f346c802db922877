-- ===== src/Crypto/Session.antt =====
-- apps/companion-core/src/crypto.rs: `Kind` and the AEAD `Session` with `seal` and `open`. The
-- ciphers `send` and `recv` are their keys; the anti-replay fields are a `Replay`.
pub mod Frames
use rdoc_squad_link_lite.Base.{
  ℕ, Bool, [], ◌∷◌, ◌++◌, Option, none, some, Str, ltb, if◌then◌else◌, length, take, drop,
  wrapping_add_u64, List, ◌+◌, ◌/◌, ◌%◌,
}
use rdoc_squad_link_lite.Base.Bytes.{to_be_bytes, from_be_bytes}
use rdoc_squad_link_lite.Crypto.Primitives.{Primitives}
use rdoc_squad_link_lite.Crypto.Replay.{Replay, replay_ok, replay_mark}

pub data Kind : Type 0 where
  audio chat : Kind

abbrev pub tag : Kind → ℕ
tag audio = 1
tag chat = 2

pub record Session : Type 0 where
  pub send_key : Str
  pub recv_key : Str
  pub send_prefix : Str
  pub recv_prefix : Str
  pub send_ctr : ℕ
  pub replay : Replay
  pub fp : Str

unfoldable pub new : Str → Str → Str → Str → Str → Session
new send_key send_prefix recv_key recv_prefix fp = record {
  send_key = send_key;
  recv_key = recv_key;
  send_prefix = send_prefix;
  recv_prefix = recv_prefix;
  send_ctr = 0;
  replay = record { recv_max = 0; recv_window = 0 };
  fp = fp;
}

-- The prefix has four bytes.
abbrev pub nonce : Str → ℕ → Str
nonce prefix ctr = prefix ++ to_be_bytes 8 ctr

module _ (p : Primitives) where
  unfoldable pub seal : Session → Kind → Str → Session × Str
  seal s kind plaintext =
      let ctr = s.send_ctr in
      let ct = p.encrypt s.send_key (nonce s.send_prefix ctr) (tag kind ∷ []) plaintext in
      (record s { send_ctr = wrapping_add_u64 ctr 1 }, to_be_bytes 8 ctr ++ ct)

  -- `recv.decrypt(..).ok()?` and what follows it in `open`.
  abbrev pub accept : Session → ℕ → Option Str → Session × Option Str
  accept s ctr none = (s, none)
  accept s ctr (some pt) = (record s { replay = replay_mark s.replay ctr }, some pt)

  unfoldable pub open_frame : Session → Kind → Str → Session × Option Str
  open_frame s kind wire =
      if ltb (length wire) 8
      then (s, none)
      else (let ctr = from_be_bytes (take 8 wire) in
          if replay_ok s.replay ctr
          then accept s ctr
              (p.decrypt s.recv_key (nonce s.recv_prefix ctr) (tag kind ∷ []) (drop 8 wire))
          else (s, none))

abbrev pub hex_digit : ℕ → ℕ
hex_digit n = if ltb n 10 then 48 + n else 55 + n

abbrev pub hex_byte : ℕ → Str
hex_byte b = hex_digit (b / 16) ∷ hex_digit (b % 16) ∷ []

-- Two bytes to a group, with a blank between the groups.
unfoldable pub groups : Str → Str
groups [] = []
groups (a ∷ []) = hex_byte a
groups (a ∷ b ∷ []) = hex_byte a ++ hex_byte b
groups (a ∷ b ∷ c ∷ rest) =
    let later = groups (c ∷ rest) in (hex_byte a ++ hex_byte b) ++ 32 ∷ later

-- For the display, from the first ten bytes.
abbrev pub fingerprint : Session → Str
fingerprint s = groups (take 10 s.fp)
