-- ===== src/Crypto/RoomAudio.antt =====
-- apps/companion-core/src/crypto.rs: `RoomKey` and `RoomAudio`, the keys of group audio. What
-- `OsRng` draws, key bytes and nonces, is an argument.
pub mod Staging
pub mod Rekey
pub mod Plaintext
use rdoc_squad_link_lite.Base.{
  ℕ, Bool, true, false, List, [], ◌∷◌, ◌++◌, ◌&&◌, ◌||◌, Option, none, some, Str, str_lt, ltb, leb,
  ◌==◌, if◌then◌else◌, length, take, drop, find, is_some,
}
use rdoc_squad_link_lite.Base.Bytes.{to_be_bytes, from_be_bytes}
use rdoc_squad_link_lite.Crypto.Primitives.{Primitives}
use rdoc_squad_link_lite.Crypto.Session.{audio, tag}

-- The key that `auth` minted as generation `gen`.
pub record RoomKey : Type 0 where
  pub gen : ℕ
  pub auth : Str
  pub key : Str

abbrev pub room_aad : Str → Str
room_aad sender = tag audio ∷ sender

module _ (p : Primitives) where
  -- The nonce has 12 bytes.
  unfoldable pub seal_audio : Str → RoomKey → Str → Str → Str
  seal_audio nonce k sender pt = nonce ++ p.encrypt k.key nonce (room_aad sender) pt

  unfoldable pub open_audio : RoomKey → Str → Str → Option Str
  open_audio k sender wire =
      if ltb (length wire) 12
      then none
      else p.decrypt k.key (take 12 wire) (room_aad sender) (drop 12 wire)

abbrev pub audio_raw : ℕ
audio_raw = 0

abbrev pub audio_sealed : ℕ
audio_sealed = 1

abbrev pub room_key_prev_slots : ℕ
room_key_prev_slots = 2

-- `send` seals; `cur` and then `prev`, newest first, open.
pub record RoomAudio : Type 0 where
  pub send : Option RoomKey
  pub cur : Option RoomKey
  pub prev : List RoomKey

abbrev pub new : RoomAudio
new = record { send = none; cur = none; prev = [] }

abbrev pub gen_of : Option RoomKey → Option ℕ
gen_of none = none
gen_of (some k) = some k.gen

abbrev pub generation : RoomAudio → Option ℕ
generation r = gen_of r.cur

abbrev pub has_send : RoomAudio → Bool
has_send r = is_some r.send

-- A newer generation, or the same one from a smaller authority.
unfoldable pub better : RoomKey → RoomKey → Bool
better k existing = ltb existing.gen k.gen || (k.gen == existing.gen && str_lt k.auth existing.auth)

unfoldable pub stage : RoomAudio → RoomKey → RoomAudio × Bool
stage r k = elim r.cur [
  | none ↦ (record r { cur = some k }, true)
  | some existing ↦
      if better k existing
      then (record r { cur = some k; prev = take room_key_prev_slots (existing ∷ r.prev) }, true)
      else (r, false)
]

-- `cur.iter().chain(prev.iter())`.
abbrev pub ring_of : Option RoomKey → List RoomKey → List RoomKey
ring_of none prev = prev
ring_of (some k) prev = k ∷ prev

abbrev pub ring : RoomAudio → List RoomKey
ring r = ring_of r.cur r.prev

unfoldable pub promote : RoomAudio → ℕ → RoomAudio
promote r gen = elim (find (λ k. k.gen == gen) (ring r)) [
  | none ↦ r
  | some k ↦ record r { send = some k }
]

unfoldable pub install : RoomAudio → RoomKey → RoomAudio
install r k =
    let (r', taken) = stage r k in
    if taken then elim (generation r') [ some g ↦ promote r' g | none ↦ promote r' k.gen ] else r'

module _ (p : Primitives) where
  unfoldable pub seal_outbound : Str → RoomAudio → Str → Str → Option Str
  seal_outbound nonce r sender opus = elim r.send [
    | some k ↦ some (audio_sealed ∷ (to_be_bytes 4 k.gen ++ seal_audio p nonce k sender opus))
    | none ↦ elim r.cur [ some k ↦ none | none ↦ some (audio_raw ∷ opus) ]
  ]

  -- `filter` by generation, then `find_map`.
  unfoldable pub open_with : List RoomKey → ℕ → Str → Str → Option Str
  open_with [] gen sender body = none
  open_with (k ∷ ks) gen sender body =
      let rest = open_with ks gen sender body in
      if k.gen == gen
      then elim (open_audio p k sender body) [ none ↦ rest | some pt ↦ some pt ]
      else rest

  unfoldable pub open_inbound : RoomAudio → Str → Str → Option Str
  open_inbound r sender [] = none
  open_inbound r sender (t ∷ rest) =
      if t == audio_raw
      then elim r.cur [ some k ↦ none | none ↦ some rest ]
      else if t == audio_sealed && leb 4 (length rest)
      then open_with (ring r) (from_be_bytes (take 4 rest)) sender (drop 4 rest)
      else none
