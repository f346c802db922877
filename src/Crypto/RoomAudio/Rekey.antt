-- ===== src/Crypto/RoomAudio/Rekey.antt =====
-- Frames of group audio across a rekey.
use rdoc_squad_link_lite.Base.{
  ◌<◌, ◌≡◌, ◌≢◌, ◌^◌, List, [], ◌∷◌, ◌++◌, some, Str, length, arith, All, length-append,
}
use rdoc_squad_link_lite.Base.Bytes.{
  to_be_bytes, from_be_bytes-to_be_bytes, length-to_be_bytes, take-append, drop-append,
}
use rdoc_squad_link_lite.Crypto.Primitives.{Primitives, IsSound}
use rdoc_squad_link_lite.Crypto.RoomAudio.{
  RoomKey, RoomAudio, stage, ring, better, audio_sealed, seal_audio, open_audio, open_with,
  seal_outbound, open_inbound, room_aad,
}

module _ (p : Primitives) (sound : IsSound p) where
  open_audio-seal_audio :
      (k : RoomKey) (nonce sender pt : Str)
      → length nonce ≡ 12
      → open_audio p k sender (seal_audio p nonce k sender pt) ≡ some pt
  unfolding open_audio seal_audio
  open_audio-seal_audio k nonce sender pt h =
      let ct = p.encrypt k.key nonce (room_aad sender) pt in
      ground (
        arith,
        length-append nonce ct,
        take-append 12 nonce ct h,
        drop-append 12 nonce ct h,
        sound.decrypt-encrypt k.key nonce (room_aad sender) pt,
      )

  open_with-append :
      (before after : List RoomKey) (k : RoomKey) (sender body pt : Str)
      → All (λ j. j.gen ≢ k.gen) before
      → open_audio p k sender body ≡ some pt
      → open_with p (before ++ k ∷ after) k.gen sender body ≡ some pt
  unfolding open_with
  open_with-append [] after k sender body pt h e = ground arith
  open_with-append (j ∷ before) after k sender body pt h e =
      ground (arith, h.0, open_with-append before after k sender body pt h.1 e)

  -- The frame that a node seals under a key, as a node reads it that has the key in its ring, with
  -- no newer key of the same generation before it.
  pub open_inbound-seal_outbound :
      (s r : RoomAudio) (k : RoomKey) (before after : List RoomKey) (nonce sender opus : Str)
      → s.send ≡ some k
      → ring r ≡ before ++ k ∷ after
      → All (λ j. j.gen ≢ k.gen) before
      → k.gen < 2 ^ 32
      → length nonce ≡ 12
      → (frame : Str) × (seal_outbound p nonce s sender opus ≡ some frame)
        × (open_inbound p r sender frame ≡ some opus)
  unfolding seal_outbound open_inbound
  open_inbound-seal_outbound s r k before after nonce sender opus e q h small twelve =
      let head = to_be_bytes 4 k.gen in
      let body = seal_audio p nonce k sender opus in
      let four = length-to_be_bytes 4 k.gen in
      (
        audio_sealed ∷ (head ++ body),
        ground arith,
        ground (
          arith,
          length-append head body,
          four,
          take-append 4 head body four,
          drop-append 4 head body four,
          from_be_bytes-to_be_bytes 4 k.gen small,
          q,
          open_with-append before after k sender body opus h
              (open_audio-seal_audio k nonce sender opus twelve),
        ),
      )

  -- The ring after two keys were staged over `k`.
  ring_twice :
      (r : RoomAudio) (k k1 k2 : RoomKey)
      → r.cur ≡ some k
      → k.gen < k1.gen
      → k1.gen < k2.gen
      → ring (stage (stage r k1).0 k2).0 ≡ k2 ∷ k1 ∷ k ∷ []
  unfolding stage better
  ring_twice r k k1 k2 e p1 p2 = ground arith

  -- A rekey burst drops nothing: when two newer generations have been staged in a row, a frame that
  -- is still sealed under the key before them, by a node that has not promoted a newer one, opens.
  pub two_rekeys :
      (s r : RoomAudio) (k k1 k2 : RoomKey) (nonce sender opus : Str)
      → s.send ≡ some k
      → r.cur ≡ some k
      → k.gen < k1.gen
      → k1.gen < k2.gen
      → k.gen < 2 ^ 32
      → length nonce ≡ 12
      → (frame : Str) × (seal_outbound p nonce s sender opus ≡ some frame)
        × (open_inbound p (stage (stage r k1).0 k2).0 sender frame ≡ some opus)
  two_rekeys s r k k1 k2 nonce sender opus e q p1 p2 small twelve =
      open_inbound-seal_outbound s (stage (stage r k1).0 k2).0 k (k2 ∷ k1 ∷ []) [] nonce sender opus
        e (ring_twice r k k1 k2 q p1 p2) (λ x. omega arith, (λ x. omega arith, tt)) small twelve
