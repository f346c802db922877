-- ===== src/Crypto/Session/Frames.antt =====
-- Frames between two sessions: in order they all arrive, and none is taken twice.
use rdoc_squad_link_lite.Base.{
  ℕ, suc, ◌+◌, ◌^◌, ◌≤◌, ◌<◌, ◌≡◌, refl, true, false, List, [], ◌∷◌, map, Option, none, some, Str,
  length, take, arith, ap, length-append,
}
use rdoc_squad_link_lite.Base.Bytes.{
  to_be_bytes, from_be_bytes, from_be_bytes-to_be_bytes, length-to_be_bytes, take-append,
  drop-append,
}
use rdoc_squad_link_lite.Base.Bits.{bit-zero}
use rdoc_squad_link_lite.Crypto.Primitives.{Primitives, IsSound}
use rdoc_squad_link_lite.Crypto.Replay.{Replay, replay_ok, replay_mark}
use rdoc_squad_link_lite.Crypto.Replay.Window.{replay_ok-replay_mark}
use rdoc_squad_link_lite.Crypto.Session.{Session, Kind, seal, open_frame, nonce, tag}

-- What one side sends the other can open, from the counter that comes next.
pub record Paired (s r : Session) : Type 0 where
  pub key : r.recv_key ≡ s.send_key
  pub prefix : r.recv_prefix ≡ s.send_prefix
  pub fresh : (c : ℕ) → s.send_ctr ≤ c → replay_ok r.replay c ≡ true

ok-near : (r : Replay) (c : ℕ) → replay_ok r c ≡ true → r.recv_max < c + 64
unfolding replay_ok
ok-near r c h = ground arith

module _ (p : Primitives) where
  pub seal_all : Session → List (Kind × Str) → List (Kind × Str)
  seal_all s [] = []
  seal_all s ((k, pt) ∷ ms) = (k, (seal p s k pt).1) ∷ seal_all (seal p s k pt).0 ms

  pub open_all : Session → List (Kind × Str) → List (Option Str)
  open_all r [] = []
  open_all r ((k, wire) ∷ ws) = (open_frame p r k wire).1 ∷ open_all (open_frame p r k wire).0 ws

  -- The receiver after a series of frames, of any kind, whoever made them.
  pub after_frames : Session → List (Kind × Str) → Session
  after_frames r [] = r
  after_frames r ((k, wire) ∷ ws) = after_frames (open_frame p r k wire).0 ws

-- A window that has seen nothing passes every counter.
pub replay_ok-start : (c : ℕ) → replay_ok (record { recv_max = 0; recv_window = 0 }) c ≡ true
unfolding replay_ok
replay_ok-start c = ground (arith, bit-zero 0)

module _ (p : Primitives) (sound : IsSound p) where
  pub open_frame-seal :
      (s r : Session) (k : Kind) (pt : Str)
      → s.send_ctr < 2 ^ 64
      → Paired s r
      → open_frame p r k (seal p s k pt).1
        ≡ (record r { replay = replay_mark r.replay s.send_ctr }, some pt)
  unfolding open_frame seal
  open_frame-seal s r k pt h q =
      let ctr = s.send_ctr in
      let head = to_be_bytes 8 ctr in
      let body = p.encrypt s.send_key (nonce s.send_prefix ctr) (tag k ∷ []) pt in
      let eight = length-to_be_bytes 8 ctr in
      ground (
        arith,
        length-append head body,
        eight,
        take-append 8 head body eight,
        drop-append 8 head body eight,
        from_be_bytes-to_be_bytes 8 ctr h,
        q.fresh ctr (omega arith),
        sound.decrypt-encrypt s.send_key (nonce s.send_prefix ctr) (tag k ∷ []) pt,
      )

  Paired-next :
      (s r : Session) (k : Kind) (pt : Str)
      → suc s.send_ctr < 2 ^ 64
      → Paired s r
      → Paired (seal p s k pt).0 (record r { replay = replay_mark r.replay s.send_ctr })
  unfolding seal
  Paired-next s r k pt h q = record {
    key = q.key;
    prefix = q.prefix;
    fresh = λ c le. ground (
      arith,
      replay_ok-replay_mark r.replay s.send_ctr c,
      q.fresh c (omega arith),
      ok-near r.replay c (q.fresh c (omega arith)),
    );
  }

  seal_room :
      (s : Session) (k : Kind) (pt : Str) (ms : List (Kind × Str))
      → s.send_ctr + suc (length ms) < 2 ^ 64
      → (seal p s k pt).0.send_ctr + length ms < 2 ^ 64
  unfolding seal
  seal_room s k pt ms h = omega arith

  -- Frames of any kind that one session seals the other opens, in order, while the 64-bit counter
  -- lasts: nothing is lost and nothing is altered.
  pub open_all-seal_all :
      (s r : Session) (ms : List (Kind × Str))
      → s.send_ctr + length ms < 2 ^ 64
      → Paired s r
      → open_all p r (seal_all p s ms) ≡ map (λ m. some m.1) ms
  unfolding open_all seal_all
  open_all-seal_all s r [] h q = refl
  open_all-seal_all s r ((k, pt) ∷ ms) h q =
      let opened = open_frame-seal s r k pt (omega arith) q in
      let r' = record r { replay = replay_mark r.replay s.send_ctr } in
      let next = Paired-next s r k pt (omega arith) q in
      rw opened (
        ap (◌∷◌ (some pt)) (open_all-seal_all (seal p s k pt).0 r' ms (seal_room s k pt ms h) next))

module _ (p : Primitives) where
  open_frame-replay :
      (r : Session) (k : Kind) (wire : Str) (c : ℕ)
      → replay_ok r.replay c ≡ false
      → replay_ok (open_frame p r k wire).0.replay c ≡ false
  unfolding open_frame
  open_frame-replay r k wire c h =
      ground (arith, replay_ok-replay_mark r.replay (from_be_bytes (take 8 wire)) c)

  after_frames-replay :
      (r : Session) (ws : List (Kind × Str)) (c : ℕ)
      → replay_ok r.replay c ≡ false
      → replay_ok (after_frames p r ws).replay c ≡ false
  unfolding after_frames
  after_frames-replay r [] c h = h
  after_frames-replay r ((k, wire) ∷ ws) c h =
      after_frames-replay (open_frame p r k wire).0 ws c (open_frame-replay r k wire c h)

  open_frame-marks :
      (r : Session) (k : Kind) (wire pt : Str)
      → (open_frame p r k wire).1 ≡ some pt
      → replay_ok (open_frame p r k wire).0.replay (from_be_bytes (take 8 wire)) ≡ false
  unfolding open_frame
  open_frame-marks r k wire pt h = ground (
    arith,
    replay_ok-replay_mark r.replay (from_be_bytes (take 8 wire)) (from_be_bytes (take 8 wire)),
  )

  open_frame-refused :
      (r : Session) (k : Kind) (wire : Str)
      → replay_ok r.replay (from_be_bytes (take 8 wire)) ≡ false
      → (open_frame p r k wire).1 ≡ none
  unfolding open_frame
  open_frame-refused r k wire h = ground arith

  -- A frame that was opened is never opened again, as the same kind or another, whatever frames
  -- arrive in between.
  pub open_frame_twice :
      (r : Session) (k k' : Kind) (wire pt : Str) (ws : List (Kind × Str))
      → (open_frame p r k wire).1 ≡ some pt
      → (open_frame p (after_frames p (open_frame p r k wire).0 ws) k' wire).1 ≡ none
  open_frame_twice r k k' wire pt ws h =
      let r' = (open_frame p r k wire).0 in
      open_frame-refused (after_frames p r' ws) k' wire
        (after_frames-replay r' ws (from_be_bytes (take 8 wire)) (open_frame-marks r k wire pt h))
