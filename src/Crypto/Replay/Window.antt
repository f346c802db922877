-- ===== src/Crypto/Replay/Window.antt =====
-- The window against the set of the counters seen.
use rdoc_squad_link_lite.Base.{
  ℕ, suc, ◌+◌, ◌-◌, ◌*◌, ◌^◌, ◌<◌, ◌≤◌, ◌≡◌, ltb, leb, ◌==◌, if◌then◌else◌, arith, not, ◌&&◌, max,
}
use rdoc_squad_link_lite.Base.Bits.{
  bit, bit-bit_or, bit-mod, bit-shl, bit-shl_low, bit-pow, bit-zero,
}
use native.Mathlib.Decide.{dec_lt}
use Prim.Native.Nat.{bit_or}
use rdoc_squad_link_lite.Crypto.Replay.{Replay, replay_ok, replay_mark, shl_u64}

bit-shl_u64 : (w s k : ℕ) → k < 64 → bit (shl_u64 w s) k ≡ (if ltb k s then 0 else bit w (k - s))
bit-shl_u64 w s k h = elim (dec_lt k s) [
  | yes low ↦ ground (arith, bit-mod 64 k (w * 2 ^ s) h, bit-shl_low s k w low)
  | no high ↦
      let index : k - s + s ≡ k = omega arith in
      let kept : bit (w * 2 ^ s) k ≡ bit w (k - s) = rw index at (bit-shl s (k - s) w) in
      ground (arith, bit-mod 64 k (w * 2 ^ s) h, kept)
]

-- The digit of `c` after a counter `d` beyond the window is marked.
advance_bit :
    (m w d c : ℕ)
    → m < d
    → c ≤ d
    → d - c < 64
    → bit (bit_or (if leb 64 (d - m) then 0 else shl_u64 w (d - m)) 1) (d - c)
      ≡ (if d == c then 1 else if ltb m c then 0 else bit w (m - c))
advance_bit m w d c p q h =
    let one : bit 1 (d - c) ≡ (if 0 == (d - c) then 1 else 0) = bit-pow 0 (d - c) in
    elim (dec_lt c (suc m)) [
      | yes old ↦
          let index : (d - c) - (d - m) ≡ m - c = omega arith in
          let moved = rw index at (bit-shl_u64 w (d - m) (d - c) h) in
          ground (arith, one, moved, bit-bit_or (d - c) (shl_u64 w (d - m)) 1)
      | no new ↦ ground (
        arith,
        one,
        bit-zero (d - c),
        bit-bit_or (d - c) 0 1,
        bit-bit_or (d - c) (shl_u64 w (d - m)) 1,
        bit-shl_u64 w (d - m) (d - c) h,
      )
    ]

-- The digit of `c` after a counter `d` within the window is marked.
mark_bit :
    (m w d c : ℕ)
    → c ≤ m
    → m - c < 64
    → d ≤ m
    → m - d < 64
    → bit (bit_or w (shl_u64 1 (m - d))) (m - c) ≡ (if d == c then 1 else bit w (m - c))
mark_bit m w d c p q h k = ground (
  arith,
  bit-bit_or (m - c) w (shl_u64 1 (m - d)),
  bit-mod 64 (m - c) (2 ^ (m - d)) q,
  bit-pow (m - d) (m - c),
)

-- After `d` is marked a counter `c` passes if it passed before, is not `d`, and is not 64 or more
-- below the greatest counter marked.
pub replay_ok-replay_mark :
    (r : Replay) (d c : ℕ)
    → replay_ok (replay_mark r d) c
      ≡ (replay_ok r c && not (d == c) && ltb (max r.recv_max d) (c + 64))
unfolding replay_ok replay_mark
replay_ok-replay_mark r d c =
    ground (arith, advance_bit r.recv_max r.recv_window d c, mark_bit r.recv_max r.recv_window d c)
