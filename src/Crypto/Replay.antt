-- ===== src/Crypto/Replay.antt =====
-- apps/companion-core/src/crypto.rs: the anti-replay window of a `Session`, the fields `recv_max`
-- and `recv_window` with `replay_ok` and `replay_mark`. Counters and the bitmap are `u64`.
pub mod Window
use Prim.Native.Nat.{bit_or}
use rdoc_squad_link_lite.Base.{
  ℕ, suc, ◌+◌, ◌-◌, ◌*◌, ◌%◌, ◌^◌, Bool, true, false, ltb, leb, ◌==◌, if◌then◌else◌,
}
use rdoc_squad_link_lite.Base.Bits.{bit}

-- `recv_max`, and the bitmap of the 64 counters up to it.
pub record Replay : Type 0 where
  pub recv_max : ℕ
  pub recv_window : ℕ

-- `w << s` on `u64`, for `s` below 64.
abbrev pub shl_u64 : ℕ → ℕ → ℕ
shl_u64 w s = w * 2 ^ s % 2 ^ 64

unfoldable pub replay_ok : Replay → ℕ → Bool
replay_ok r ctr =
    if ltb r.recv_max ctr
    then true
    else (let diff = r.recv_max - ctr in if leb 64 diff then false else bit r.recv_window diff == 0)

unfoldable pub replay_mark : Replay → ℕ → Replay
replay_mark r ctr =
    if ltb r.recv_max ctr
    then (let shift = ctr - r.recv_max in
        let window = if leb 64 shift then 0 else shl_u64 r.recv_window shift in
        record { recv_max = ctr; recv_window = bit_or window 1 })
    else (let diff = r.recv_max - ctr in
        if ltb diff 64 then record r { recv_window = bit_or r.recv_window (shl_u64 1 diff) } else r)
