-- ===== src/Audio/Decode.antt =====
-- apps/companion-core/src/audio.rs: `decode_loop_with_idle`, the packets of the peers and the queues
-- they fill. A packet is one step; `Instant`s are nanoseconds.
pub mod Silence
use rdoc_squad_link_lite.Base.{
  ℕ, ◌-◌, ◌*◌, ◌/◌, ◌^◌, Bool, List, [], ◌∷◌, ◌++◌, Option, none, some, Str, leb, if◌then◌else◌,
  Dict, get, insert, remove,
}
use rdoc_squad_link_lite.Audio.Buffers.{trim_to, jitter_max, queue_of}

abbrev pub decoder_idle : ℕ
decoder_idle = 30 * 10 ^ 9

-- A decoder of Opus: `decode` gives the samples, or none for an error.
pub record Opus (D S : Type 0) : Type 0 where
  pub fresh : D
  pub decode : D → Str → D × Option (List S)

-- The locals of the loop, and the mix that it shares.
pub record Decoding (D S : Type 0) : Type 0 where
  pub decoders : Dict (D × ℕ)
  pub mix : Dict (List S)
  pub last_gc : ℕ

unfoldable pub remove_all : {V : Type 0} → List Str → Dict V → Dict V
remove_all [] m = m
remove_all (k ∷ ks) m = remove_all ks (remove k m)

unfoldable pub enqueue : {S : Type 0} → Str → Option (List S) → Dict (List S) → Dict (List S)
enqueue peer none mix = mix
enqueue peer (some out) mix = insert peer (trim_to jitter_max (queue_of peer mix ++ out)) mix

abbrev pub is_stale : {D : Type 0} → ℕ → ℕ → D × ℕ → Bool
is_stale idle now e = leb idle (now - e.1)

abbrev pub decoder_or : {D : Type 0} → D → Option (D × ℕ) → D
decoder_or fresh none = fresh
decoder_or fresh (some (d, seen)) = d

-- The stale keys, which are collected and then removed.
unfoldable pub stale_peers : {D : Type 0} → ℕ → ℕ → Dict (D × ℕ) → List Str
stale_peers idle now [] = []
stale_peers idle now ((peer, e) ∷ m) =
    let rest = stale_peers idle now m in if is_stale idle now e then peer ∷ rest else rest

module _ {D S : Type 0} where
  unfoldable pub collect : ℕ → ℕ → Decoding D S → Decoding D S
  collect idle now st =
      let stale = stale_peers idle now st.decoders in
      if leb (idle / 2) (now - st.last_gc)
      then record {
        decoders = remove_all stale st.decoders;
        mix = remove_all stale st.mix;
        last_gc = now;
      }
      else st

  module _ (opus : Opus D S) where
    unfoldable pub on_packet : ℕ → ℕ → Str → Str → Decoding D S → Decoding D S
    on_packet idle now peer payload st =
        let (dec, out) = opus.decode (decoder_or opus.fresh (get peer st.decoders)) payload in
        collect idle now (record st {
          decoders = insert peer (dec, now) st.decoders;
          mix = enqueue peer out st.mix;
        })
