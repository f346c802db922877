-- ===== src/Audio/Rig/Tidy.antt =====
-- The mix stays tidy, whatever happens to it.
use rdoc_squad_link_lite.Base.{
  ℕ, ◌+◌, ◌≤◌, ◌<◌, ◌/◌, ◌≡◌, refl, true, ◌||◌, List, [], ◌∷◌, ◌++◌, Option, none, some, Str, lit,
  str_eq, str_eq_iff, ◌⊎◌, leb→le, arith, is_some, all, length, drop, Dict, get, insert, get-insert,
  Option-cases, inl, inr,
}
use rdoc_squad_link_lite.Audio.Buffers.{jitter_max, monitor_max, trim_to, queue_of, frame_size}
use rdoc_squad_link_lite.Audio.Buffers.Latest.{trim_to-latest, length-latest, length-drop}
use rdoc_squad_link_lite.Audio.Earcon.{earcon_key}
use rdoc_squad_link_lite.Audio.Decode.{Opus, Decoding, enqueue, decoder_or, on_packet}
use rdoc_squad_link_lite.Audio.Decode.Silence.{collect-decoders, collect-mix, collect-last_gc}
use rdoc_squad_link_lite.Audio.Mixer.{popped}
use rdoc_squad_link_lite.Audio.Rig.{
  Event, packet, own_frame, cue, round, Rig, silent_rig, on_event, with_mix, run, fits, is_local,
  IsTidy,
}

length-trim_to : {A : Type 0} (max : ℕ) (b : List A) → length (trim_to max b) ≤ max
length-trim_to max b = rw (trim_to-latest max b) (length-latest max b)

abbrev dropped : {S : Type 0} → Option (List S) → Option (List S)
dropped none = none
dropped (some b) = some (drop frame_size b)

get-popped : {S : Type 0} (m : Dict (List S)) (key : Str) → get key (popped m) ≡ dropped (get key m)
unfolding popped get
get-popped [] key = refl
get-popped ((k, b) ∷ m) key = ground (arith, get-popped m key)

enqueue_cases :
    {S : Type 0} (peer : Str) (out : Option (List S)) (mix : Dict (List S)) (key : Str) (q : List S)
    → get key (enqueue peer out mix) ≡ some q
    → ((peer ≡ key) × (length q ≤ jitter_max)) ⊎ (get key mix ≡ some q)
unfolding enqueue
enqueue_cases peer none mix key q h = inr h
enqueue_cases peer (some out) mix key q h = ground (
  arith,
  get-insert peer key (trim_to jitter_max (queue_of peer mix ++ out)) mix,
  length-trim_to jitter_max (queue_of peer mix ++ out),
  str_eq_iff peer key,
)

self-is_local : is_local (lit "self") ≡ true
unfolding str_eq
self-is_local = refl

earcon-is_local : is_local earcon_key ≡ true
unfolding str_eq
earcon-is_local = refl

module _ {D S : Type 0} {idle : ℕ} (r : Rig D S) (tidy : IsTidy idle r) (key : Str) (q : List S)
    (e : get key (popped r.decoding.mix) ≡ some q) where
  popped_bounded : length q ≤ jitter_max
  popped_bounded = elim (Option-cases (get key r.decoding.mix)) [
    | inl n ↦ ground (arith, e, n, get-popped r.decoding.mix key)
    | inr (b, o) ↦
        ground
          (arith, get-popped r.decoding.mix key, tidy.bounded key b o, length-drop frame_size b)
  ]

  popped_owned : (is_local key || is_some (get key r.decoding.decoders)) ≡ true
  popped_owned = elim (Option-cases (get key r.decoding.mix)) [
    | inl n ↦ ground (arith, e, n, get-popped r.decoding.mix key)
    | inr (b, o) ↦ tidy.owned key b o
  ]

module _ {D S : Type 0} (opus : Opus D S) (idle : ℕ) (enough : 2 ≤ idle) where
  -- What a packet makes of the state before the sweep.
  abbrev taken : ℕ → Str → Str → Decoding D S → Decoding D S
  taken now peer payload st =
      let (dec, out) = opus.decode (decoder_or opus.fresh (get peer st.decoders)) payload in
      record st { decoders = insert peer (dec, now) st.decoders; mix = enqueue peer out st.mix }

  heard_after :
      (r : Rig D S) (tidy : IsTidy idle r) (dt : ℕ) (peer payload key : Str) (d : D) (seen : ℕ)
      → get key (on_event opus idle (packet dt peer payload) r).decoding.decoders ≡ some (d, seen)
      → (r.now + dt < seen + idle + idle / 2)
        × ((on_event opus idle (packet dt peer payload) r).decoding.last_gc < seen + idle)
  unfolding on_event on_packet
  heard_after r tidy dt peer payload key d seen h =
      let now = r.now + dt in
      let st = taken now peer payload r.decoding in
      let left = collect-decoders idle now st key (d, seen) h in
      let gc = collect-last_gc idle now st in
      let dec = (opus.decode (decoder_or opus.fresh (get peer r.decoding.decoders)) payload).0 in
      ground (
        arith,
        left,
        gc,
        get-insert peer key (dec, now) r.decoding.decoders,
        tidy.heard key d seen,
        tidy.collected,
      )

  bounded_after :
      (r : Rig D S) (tidy : IsTidy idle r) (dt : ℕ) (peer payload key : Str) (q : List S)
      → get key (on_event opus idle (packet dt peer payload) r).decoding.mix ≡ some q
      → length q ≤ jitter_max
  unfolding on_event on_packet
  bounded_after r tidy dt peer payload key q h =
      let now = r.now + dt in
      let out = (opus.decode (decoder_or opus.fresh (get peer r.decoding.decoders)) payload).1 in
      let left = collect-mix idle now (taken now peer payload r.decoding) key q h in
      elim (enqueue_cases peer out r.decoding.mix key q left.0) [
        | inl new ↦ new.1
        | inr old ↦ tidy.bounded key q old
      ]

  owned_after :
      (r : Rig D S) (tidy : IsTidy idle r) (dt : ℕ) (peer payload key : Str) (q : List S)
      → get key (on_event opus idle (packet dt peer payload) r).decoding.mix ≡ some q
      → (is_local key
          || is_some (get key (on_event opus idle (packet dt peer payload) r).decoding.decoders))
        ≡ true
  unfolding on_event on_packet
  owned_after r tidy dt peer payload key q h =
      let now = r.now + dt in
      let (dec, out) = opus.decode (decoder_or opus.fresh (get peer r.decoding.decoders)) payload in
      let left = collect-mix idle now (taken now peer payload r.decoding) key q h in
      let known = get-insert peer key (dec, now) r.decoding.decoders in
      elim (enqueue_cases peer out r.decoding.mix key q left.0) [
        | inl new ↦ ground (arith, left.1, known, new.0, str_eq_iff peer key)
        | inr old ↦ ground (arith, left.1, known, tidy.owned key q old)
      ]

  collected_after :
      (r : Rig D S) (tidy : IsTidy idle r) (dt : ℕ) (peer payload : Str)
      → ((on_event opus idle (packet dt peer payload) r).decoding.last_gc ≤ r.now + dt)
        × (r.now + dt < (on_event opus idle (packet dt peer payload) r).decoding.last_gc + idle / 2)
  unfolding on_event on_packet
  collected_after r tidy dt peer payload =
      let gc = collect-last_gc idle (r.now + dt) (taken (r.now + dt) peer payload r.decoding) in
      ground (arith, gc, tidy.collected, enough)

  packet-IsTidy :
      (r : Rig D S) (dt : ℕ) (peer payload : Str)
      → IsTidy idle r
      → IsTidy idle (on_event opus idle (packet dt peer payload) r)
  unfolding on_event
  packet-IsTidy r dt peer payload tidy = record {
    bounded = bounded_after r tidy dt peer payload;
    owned = owned_after r tidy dt peer payload;
    heard = heard_after r tidy dt peer payload;
    collected = collected_after r tidy dt peer payload;
  }

  insert_local-IsTidy :
      (k : Str) (q' : List S) (r : Rig D S)
      → is_local k ≡ true
      → length q' ≤ jitter_max
      → IsTidy idle r
      → IsTidy idle (with_mix (insert k q' r.decoding.mix) r)
  insert_local-IsTidy k q' r own short tidy = record {
    bounded =
        λ key q e. ground (arith, get-insert k key q' r.decoding.mix, short, tidy.bounded key q);
    owned = λ key q e.
        ground (arith, get-insert k key q' r.decoding.mix, own, str_eq_iff k key, tidy.owned key q);
    heard = tidy.heard;
    collected = tidy.collected;
  }

  on_event-IsTidy :
      (e : Event S) (r : Rig D S)
      → fits e ≡ true
      → IsTidy idle r
      → IsTidy idle (on_event opus idle e r)
  unfolding on_event
  on_event-IsTidy (packet dt peer payload) r h tidy = packet-IsTidy r dt peer payload tidy
  on_event-IsTidy (own_frame frame) r h tidy =
      insert_local-IsTidy (lit "self")
        (trim_to monitor_max (queue_of (lit "self") r.decoding.mix ++ frame)) r self-is_local
        (omega (arith, length-trim_to monitor_max (queue_of (lit "self") r.decoding.mix ++ frame)))
        tidy
  on_event-IsTidy (cue src) r h tidy =
      insert_local-IsTidy earcon_key src r earcon-is_local (leb→le (length src) jitter_max h) tidy
  on_event-IsTidy round r h tidy = record {
    bounded = λ key q e. popped_bounded r tidy key q e;
    owned = λ key q e. popped_owned r tidy key q e;
    heard = tidy.heard;
    collected = tidy.collected;
  }

  run-IsTidy :
      (es : List (Event S)) (r : Rig D S)
      → all fits es ≡ true
      → IsTidy idle r
      → IsTidy idle (run opus idle es r)
  unfolding run
  run-IsTidy [] r h tidy = tidy
  run-IsTidy (e ∷ es) r h tidy =
      run-IsTidy es (on_event opus idle e r) (ground (arith, h))
        (on_event-IsTidy e r (ground (arith, h)) tidy)

  silent_rig-IsTidy : IsTidy {D = D} {S = S} idle silent_rig
  unfolding get
  silent_rig-IsTidy = record {
    bounded = λ key q e. cc;
    owned = λ key q e. cc;
    heard = λ key d seen e. cc;
    collected = omega (arith, enough);
  }

  -- Whatever packets, frames of the user, cues and rounds of the mixer come, in whatever order: no
  -- queue of the mix is longer than jitter_max, each belongs to the user, to the cues or to a peer
  -- with a decoder, and after the last packet there is no decoder of a peer that was silent for one
  -- and a half times the idle time. The cues fit a queue, and the idle time is two at least.
  pub run-silent_rig-IsTidy :
      (es : List (Event S)) → all fits es ≡ true → IsTidy idle (run opus idle es silent_rig)
  run-silent_rig-IsTidy es h = run-IsTidy es silent_rig h silent_rig-IsTidy
