-- ===== src/Engine/Loop/Invariant.antt =====
-- What holds of the channels and of the connection after any turns of the loop.
use rdoc_squad_link_lite.Base.{
  ◌≤◌, ◌≡◌, refl, sym, subst, true, false, not, ◌||◌, List, [], ◌∷◌, Str, str_eq, str_eq_iff,
  is_some, arith, All, filter, Bool-cases, inl, inr,
}
use rdoc_squad_link_lite.Engine.Channels.{
  Unicode, canon_channel, listed, default_channel, merge_channels, tombstone_allowed, set_mine,
}
use rdoc_squad_link_lite.Engine.Channels.Directory.{
  IsDirectory, merge_channels-IsDirectory, remove_from_dir-IsDirectory,
}
use rdoc_squad_link_lite.Engine.Channels.Names.{
  merge_channels-All, listed-merge_channels, listed-remove_from_dir, remove_from_dir-All,
}
use rdoc_squad_link_lite.Engine.Loop.{Config, Libraries, Turn, Loop}
use rdoc_squad_link_lite.Engine.Loop.Events.{
  contains, set_insert, keeps_channel, strike, on_peer_channels, on_peer_channel_removed,
}
use rdoc_squad_link_lite.Engine.Loop.Commands.{set_remove, or_default, set_channel, remove_channel}
use rdoc_squad_link_lite.Mesh.Ctrl.{max_channel_len}
use rdoc_squad_link_lite.Engine.Loop.Unchanged.{View, view}

module _ (u : Unicode) where
  -- A name whose channel was not removed.
  abbrev pub Standing : List Str → Str → Type 0
  Standing removed d = contains (canon_channel u d) removed ≡ false

  -- The directory is one, and has the default channel and no removed one. What the data channels
  -- read is what the loop has. The halves of the connection come and go together, without one the
  -- next attempt has its time, and the wait is from 2 to 30 seconds.
  pub record IsConsistent (v : View) : Type 0 where
    pub directory : IsDirectory u v.known
    pub has_default : listed u (canon_channel u default_channel) v.known ≡ true
    pub standing : All (Standing v.removed) v.known
    pub mirrored : v.dir ≡ v.known
    pub tuned : v.mine ≡ v.my_channel
    pub halves : v.cur_out ≡ v.cur_in
    pub scheduled : (v.cur_in || is_some v.next_try) ≡ true
    pub patient : 2 ≤ v.backoff
    pub bounded : v.backoff ≤ 30

  -- A name of the directory stands after a removal as before, unless it is the one that is removed.
  Standing-struck :
      (canon : Str) (removed : List Str) (d : Str)
      → Standing removed d
      → str_eq (canon_channel u d) canon ≡ false
      → Standing (set_insert canon removed).0 d
  unfolding set_insert
  Standing-struck canon removed d h ne =
      ground (arith, str_eq_iff canon (canon_channel u d), str_eq_iff (canon_channel u d) canon)

  contains-set_remove :
      (x y : Str) (set : List Str) → contains y set ≡ false → contains y (set_remove x set) ≡ false
  contains-set_remove x y [] h = refl
  contains-set_remove x y (z ∷ set) h = ground (arith, contains-set_remove x y set)

  contains-set_remove_same : (x : Str) (set : List Str) → contains x (set_remove x set) ≡ false
  contains-set_remove_same x [] = refl
  contains-set_remove_same x (z ∷ set) = ground (arith, contains-set_remove_same x set)

  All-Standing-set_remove :
      (x : Str) (removed dir : List Str)
      → All (Standing removed) dir
      → All (Standing (set_remove x removed)) dir
  All-Standing-set_remove x removed [] h = tt
  All-Standing-set_remove x removed (d ∷ dir) h = (
    contains-set_remove x (canon_channel u d) removed h.0,
    All-Standing-set_remove x removed dir h.1,
  )

  All-Standing-filter :
      (removed names : List Str)
      → All (Standing removed) (filter (λ n. not (contains (canon_channel u n) removed)) names)
  All-Standing-filter removed [] = tt
  All-Standing-filter removed (n ∷ names) =
      elim (Bool-cases (contains (canon_channel u n) removed)) [
        | inl e ↦ rw e (All-Standing-filter removed names)
        | inr e ↦ rw e (e, All-Standing-filter removed names)
      ]

module _ (cfg : Config) (libs : Libraries) (t : Turn) where
  pub kept :
      (l l' : Loop)
      → view l' ≡ view l
      → IsConsistent libs.unicode (view l)
      → IsConsistent libs.unicode (view l')
  kept l l' e v = subst (IsConsistent libs.unicode) (sym e) v

  strike-IsConsistent :
      (l : Loop) (canon : Str)
      → str_eq (canon_channel libs.unicode default_channel) canon ≡ false
      → IsConsistent libs.unicode (view l)
      → IsConsistent libs.unicode
          (view (strike cfg libs t l canon (set_insert canon l.removed_channels).0).loop)
  unfolding strike
  strike-IsConsistent l canon ne v = record {
    directory = remove_from_dir-IsDirectory libs.unicode l.known_channels canon v.directory;
    has_default =
        listed-remove_from_dir libs.unicode (canon_channel libs.unicode default_channel) canon
          l.known_channels v.has_default ne;
    standing =
        remove_from_dir-All libs.unicode (Standing libs.unicode l.removed_channels)
          (Standing libs.unicode (set_insert canon l.removed_channels).0) canon l.known_channels
          (Standing-struck libs.unicode canon l.removed_channels) v.standing;
    mirrored = refl;
    tuned = v.tuned;
    halves = v.halves;
    scheduled = v.scheduled;
    patient = v.patient;
    bounded = v.bounded;
  }

  merged-IsConsistent :
      (l : Loop) (names : List Str)
      → All (Standing libs.unicode l.removed_channels) names
      → IsConsistent libs.unicode (view l)
      → IsConsistent libs.unicode (record (view l) {
        known = (merge_channels libs.unicode l.known_channels names).0;
        dir = (merge_channels libs.unicode l.known_channels names).0;
      })
  merged-IsConsistent l names a v = record {
    directory = merge_channels-IsDirectory libs.unicode l.known_channels names v.directory;
    has_default =
        listed-merge_channels libs.unicode (canon_channel libs.unicode default_channel)
          l.known_channels names v.has_default;
    standing =
        merge_channels-All libs.unicode (Standing libs.unicode l.removed_channels) l.known_channels
          names v.standing a;
    mirrored = refl;
    tuned = v.tuned;
    halves = v.halves;
    scheduled = v.scheduled;
    patient = v.patient;
    bounded = v.bounded;
  }

  pub on_peer_channels-IsConsistent :
      (l : Loop) (names : List Str)
      → IsConsistent libs.unicode (view l)
      → IsConsistent libs.unicode (view (on_peer_channels cfg libs t l names).loop)
  unfolding on_peer_channels
  on_peer_channels-IsConsistent l names v =
      let fresh =
        filter (λ n. not (contains (canon_channel libs.unicode n) l.removed_channels)) names in
      elim (Bool-cases (merge_channels libs.unicode l.known_channels fresh).1) [
        | inl grew ↦ rw grew (
            merged-IsConsistent l fresh (All-Standing-filter libs.unicode l.removed_channels names)
              v)
        | inr same ↦ rw same v
      ]

  pub on_peer_channel_removed-IsConsistent :
      (l : Loop) (name : Str)
      → IsConsistent libs.unicode (view l)
      → IsConsistent libs.unicode (view (on_peer_channel_removed cfg libs t l name).loop)
  unfolding on_peer_channel_removed
  on_peer_channel_removed-IsConsistent l name v =
      let canon = canon_channel libs.unicode name in
      let default = canon_channel libs.unicode default_channel in
      let refused =
        keeps_channel cfg libs t l canon
        || (not (tombstone_allowed libs.unicode canon l.known_channels l.removed_channels)
            || not (set_insert canon l.removed_channels).1) in
      elim (Bool-cases refused) [
        | inl e ↦ rw e v
        | inr e ↦
            let ne : str_eq default canon ≡ false =
              ground (arith, str_eq_iff default canon, str_eq_iff canon default) in
            rw e (strike-IsConsistent l canon ne v)
      ]

  pub remove_channel-IsConsistent :
      (l : Loop) (name : Str)
      → IsConsistent libs.unicode (view l)
      → IsConsistent libs.unicode (view (remove_channel cfg libs t l name).loop)
  unfolding remove_channel
  remove_channel-IsConsistent l name v =
      let canon = canon_channel libs.unicode name in
      let default = canon_channel libs.unicode default_channel in
      elim (Bool-cases (keeps_channel cfg libs t l canon)) [
        | inl e ↦ rw e v
        | inr e ↦
            let ne : str_eq default canon ≡ false =
              ground (arith, str_eq_iff default canon, str_eq_iff canon default) in
            rw e (strike-IsConsistent l canon ne v)
      ]

  -- The channel chosen is not among the removed ones afterwards, and may join the directory.
  pub set_channel-IsConsistent :
      (l : Loop) (name : Str)
      → IsConsistent libs.unicode (view l)
      → IsConsistent libs.unicode (view (set_channel cfg libs t l name).loop)
  unfolding set_channel
  set_channel-IsConsistent l name v =
      let u = libs.unicode in
      let chosen = or_default (libs.codec.take_chars max_channel_len (u.trim name)) in
      let removed = set_remove (canon_channel u chosen) l.removed_channels in
      let l1 = record l {
        my_channel = chosen;
        chan = set_mine l.chan chosen;
        removed_channels = removed;
      } in
      let v1 : IsConsistent u (view l1) = record {
        directory = v.directory;
        has_default = v.has_default;
        standing =
            All-Standing-set_remove u (canon_channel u chosen) l.removed_channels l.known_channels
              v.standing;
        mirrored = v.mirrored;
        tuned = refl;
        halves = v.halves;
        scheduled = v.scheduled;
        patient = v.patient;
        bounded = v.bounded;
      } in
      elim (Bool-cases (merge_channels u l.known_channels (chosen ∷ [])).1) [
        | inl grew ↦ rw grew (
            merged-IsConsistent l1 (chosen ∷ [])
              (contains-set_remove_same u (canon_channel u chosen) l.removed_channels, tt) v1)
        | inr same ↦ rw same v1
      ]
