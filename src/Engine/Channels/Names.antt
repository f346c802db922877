-- ===== src/Engine/Channels/Names.antt =====
-- What happens to the names of the directory when names are merged and removed.
use rdoc_squad_link_lite.Base.{
  ◌≡◌, true, false, List, [], ◌∷◌, ◌++◌, Str, str_eq, str_eq_iff, leb, arith, length, All,
  Bool-cases, inl, inr,
}
use rdoc_squad_link_lite.Engine.Channels.{
  Unicode, max_channels, canon_channel, listed, merge_channels, remove_from_dir, skips,
}
use rdoc_squad_link_lite.Engine.Channels.Directory.{All-append, listed-append}

module _ (u : Unicode) where
  pub merge_channels-All :
      (P : Str → Type 0) (dir add : List Str)
      → All P dir
      → All P add
      → All P (merge_channels u dir add).0
  unfolding merge_channels
  merge_channels-All P dir [] h a = h
  merge_channels-All P dir (name ∷ add) h a = elim (Bool-cases (leb max_channels (length dir))) [
    | inl full ↦ rw (full, merge_channels) h
    | inr room ↦ elim (Bool-cases (skips u dir name)) [
      | inl skip ↦ rw (room, skip, merge_channels) (merge_channels-All P dir add h a.1)
      | inr new ↦
          rw (room, new, merge_channels)
            (merge_channels-All P (dir ++ name ∷ []) add (All-append u P dir name h a.0) a.1)
    ]
  ]

  pub listed-merge_channels :
      (k : Str) (dir add : List Str)
      → listed u k dir ≡ true
      → listed u k (merge_channels u dir add).0 ≡ true
  unfolding merge_channels
  listed-merge_channels k dir [] h = h
  listed-merge_channels k dir (name ∷ add) h = elim (Bool-cases (leb max_channels (length dir))) [
    | inl full ↦ rw (full, merge_channels) h
    | inr room ↦ elim (Bool-cases (skips u dir name)) [
      | inl skip ↦ rw (room, skip, merge_channels) (listed-merge_channels k dir add h)
      | inr new ↦
          let still : listed u k (dir ++ name ∷ []) ≡ true =
            ground (arith, listed-append u k name dir) in
          rw (room, new, merge_channels) (listed-merge_channels k (dir ++ name ∷ []) add still)
    ]
  ]

  pub listed-remove_from_dir :
      (k canon : Str) (dir : List Str)
      → listed u k dir ≡ true
      → str_eq k canon ≡ false
      → listed u k (remove_from_dir u dir canon).0 ≡ true
  unfolding remove_from_dir
  listed-remove_from_dir k canon [] h ne = h
  listed-remove_from_dir k canon (d ∷ dir) h ne = ground (
    arith,
    listed-remove_from_dir k canon dir,
    str_eq_iff (canon_channel u d) k,
    str_eq_iff (canon_channel u d) canon,
    str_eq_iff k canon,
  )

  pub remove_from_dir-All :
      (P Q : Str → Type 0) (canon : Str) (dir : List Str)
      → ((d : Str) → P d → str_eq (canon_channel u d) canon ≡ false → Q d)
      → All P dir
      → All Q (remove_from_dir u dir canon).0
  unfolding remove_from_dir
  remove_from_dir-All P Q canon [] f h = tt
  remove_from_dir-All P Q canon (d ∷ dir) f h =
      elim (Bool-cases (str_eq (canon_channel u d) canon)) [
        | inl e ↦ rw e (remove_from_dir-All P Q canon dir f h.1)
        | inr e ↦ rw e (f d h.0 e, remove_from_dir-All P Q canon dir f h.1)
      ]
