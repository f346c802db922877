-- ===== src/Engine/Channels/Directory.antt =====
-- The directory after any run of announcements and removals.
use rdoc_squad_link_lite.Base.{
  ◌≤◌, ◌≡◌, refl, Bool, false, not, ◌||◌, List, [], ◌∷◌, ◌++◌, Str, str_eq, str_eq_iff, leb, arith,
  length, length-append, length-filter-le, filter, All, Bool-cases, inl, inr,
}
use rdoc_squad_link_lite.Engine.Channels.{
  Unicode, max_channels, is_empty, canon_channel, listed, merge_channels, remove_from_dir, skips,
}

-- What the peers and the user do to the directory.
pub data Change : Type 0 where
  announced : List Str → Change
  removed : Str → Change

module _ (u : Unicode) where
  -- No canonical name stands twice.
  abbrev pub Unlike : List Str → Type 0
  Unlike [] = Unit
  Unlike (d ∷ dir) = (listed u (canon_channel u d) dir ≡ false) × Unlike dir

  pub record IsDirectory (dir : List Str) : Type 0 where
    pub bounded : length dir ≤ max_channels
    pub unlike : Unlike dir
    pub named : All (λ d. is_empty (canon_channel u d) ≡ false) dir

  pub listed-append :
      (k name : Str) (dir : List Str)
      → listed u k (dir ++ name ∷ []) ≡ (listed u k dir || str_eq (canon_channel u name) k)
  listed-append k name [] = ground arith
  listed-append k name (d ∷ dir) = ground (arith, listed-append k name dir)

  Unlike-append :
      (dir : List Str) (name : Str)
      → listed u (canon_channel u name) dir ≡ false
      → Unlike dir
      → Unlike (dir ++ name ∷ [])
  Unlike-append [] name h q = (refl, tt)
  Unlike-append (d ∷ dir) name h q = (
    ground (
      arith,
      listed-append (canon_channel u d) name dir,
      q.0,
      str_eq_iff (canon_channel u d) (canon_channel u name),
      str_eq_iff (canon_channel u name) (canon_channel u d),
    ),
    Unlike-append dir name (ground arith) q.1,
  )

  pub All-append :
      (P : Str → Type 0) (dir : List Str) (name : Str)
      → All P dir
      → P name
      → All P (dir ++ name ∷ [])
  All-append P [] name h p = (p, tt)
  All-append P (d ∷ dir) name h p = (h.0, All-append P dir name h.1 p)

  pub merge_channels-IsDirectory :
      (dir add : List Str) → IsDirectory dir → IsDirectory (merge_channels u dir add).0
  unfolding merge_channels
  merge_channels-IsDirectory dir [] v = v
  merge_channels-IsDirectory dir (name ∷ add) v =
      let k = canon_channel u name in
      elim (Bool-cases (leb max_channels (length dir))) [
        | inl full ↦ rw (full, merge_channels) v
        | inr room ↦ elim (Bool-cases (skips u dir name)) [
          | inl skip ↦ rw (room, skip, merge_channels) (merge_channels-IsDirectory dir add v)
          | inr new ↦
              rw (room, new, merge_channels)
                (merge_channels-IsDirectory (dir ++ name ∷ []) add (record {
                  bounded = ground (arith, length-append dir (name ∷ []), v.bounded);
                  unlike = Unlike-append dir name (ground arith) v.unlike;
                  named =
                      All-append (λ d. is_empty (canon_channel u d) ≡ false) dir name v.named
                        (ground arith);
                }))
        ]
      ]

  listed-filter :
      (k : Str) (p : Str → Bool) (dir : List Str)
      → listed u k dir ≡ false
      → listed u k (filter p dir) ≡ false
  listed-filter k p [] h = refl
  listed-filter k p (d ∷ dir) h = ground (arith, listed-filter k p dir)

  Unlike-filter : (p : Str → Bool) (dir : List Str) → Unlike dir → Unlike (filter p dir)
  Unlike-filter p [] h = tt
  Unlike-filter p (d ∷ dir) h = elim (Bool-cases (p d)) [
    | inl e ↦ rw e (listed-filter (canon_channel u d) p dir h.0, Unlike-filter p dir h.1)
    | inr e ↦ rw e (Unlike-filter p dir h.1)
  ]

  pub All-filter :
      (P : Str → Type 0) (p : Str → Bool) (dir : List Str) → All P dir → All P (filter p dir)
  All-filter P p [] h = tt
  All-filter P p (d ∷ dir) h = elim (Bool-cases (p d)) [
    | inl e ↦ rw e (h.0, All-filter P p dir h.1)
    | inr e ↦ rw e (All-filter P p dir h.1)
  ]

  pub remove_from_dir-IsDirectory :
      (dir : List Str) (canon : Str) → IsDirectory dir → IsDirectory (remove_from_dir u dir canon).0
  unfolding remove_from_dir
  remove_from_dir-IsDirectory dir canon v =
      let p : Str → Bool = λ d. not (str_eq (canon_channel u d) canon) in
      record {
        bounded = omega (arith, length-filter-le p dir, v.bounded);
        unlike = Unlike-filter p dir v.unlike;
        named = All-filter (λ d. is_empty (canon_channel u d) ≡ false) p dir v.named;
      }

  pub run : List Str → List Change → List Str
  run dir [] = dir
  run dir (announced add ∷ changes) = run (merge_channels u dir add).0 changes
  run dir (removed canon ∷ changes) = run (remove_from_dir u dir canon).0 changes

  -- Whatever is announced and removed, the directory has at most max_channels names, none of them
  -- blank, and no two with the same canonical form.
  pub run-IsDirectory :
      (dir : List Str) (changes : List Change) → IsDirectory dir → IsDirectory (run dir changes)
  unfolding run
  run-IsDirectory dir [] v = v
  run-IsDirectory dir (announced add ∷ changes) v =
      run-IsDirectory (merge_channels u dir add).0 changes (merge_channels-IsDirectory dir add v)
  run-IsDirectory dir (removed canon ∷ changes) v =
      run-IsDirectory (remove_from_dir u dir canon).0 changes
        (remove_from_dir-IsDirectory dir canon v)
