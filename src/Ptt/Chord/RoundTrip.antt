-- ===== src/Ptt/Chord/RoundTrip.antt =====
-- A chord that was built reads back.
use rdoc_squad_link_lite.Base.{
  ℕ, zero, suc, ◌≡◌, ◌≢◌, refl, Bool, true, false, [], ◌∷◌, ◌++◌, none, Str, lit, arith, All,
  length, str_eq,
}
use rdoc_squad_link_lite.Ptt.Chord.{Mods, plus, split_once, parse_from, parse_binding, build_combo}

split_once-none : (s : Str) → All (λ c. c ≢ plus) s → split_once s ≡ none
unfolding split_once
split_once-none [] h = refl
split_once-none (c ∷ s) h = ground (arith, h.0, split_once-none s h.1)

stops :
    (fuel : ℕ) (m : Mods) (base : Str)
    → All (λ c. c ≢ plus) base
    → parse_from fuel m base ≡ (m, base)
unfolding parse_from
stops zero m base h = refl
stops (suc fuel) m base h = rw (split_once-none base h, parse_from) refl

built :
    (shift ctrl alt meta : Bool) (base : Str)
    → All (λ c. c ≢ plus) base
    → let m : Mods = record { shift = shift; ctrl = ctrl; alt = alt; meta = meta } in
      parse_binding (build_combo base m) ≡ (m, base)
unfolding parse_binding build_combo split_once parse_from str_eq
built false false false false base h =
    stops (length base) (record { shift = false; ctrl = false; alt = false; meta = false }) base h
built false false false true base h =
    stops (length (lit "Meta" ++ base))
      (record { shift = false; ctrl = false; alt = false; meta = true }) base h
built false false true false base h =
    stops (length (lit "Alt" ++ base))
      (record { shift = false; ctrl = false; alt = true; meta = false }) base h
built false false true true base h =
    stops (length (lit "AltMeta" ++ base))
      (record { shift = false; ctrl = false; alt = true; meta = true }) base h
built false true false false base h =
    stops (length (lit "Ctrl" ++ base))
      (record { shift = false; ctrl = true; alt = false; meta = false }) base h
built false true false true base h =
    stops (length (lit "CtrlMeta" ++ base))
      (record { shift = false; ctrl = true; alt = false; meta = true }) base h
built false true true false base h =
    stops (length (lit "CtrlAlt" ++ base))
      (record { shift = false; ctrl = true; alt = true; meta = false }) base h
built false true true true base h =
    stops (length (lit "CtrlAltMeta" ++ base))
      (record { shift = false; ctrl = true; alt = true; meta = true }) base h
built true false false false base h =
    stops (length (lit "Shift" ++ base))
      (record { shift = true; ctrl = false; alt = false; meta = false }) base h
built true false false true base h =
    stops (length (lit "ShiftMeta" ++ base))
      (record { shift = true; ctrl = false; alt = false; meta = true }) base h
built true false true false base h =
    stops (length (lit "AltShift" ++ base))
      (record { shift = true; ctrl = false; alt = true; meta = false }) base h
built true false true true base h =
    stops (length (lit "AltShiftMeta" ++ base))
      (record { shift = true; ctrl = false; alt = true; meta = true }) base h
built true true false false base h =
    stops (length (lit "CtrlShift" ++ base))
      (record { shift = true; ctrl = true; alt = false; meta = false }) base h
built true true false true base h =
    stops (length (lit "CtrlShiftMeta" ++ base))
      (record { shift = true; ctrl = true; alt = false; meta = true }) base h
built true true true false base h =
    stops (length (lit "CtrlAltShift" ++ base))
      (record { shift = true; ctrl = true; alt = true; meta = false }) base h
built true true true true base h =
    stops (length (lit "CtrlAltShiftMeta" ++ base))
      (record { shift = true; ctrl = true; alt = true; meta = true }) base h

-- What a captured chord stands for: with a base key without a plus sign, the label that is built
-- from held modifiers and the key reads back as these modifiers and this key.
pub parse_binding-build_combo :
    (m : Mods) (base : Str)
    → All (λ c. c ≢ plus) base
    → parse_binding (build_combo base m) ≡ (m, base)
parse_binding-build_combo m base h = built m.shift m.ctrl m.alt m.meta base h
