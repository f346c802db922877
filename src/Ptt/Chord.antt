-- ===== src/Ptt/Chord.antt =====
-- apps/companion/src-tauri/src/lib.rs: chords, `Mods`, `parse_binding` and `build_combo`.
pub mod RoundTrip
use rdoc_squad_link_lite.Base.{
  ℕ, zero, suc, Bool, true, false, not, ◌&&◌, ◌||◌, List, [], ◌∷◌, ◌++◌, Option, none, some, Str,
  lit, str_eq, ◌==◌, if◌then◌else◌, length,
}

pub record Mods : Type 0 where
  pub shift : Bool
  pub ctrl : Bool
  pub alt : Bool
  pub meta : Bool

-- The strings that `mod_of_label` returns.
pub data Modifier : Type 0 where
  shift_key ctrl_key alt_key meta_key : Modifier

unfoldable pub mod_of_label : Str → Option Modifier
mod_of_label code =
    if str_eq code (lit "ShiftLeft") || str_eq code (lit "ShiftRight")
    then some shift_key
    else if str_eq code (lit "ControlLeft") || str_eq code (lit "ControlRight")
    then some ctrl_key
    else if str_eq code (lit "Alt") || str_eq code (lit "AltGr")
    then some alt_key
    else if str_eq code (lit "MetaLeft") || str_eq code (lit "MetaRight")
    then some meta_key
    else none

unfoldable pub mods_ok : Mods → Mods → Bool
mods_ok req held =
    (not req.shift || held.shift)
    && ((not req.ctrl || held.ctrl) && ((not req.alt || held.alt) && (not req.meta || held.meta)))

abbrev pub plus : ℕ
plus = 43

abbrev pub before_plus : ℕ → Option (Str × Str) → Option (Str × Str)
before_plus c none = none
before_plus c (some (tok, r)) = some (c ∷ tok, r)

-- `split_once('+')`.
unfoldable pub split_once : Str → Option (Str × Str)
split_once [] = none
split_once (c ∷ s) =
    let rest = split_once s in if c == plus then some ([], s) else before_plus c rest

abbrev pub modifier_token : Str → Option Modifier
modifier_token tok =
    if str_eq tok (lit "Shift")
    then some shift_key
    else if str_eq tok (lit "Ctrl")
    then some ctrl_key
    else if str_eq tok (lit "Alt")
    then some alt_key
    else if str_eq tok (lit "Meta")
    then some meta_key
    else none

abbrev pub set_mod : Modifier → Bool → Mods → Mods
set_mod shift_key b m = record m { shift = b }
set_mod ctrl_key b m = record m { ctrl = b }
set_mod alt_key b m = record m { alt = b }
set_mod meta_key b m = record m { meta = b }

abbrev pub no_mods : Mods
no_mods = record { shift = false; ctrl = false; alt = false; meta = false }

-- The loop of `parse_binding`. Each round takes at least one byte off, so the length is fuel enough.
unfoldable pub parse_from : ℕ → Mods → Str → Mods × Str
parse_from zero m rest = (m, rest)
parse_from (suc fuel) m rest = elim (split_once rest) [
  | none ↦ (m, rest)
  | some (tok, r) ↦ elim (modifier_token tok) [
    | none ↦ (m, rest)
    | some key ↦ parse_from fuel (set_mod key true m) r
  ]
]

unfoldable pub parse_binding : Str → Mods × Str
unfolding parse_from
parse_binding s = parse_from (length s) no_mods s

abbrev pub prefix : Bool → Str → Str → Str
prefix false name s = s
prefix true name s = name ++ s

unfoldable pub build_combo : Str → Mods → Str
build_combo base m =
    prefix m.ctrl (lit "Ctrl+")
      (prefix m.alt (lit "Alt+") (prefix m.shift (lit "Shift+") (prefix m.meta (lit "Meta+") base)))
