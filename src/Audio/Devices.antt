-- ===== src/Audio/Devices.antt =====
-- apps/companion-core/src/audio.rs: `run_devices`, the streams of the microphone and the speaker, and
-- their change while they run. What cpal answers is an argument.
use rdoc_squad_link_lite.Base.{
  ℕ, Bool, true, false, List, [], ◌∷◌, Option, none, some, Str, if◌then◌else◌, find,
}

pub data DevCmd : Type 0 where
  set_input set_output : Option Str → DevCmd

-- A device: its number and its rate.
pub record Picked : Type 0 where
  pub device : ℕ
  pub rate : ℕ

-- The devices with their names, where they can be read, and the default; `picked` is the default
-- configuration of a device, `starts` whether its stream can be built and played.
pub record Host : Type 0 where
  pub devices : Bool → Option (List (Option Str × ℕ))
  pub default_device : Bool → Option ℕ
  pub picked : Bool → ℕ → Option Picked
  pub starts : Bool → ℕ → Bool
  pub env : Bool → Option Str
  pub name_contains : Str → Str → Bool

pub record Streams : Type 0 where
  pub input : ℕ
  pub output : ℕ
  pub in_rate : ℕ
  pub out_rate : ℕ

module _ (host : Host) where
  abbrev pub named : Str → Option Str × ℕ → Bool
  named want (none, d) = false
  named want (some name, d) = host.name_contains name want

  abbrev pub second : Option (Option Str × ℕ) → Option ℕ
  second none = none
  second (some (name, d)) = some d

  abbrev pub wanted : Bool → Option Str → List (Option Str × ℕ) → Option ℕ
  wanted input none devs = host.default_device input
  wanted input (some []) devs = host.default_device input
  wanted input (some (c ∷ w)) devs = second (find (named (c ∷ w)) devs)

  unfoldable pub choose : Bool → Option Str → Option Picked
  choose input want = elim (host.devices input) [
    | none ↦ none
    | some devs ↦ elim (wanted input want devs) [ none ↦ none | some d ↦ host.picked input d ]
  ]

  abbrev pub or_env : Bool → Option Str → Option Str
  or_env input none = host.env input
  or_env input (some name) = some name

  -- A device whose stream runs.
  abbrev pub started : Bool → Option Picked → Option Picked
  started input none = none
  started input (some p) = if host.starts input p.device then some p else none

  unfoldable pub on_dev_cmd : DevCmd → Streams → Streams
  on_dev_cmd (set_input name) s = elim (started true (choose true (or_env true name))) [
    | none ↦ s
    | some p ↦ record s { input = p.device; in_rate = p.rate }
  ]
  on_dev_cmd (set_output name) s = elim (started false (choose false (or_env false name))) [
    | none ↦ s
    | some p ↦ record s { output = p.device; out_rate = p.rate }
  ]
