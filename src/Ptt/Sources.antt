-- ===== src/Ptt/Sources.antt =====
-- apps/companion/src-tauri/src/lib.rs: `PttSources`, the transmit state merged from the keys and the
-- control API.
use rdoc_squad_link_lite.Base.{
  ◌≡◌, refl, Bool, true, false, not, ◌||◌, List, [], ◌∷◌, Option, none, some, arith, if◌then◌else◌,
  Bool-cases, inl, inr, sym, subst,
}

pub record PttSources : Type 0 where
  pub key : Bool
  pub ctl : Bool
  pub emitted : Bool

abbrev pub new : PttSources
new = record { key = false; ctl = false; emitted = false }

abbrev pub or_kept : Option Bool → Bool → Bool
or_kept none kept = kept
or_kept (some b) kept = b

abbrev pub same : Bool → Bool → Bool
same true b = b
same false b = not b

unfoldable pub update : PttSources → Option Bool → Option Bool → PttSources × Option Bool
update s key ctl =
    let k = or_kept key s.key in
    let c = or_kept ctl s.ctl in
    let combined = k || c in
    if same combined s.emitted
    then (record { key = k; ctl = c; emitted = s.emitted }, none)
    else (record { key = k; ctl = c; emitted = combined }, some combined)

-- The edges that the webview is told of.
abbrev pub cons_some : Option Bool → List Bool → List Bool
cons_some none edges = edges
cons_some (some b) edges = b ∷ edges

unfoldable pub run : PttSources → List (Option Bool × Option Bool) → PttSources × List Bool
run s [] = (s, [])
run s ((key, ctl) ∷ changes) =
    let (s', edge) = update s key ctl in
    let (t, edges) = run s' changes in (t, cons_some edge edges)

-- Each edge differs from the state before it, which is `last` for the first one, and after the last
-- edge the state is `now`.
pub Alternates : Bool → List Bool → Bool → Type 0
Alternates last [] now = last ≡ now
Alternates last (b ∷ edges) now = (same b last ≡ false) × Alternates b edges now

update-Alternates :
    (s : PttSources) (key ctl : Option Bool) (edges : List Bool) (now : Bool)
    → Alternates (update s key ctl).0.emitted edges now
    → Alternates s.emitted (cons_some (update s key ctl).1 edges) now
unfolding update Alternates
update-Alternates s key ctl edges now h =
    let combined = or_kept key s.key || or_kept ctl s.ctl in
    elim (Bool-cases (same combined s.emitted)) [
      | inl e ↦
          let kept : (update s key ctl).0.emitted ≡ s.emitted = rw (e, update) refl in
          rw e (subst (λ b. Alternates b edges now) kept h)
      | inr e ↦
          let changed : (update s key ctl).0.emitted ≡ combined = rw (e, update) refl in
          rw e (e, subst (λ b. Alternates b edges now) changed h)
    ]

same_eq : (b c : Bool) → same b c ≡ true → b ≡ c
same_eq b c h = ground arith

settled-update :
    (s : PttSources) (key ctl : Option Bool)
    → (update s key ctl).0.emitted ≡ ((update s key ctl).0.key || (update s key ctl).0.ctl)
unfolding update
settled-update s key ctl =
    let combined = or_kept key s.key || or_kept ctl s.ctl in
    elim (Bool-cases (same combined s.emitted)) [
      | inl e ↦ rw (e, update) (sym (same_eq combined s.emitted e))
      | inr e ↦ rw (e, update) refl
    ]

run_from :
    (s : PttSources) (changes : List (Option Bool × Option Bool))
    → s.emitted ≡ (s.key || s.ctl)
    → let (t, edges) = run s changes in Alternates s.emitted edges (t.key || t.ctl)
unfolding run Alternates
run_from s [] h = h
run_from s ((key, ctl) ∷ changes) h =
    let (s', edge) = update s key ctl in
    let (t, edges) = run s' changes in
    update-Alternates s key ctl edges (t.key || t.ctl)
      (run_from s' changes (settled-update s key ctl))

-- Whatever the sources do, the webview hears alternating edges, the first one a press, and the last
-- one tells it whether a source holds now.
pub run-Alternates :
    (changes : List (Option Bool × Option Bool))
    → let (s, edges) = run new changes in Alternates false edges (s.key || s.ctl)
run-Alternates changes = run_from new changes refl
