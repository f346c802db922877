-- ===== src/Sessions/Lockout.antt =====
-- How many wrong PINs a share code answers, and that the lock lifts.
use rdoc_squad_link_lite.Base.{
  ℕ, suc, ◌+◌, ◌-◌, ◌≤◌, ◌<◌, ◌≡◌, refl, sym, ◌∙◌, Bool-cases, inl, inr, str_eq_sound, List, [],
  ◌∷◌, arith, Str, ltb, leb, if◌then◌else◌, u64_max, ◌≢◌, ◌&&◌, str_eq, str_eq_iff,
  saturating_add_u64,
}
use rdoc_squad_link_lite.ConstantTime.{ct_eq-str_eq}
use rdoc_squad_link_lite.Sessions.{
  Session, JoinResult, joined, not_found, locked, bad_pin, guess, max_attempts, lock_secs,
}

abbrev pub wrong : JoinResult → ℕ
wrong bad_pin = 1
wrong _ = 0

-- The wrong PINs among a series of guesses at one session, each at its time.
pub wrong_pins : Session → List (Str × ℕ) → ℕ
wrong_pins s [] = 0
wrong_pins s ((pin, t) ∷ gs) = let (s', r) = guess s pin t in wrong r + wrong_pins s' gs

-- The guesses left in the window that starts at `t0`.
abbrev budget : ℕ → Session → ℕ
budget t0 s =
    if ltb s.attempts max_attempts
    then max_attempts - s.attempts
    else if leb t0 s.locked_at
    then 0
    else max_attempts

abbrev pub Within : ℕ → List (Str × ℕ) → Type 0
Within t0 [] = Unit
Within t0 ((pin, t) ∷ gs) = (t0 ≤ t) × (t < t0 + lock_secs) × Within t0 gs

guess-budget :
    (t0 : ℕ) (s : Session) (pin : Str) (t : ℕ)
    → t0 + lock_secs ≤ u64_max
    → t0 ≤ t
    → t < t0 + lock_secs
    → wrong (guess s pin t).1 + budget t0 (guess s pin t).0 ≤ budget t0 s
unfolding guess
guess-budget t0 s pin t h p q = ground arith

wrong_pins-budget :
    (t0 : ℕ) (s : Session) (gs : List (Str × ℕ))
    → t0 + lock_secs ≤ u64_max
    → Within t0 gs
    → wrong_pins s gs ≤ budget t0 s
unfolding wrong_pins
wrong_pins-budget t0 s [] h w = omega arith
wrong_pins-budget t0 s ((pin, t) ∷ gs) h w =
    omega
      (arith, guess-budget t0 s pin t h w.0 w.1, wrong_pins-budget t0 (guess s pin t).0 gs h w.2)

-- A guess finds the code locked, the right PIN or a wrong one, in this order of tests.
pub guess_outcome :
    (s : Session) (pin : Str) (t : ℕ)
    → (guess s pin t).1 ≡ (
        if leb max_attempts s.attempts && ltb t (saturating_add_u64 s.locked_at lock_secs)
        then locked
        else if str_eq s.pin pin
        then joined s.room s.token
        else bad_pin)
unfolding guess
guess_outcome s pin t = ground (arith, ct_eq-str_eq s.pin pin)

-- What a guess at the session `s`, which was `s0` before all guesses, may be told.
abbrev pub Verdict : Session → Session → Str → ℕ → JoinResult → Type 0
Verdict s0 s pin t (joined room token) = (s0.pin ≡ pin) × (room ≡ s0.room) × (token ≡ s0.token)
Verdict s0 s pin t not_found = ⊥
Verdict s0 s pin t locked =
    (max_attempts ≤ s.attempts) × (t < saturating_add_u64 s.locked_at lock_secs)
Verdict s0 s pin t bad_pin = s0.pin ≢ pin

abbrev pub Judged : Session → Session → List (Str × ℕ) → Type 0
Judged s0 s [] = Unit
Judged s0 s ((pin, t) ∷ gs) = Verdict s0 s pin t (guess s pin t).1 × Judged s0 (guess s pin t).0 gs

-- A session with the same PIN, room and token.
abbrev Alike : Session → Session → Type 0
Alike s0 s = (s0.pin ≡ s.pin) × (s0.room ≡ s.room) × (s0.token ≡ s.token)

guess-Alike : (s0 s : Session) (pin : Str) (t : ℕ) → Alike s0 s → Alike s0 (guess s pin t).0
unfolding guess
guess-Alike s0 s pin t h = (ground (arith, h), ground (arith, h), ground (arith, h))

guess-Verdict :
    (s0 s : Session) (pin : Str) (t : ℕ) → Alike s0 s → Verdict s0 s pin t (guess s pin t).1
guess-Verdict s0 s pin t h =
    elim (Bool-cases
      (leb max_attempts s.attempts && ltb t (saturating_add_u64 s.locked_at lock_secs))) [
        | inl shut ↦ rw (guess_outcome s pin t, shut) (ground (arith, shut), ground (arith, shut))
        | inr unlocked ↦ elim (Bool-cases (str_eq s.pin pin)) [
          | inl same ↦
              rw (guess_outcome s pin t, unlocked, same)
                (h.0 ∙ str_eq_sound s.pin pin same, sym h.1, sym h.2)
          | inr other ↦
              rw (guess_outcome s pin t, unlocked, other)
                (λ e. ground (arith, other, str_eq_iff s.pin pin, sym h.0 ∙ e))
        ]
      ]

guesses-Judged : (s0 s : Session) (gs : List (Str × ℕ)) → Alike s0 s → Judged s0 s gs
guesses-Judged s0 s [] h = tt
guesses-Judged s0 s ((pin, t) ∷ gs) h =
    (guess-Verdict s0 s pin t h, guesses-Judged s0 (guess s pin t).0 gs (guess-Alike s0 s pin t h))

-- Within any span of `lock_secs` seconds, whatever the session's state at its start and whatever is
-- guessed in it, at most `max_attempts` guesses are told that their PIN is wrong. Each of those is
-- wrong; the others have the right PIN and get the session's room and token, or find the attempts
-- used up and the lock not run out.
pub wrong_pins-le-max_attempts :
    (t0 : ℕ) (s : Session) (gs : List (Str × ℕ))
    → t0 + lock_secs ≤ u64_max
    → Within t0 gs
    → (wrong_pins s gs ≤ max_attempts) × Judged s s gs
wrong_pins-le-max_attempts t0 s gs h w =
    (ground (arith, wrong_pins-budget t0 s gs h w), guesses-Judged s s gs (refl, refl, refl))

-- The wrong PIN that uses the last attempt locks the code for `lock_secs` seconds from then on, for
-- the right PIN too; after them every PIN is compared again.
pub guess_after_lock :
    (s : Session) (wrong_pin pin : Str) (t u : ℕ)
    → suc s.attempts ≡ max_attempts
    → s.pin ≢ wrong_pin
    → t + lock_secs ≤ u64_max
    → (guess (guess s wrong_pin t).0 pin u).1 ≡ (
        if ltb u (t + lock_secs)
        then locked
        else if str_eq s.pin pin
        then joined s.room s.token
        else bad_pin)
unfolding guess
guess_after_lock s wrong_pin pin t u a n h =
    ground (arith, ct_eq-str_eq s.pin pin, ct_eq-str_eq s.pin wrong_pin, str_eq_iff s.pin wrong_pin)
