-- ===== src/Engine/Loop/Reconnect/Backoff.antt =====
-- The waits between attempts to reconnect.
use rdoc_squad_link_lite.Base.{
  ℕ, suc, ◌+◌, ◌*◌, ◌^◌, min, ◌≡◌, refl, List, [], ◌∷◌, Str, ap, ◌∙◌, length, arith,
}
use rdoc_squad_link_lite.Engine.Loop.{Loop}
use rdoc_squad_link_lite.Engine.Loop.Reconnect.{on_lost, on_failed}

-- Attempts that fail, each with its time and its error.
unfoldable pub fail_each : Loop → List (ℕ × Str) → Loop
fail_each l [] = l
fail_each l ((now, e) ∷ failures) = fail_each (on_failed now e l).loop failures

double_pow : (n : ℕ) → 2 ^ suc n ≡ 2 ^ n * 2
double_pow n = omega arith

capped : (a b k : ℕ) → b ≡ a * 2 → min (min a 30 * 2) 30 ≡ min b 30
capped a b k h = omega arith

suc_append : (n k : ℕ) → suc n + k ≡ n + suc k
suc_append n k = omega arith

none_before : (k : ℕ) → 0 + k ≡ k
none_before k = omega arith

fail_each-backoff :
    (l : Loop) (n : ℕ) (failures : List (ℕ × Str))
    → l.backoff ≡ min (2 ^ suc n) 30
    → (fail_each l failures).backoff ≡ min (2 ^ suc (n + length failures)) 30
unfolding fail_each on_failed
fail_each-backoff l n [] h = h ∙ ap (λ k. min (2 ^ suc k) 30) (omega arith)
fail_each-backoff l n ((now, e) ∷ failures) h =
    let l' = (on_failed now e l).loop in
    let next : l'.backoff ≡ min (2 ^ suc (suc n)) 30 =
      ap (λ b. min (b * 2) 30) h ∙ capped (2 ^ suc n) (2 ^ suc (suc n)) 0 (double_pow (suc n)) in
    fail_each-backoff l' (suc n) failures next
    ∙ ap (λ k. min (2 ^ suc k) 30) (suc_append n (length failures))

-- After the connection is lost and n attempts in a row have failed, whatever the times and the
-- errors, the wait is 2 to the power of n + 1 seconds, but 30 at most.
pub on_lost-fail_each :
    (now : ℕ) (l : Loop) (failures : List (ℕ × Str))
    → (fail_each (on_lost now l).loop failures).backoff ≡ min (2 ^ suc (length failures)) 30
unfolding on_lost
on_lost-fail_each now l failures =
    fail_each-backoff (on_lost now l).loop 0 failures refl
    ∙ ap (λ k. min (2 ^ suc k) 30) (none_before (length failures))
