-- ===== src/Sessions/Tests.antt =====
-- The session store at concrete inputs.
use rdoc_squad_link_lite.Base.{ℕ, ◌≤◌, ◌≡◌, List, [], ◌∷◌, arith, Str, lit, none, Dict, str_eq}
use rdoc_squad_link_lite.Sessions.{Session, new_session, max_attempts, create}
use rdoc_squad_link_lite.Sessions.Lockout.{wrong_pins, Judged, wrong_pins-le-max_attempts}
use rdoc_squad_link_lite.Base.{is_some, true}
use rdoc_squad_link_lite.Sessions.Draws.{create-returns}

abbrev fresh : Session
fresh = new_session (lit "squad-1") none (lit "123456") 1000

abbrev worn : Session
worn = record fresh { attempts = 5 }

abbrev one_session : Dict Session
one_session = (lit "abc", fresh) ∷ []

abbrev guesses : List (Str × ℕ)
guesses = (lit "000000", 2000) ∷ (lit "123456", 2001) ∷ (lit "000001", 2599) ∷ []

wrong_pins-le-max_attempts_example :
    (wrong_pins worn guesses ≤ max_attempts) × Judged worn worn guesses
wrong_pins-le-max_attempts_example =
    wrong_pins-le-max_attempts 2000 worn guesses (omega arith) (omega arith)

create-returns_example :
    is_some (create (λ _. none) (lit "00") 7 (lit "abc" ∷ lit "abc" ∷ lit "abd" ∷ []) 5 one_session)
    ≡ true
unfolding str_eq
create-returns_example =
    create-returns (λ _. none) (lit "00") 7 (lit "abc" ∷ lit "abc" ∷ lit "abd" ∷ []) 5 one_session
      (omega arith)
