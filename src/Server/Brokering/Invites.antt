-- ===== src/Server/Brokering/Invites.antt =====
-- From the answer to the one who makes a session to the answer to the one who joins it.
use rdoc_squad_link_lite.Base.{
  ℕ, ◌≡◌, refl, Bool, true, false, any, List, ◌++◌, Option, none, some, Str, lit, Option-cases, inl,
  inr, Bool-cases, if◌then◌else◌, Dict, insert,
}
use rdoc_squad_link_lite.Sessions.{Session, create, fresh_code, rand_pin, new_session}
use rdoc_squad_link_lite.Sessions.Store.{is_free, join_at-new_session, fresh_code-none}
use rdoc_squad_link_lite.Server.RateLimit.{Entry, allow, rl_window, rl_join_max, rl_create_max}
use rdoc_squad_link_lite.Server.Relay.{len_ok}
use rdoc_squad_link_lite.Server.Brokering.{
  Site, Broker, Request, Response, session_created, session_joined, rate_limited, no_session,
  session_locked, wrong_pin, create_session, join_session, client_ip, max_code, max_pin,
}

-- What `join_session` answers to the code and the PIN that `create_session` gave out.
abbrev pub welcome : Site → Bool → Bool → Str → Option Str → Response
welcome site ok short room token =
    if ok then if short then session_joined room token site.ws else no_session else rate_limited

abbrev pub Invites :
    Site
    → List Str
    → Broker
    → Dict Entry × Bool
    → ℕ
    → ℕ
    → Request
    → Option (Broker × Response)
    → Type 0
Invites site draws b limit later u guest none =
    (limit.1 ≡ true) × (any (is_free b.sessions) draws ≡ false)
Invites site draws b limit later u guest (some (b', session_created code pin room token ws link)) =
    (limit.1 ≡ true)
    × (b'.rate ≡ limit.0)
    × ((join_session site code (some pin) later u guest b').1
        ≡ welcome site (allow later (client_ip site.trim guest) rl_join_max rl_window b'.rate).1
            (len_ok code max_code) room token)
    × (token ≡ site.auth_token_for room)
    × (link ≡ site.base ++ lit "/j/" ++ code)
Invites site draws b limit later u guest (some (b', rate_limited)) =
    (limit.1 ≡ false) × (b'.rate ≡ limit.0) × (b'.sessions ≡ b.sessions)
Invites site draws b limit later u guest (some (b', session_joined room token ws)) = ⊥
Invites site draws b limit later u guest (some (b', no_session)) = ⊥
Invites site draws b limit later u guest (some (b', session_locked)) = ⊥
Invites site draws b limit later u guest (some (b', wrong_pin)) = ⊥

len_ok-rand_pin : (n : ℕ) → len_ok (rand_pin n) max_pin ≡ true
unfolding rand_pin
len_ok-rand_pin n = refl

join_session-new_session :
    (site : Site) (code room : Str) (token : Option Str) (n t later u : ℕ) (guest : Request)
    (sessions : Dict Session) (rate : Dict Entry)
    → (join_session site code (some (rand_pin n)) later u guest (record {
      sessions = insert code (new_session room token (rand_pin n) t) sessions;
      rate = rate;
    })).1
      ≡ welcome site
          (allow later (client_ip site.trim guest) rl_join_max rl_window rate).1
          (len_ok code max_code)
          room
          token
unfolding join_session
join_session-new_session site code room token n t later u guest sessions rate =
    elim (Bool-cases (allow later (client_ip site.trim guest) rl_join_max rl_window rate).1) [
      | inr e ↦ rw e refl
      | inl e ↦ elim (Bool-cases (len_ok code max_code)) [
        | inr short ↦ rw (e, short) refl
        | inl short ↦
            rw
              (
                e,
                short,
                len_ok-rand_pin n,
                join_at-new_session sessions code (rand_pin n) room token t u,
              )
              refl
      ]
    ]

-- `create_session` asks the limiter for the address that the request comes from, and what it notes is
-- kept. It answers that there were too many exactly if the limiter refuses, and the sessions are as
-- they were then. Else it makes no answer only where every code drawn is taken; and the answer has the token of the room and a link with the code, and
-- whoever next sends the code and the PIN gets the room and the token, if the limiter lets them
-- through and the code is not too long.
pub create_session-Invites :
    (site : Site) (hex : Str) (n : ℕ) (draws : List Str) (now t : ℕ) (req : Request) (b : Broker)
    (later u : ℕ) (guest : Request)
    → Invites site draws b
        (allow now (client_ip site.trim req) rl_create_max rl_window b.rate)
        later
        u
        guest
        (create_session site hex n draws now t req b)
unfolding create_session create
create_session-Invites site hex n draws now t req b later u guest =
    elim (Bool-cases (allow now (client_ip site.trim req) rl_create_max rl_window b.rate).1) [
      | inr e ↦ rw e (refl, refl, refl)
      | inl e ↦ elim (Option-cases (fresh_code b.sessions draws)) [
        | inl none_free ↦
            rw (e, create, none_free) (refl, fresh_code-none b.sessions draws none_free)
        | inr (code, free) ↦
            let room = lit "squad-" ++ hex in
            rw (e, create, free)
              (
                refl,
                refl,
                join_session-new_session site code room (site.auth_token_for room) n t later u guest
                    b.sessions
                    (allow now (client_ip site.trim req) rl_create_max rl_window b.rate).0,
                refl,
                refl,
              )
      ]
    ]
