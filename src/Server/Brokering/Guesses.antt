-- ===== src/Server/Brokering/Guesses.antt =====
-- How many guesses of an address come to the sessions.
use rdoc_squad_link_lite.Base.{
  ℕ, ◌+◌, ◌≤◌, ◌≡◌, refl, Bool, true, false, not, ◌&&◌, ◌||◌, List, [], ◌∷◌, map, Option, Str,
  str_eq, All, length, get, Bool-cases, inl, inr, subst, sym,
}
use rdoc_squad_link_lite.Sessions.{JoinResult, joined, not_found, locked, bad_pin, join_at}
use rdoc_squad_link_lite.Server.RateLimit.{allow, rl_window, rl_join_max}
use rdoc_squad_link_lite.Server.RateLimit.Windows.{as_number, allowed, allowed-le, Between, Few}
use rdoc_squad_link_lite.Server.Relay.{len_ok}
use rdoc_squad_link_lite.Server.Brokering.{
  Site, Broker, Request, Response, join_session, client_ip, rate_limited, session_joined,
  no_session, session_locked, wrong_pin, session_created, bounded_join, join_response, unwrap_or,
  max_code, max_pin,
}

pub record Ask : Type 0 where
  pub code : Str
  pub pin : Option Str
  pub at : ℕ
  pub session_time : ℕ
  pub request : Request

abbrev pub is_limited : Response → Bool
is_limited (session_created code pin room token ws link) = false
is_limited (session_joined room token ws) = false
is_limited rate_limited = true
is_limited no_session = false
is_limited session_locked = false
is_limited wrong_pin = false

abbrev pub join_answer : Site → Broker → Ask → Broker × Response
join_answer site b a = join_session site a.code a.pin a.at a.session_time a.request b

-- How many of the requests of `ip` the limiter lets through, of requests from whatever addresses.
pub let_through : Site → Str → Broker → List Ask → ℕ
let_through site ip b [] = 0
let_through site ip b (a ∷ asks) =
    let (b', r) = join_answer site b a in
    as_number (str_eq (client_ip site.trim a.request) ip && not (is_limited r))
    + let_through site ip b' asks

abbrev pub asked : Site → Ask → ℕ × Str
asked site a = (a.at, client_ip site.trim a.request)

join_response-limited : (site : Site) (r : JoinResult) → is_limited (join_response site r) ≡ false
join_response-limited site (joined room token) = refl
join_response-limited site not_found = refl
join_response-limited site locked = refl
join_response-limited site bad_pin = refl

bounded_join_lem :
    (site : Site) (code pin : Str) (t : ℕ) (b : Broker)
    → ((bounded_join site code pin t b).0.rate ≡ b.rate)
      × (is_limited (bounded_join site code pin t b).1 ≡ false)
bounded_join_lem site code pin t b =
    elim (Bool-cases (not (len_ok code max_code) || not (len_ok pin max_pin))) [
      | inl e ↦ (rw e refl, rw e refl)
      | inr e ↦ (rw e refl, rw e (join_response-limited site (join_at b.sessions code pin t).1))
    ]

join_session-rate :
    (site : Site) (b : Broker) (a : Ask)
    → ((join_answer site b a).0.rate
        ≡ (allow a.at (client_ip site.trim a.request) rl_join_max rl_window b.rate).0)
      × (not (is_limited (join_answer site b a).1)
          ≡ (allow a.at (client_ip site.trim a.request) rl_join_max rl_window b.rate).1)
unfolding join_session
join_session-rate site b a =
    let asking = allow a.at (client_ip site.trim a.request) rl_join_max rl_window b.rate in
    let inner =
      bounded_join_lem site a.code (unwrap_or [] a.pin) a.session_time
        (record b { rate = asking.0 }) in
    elim (Bool-cases asking.1) [
      | inr e ↦ (rw e refl, rw e refl)
      | inl e ↦ (rw e inner.0, rw (e, inner.1) refl)
    ]

let_through-allowed :
    (site : Site) (ip : Str) (b : Broker) (asks : List Ask)
    → let_through site ip b asks ≡ allowed ip rl_join_max rl_window b.rate (map (asked site) asks)
unfolding let_through allowed
let_through-allowed site ip b [] = refl
let_through-allowed site ip b (a ∷ asks) =
    let h = join_session-rate site b a in
    rw (h.1, let_through-allowed site ip (join_answer site b a).0 asks, h.0) refl

-- Of the joins that an address asks for in 300 seconds, with whatever codes and PINs and whatever
-- other addresses ask, at most sixty are let through to the sessions, whatever the table held,
-- unless the u32 count overflows.
pub let_through-le :
    (site : Site) (ip : Str) (b : Broker) (start : ℕ) (asks : List Ask)
    → All (Between start (start + rl_window)) (map (asked site) asks)
    → Few (length (map (asked site) asks)) (get ip b.rate)
    → let_through site ip b asks ≤ 60
let_through-le site ip b start asks h few =
    subst (λ n. n ≤ 60) (sym (let_through-allowed site ip b asks))
      (allowed-le ip start rl_join_max rl_window b.rate (map (asked site) asks) h few)
