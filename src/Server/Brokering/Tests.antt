-- ===== src/Server/Brokering/Tests.antt =====
-- The handlers on a small site.
use rdoc_squad_link_lite.Base.{
  ℕ, ◌≡◌, refl, true, List, [], ◌∷◌, ◌++◌, Option, none, some, Str, lit, arith, get, ◌≤◌,
  if◌then◌else◌, ◌==◌,
}
use rdoc_squad_link_lite.Server.Brokering.{
  Site, Broker, Peer, Request, client_ip, create_session, join_session, status, split,
  rfind_non_empty,
}
use rdoc_squad_link_lite.Sessions.{join_at}
use rdoc_squad_link_lite.Server.RateLimit.{allow, count, rl_create_max, rl_window}
use rdoc_squad_link_lite.Server.Brokering.Invites.{Invites, create_session-Invites}
use rdoc_squad_link_lite.Server.Brokering.Guesses.{Ask, let_through, let_through-le}

abbrev unspaced : Str → Str
unspaced [] = []
unspaced (c ∷ s) = if c == 32 then s else c ∷ s

abbrev site : Site
site = record {
  trim = unspaced;
  auth_token_for = λ room. some (lit "t-" ++ room);
  base = lit "https://subraum.cc";
  ws = lit "wss://subraum.cc/ws";
}

abbrev proxy : Peer
proxy = record { loopback = true; ip = lit "127.0.0.1" }

-- The client claims to be 1.1.1.1, and the proxy says whom it saw.
abbrev claiming : Request
claiming = record { forwarded = some (lit "1.1.1.1, 7.7.7.7"); peer = proxy }

abbrev empty : Broker
empty = record { sessions = []; rate = [] }

claiming_test : client_ip site.trim claiming ≡ lit "7.7.7.7"
unfolding client_ip split rfind_non_empty
claiming_test = refl

abbrev draws : List Str
draws = lit "abcdefgh" ∷ []

create_session-Invites_example :
    Invites site draws empty
      (allow 10 (client_ip site.trim claiming) rl_create_max rl_window [])
      70
      71
      claiming
      (create_session site (lit "00ff") 123456 draws 10 11 claiming empty)
create_session-Invites_example =
    create_session-Invites site (lit "00ff") 123456 draws 10 11 claiming empty 70 71 claiming

abbrev guess : Str → ℕ → Ask
guess pin at = record {
  code = lit "abcdefgh";
  pin = some pin;
  at = at;
  session_time = at;
  request = claiming;
}

let_through-le_example :
    let_through site (lit "7.7.7.7") empty (guess (lit "1") 5 ∷ guess (lit "2") 6 ∷ []) ≤ 60
unfolding get
let_through-le_example =
    let_through-le site (lit "7.7.7.7") empty 0 (guess (lit "1") 5 ∷ guess (lit "2") 6 ∷ [])
      (omega arith) (omega arith)

-- An unknown code and an empty PIN look the same.
abbrev answers : Str → Option Str → ℕ
answers code pin = status (join_session site code pin 5 6 claiming empty).1

unknown_code : answers (lit "abcdefgh") (some (lit "000000")) ≡ 404
unfolding join_session allow count get join_at
unknown_code = refl

no_pin : answers (lit "abcdefgh") none ≡ 404
unfolding join_session allow count get join_at
no_pin = refl
