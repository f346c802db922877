-- ===== src/Server/Turn.antt =====
-- server/init/src/turn.rs: credentials for the TURN server, by coturn's `use-auth-secret` scheme.
-- HMAC-SHA1 in base64 is an argument, and so are the clock, the values of the
-- environment and trimming of Unicode.
use rdoc_squad_link_lite.Base.{ℕ, ◌+◌, List, ◌∷◌, ◌++◌, Option, none, some, Str, lit, map, filter}
use rdoc_squad_link_lite.Server.Brokering.{split, has_text}
use rdoc_squad_link_lite.Base.Decimal.{decimal}
use rdoc_squad_link_lite.Protocol.{TurnCreds}

pub record TurnConfig : Type 0 where
  pub secret : Str
  pub urls : List Str
  pub ttl : ℕ

abbrev pub ttl_secs : ℕ
ttl_secs = 3600

-- The urls stand between commas.
unfoldable pub new_config : (Str → Str) → Str → Str → TurnConfig
new_config trim secret urls = record {
  secret = secret;
  urls = filter has_text (map trim (split b',' urls));
  ttl = ttl_secs;
}

-- Without a secret or without urls there is no TURN.
unfoldable pub from_values : (Str → Str) → Option Str → Option Str → Option TurnConfig
from_values trim (some (s ∷ secret)) (some (u ∷ urls)) =
    some (new_config trim (s ∷ secret) (u ∷ urls))
from_values trim _ _ = none

module _ (hmac_base64 : Str → Str → Str) where
  unfoldable pub mint : TurnConfig → ℕ → Str → TurnCreds
  mint cfg now user_id =
      let username = decimal (now + cfg.ttl) ++ lit ":" ++ user_id in
      record {
        urls = cfg.urls;
        username = username;
        credential = hmac_base64 cfg.secret username;
        ttl = cfg.ttl;
      }
