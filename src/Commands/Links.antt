-- ===== src/Commands/Links.antt =====
-- apps/companion/src-tauri/src/lib.rs: the links that start the program or reach it while it runs.
-- The link of the start waits until the webview asks for it.
use rdoc_squad_link_lite.Base.{Bool, ◌||◌, List, Option, none, some, Str, lit, is_some, find}
use rdoc_squad_link_lite.Inputs.Url.{strip_prefix}

-- `DEEPLINK_SCHEMES`.
unfoldable pub is_deeplink : Str → Bool
is_deeplink arg =
    is_some (strip_prefix (lit "subraum://") arg) || is_some (strip_prefix (lit "squadlink://") arg)

abbrev pub or_pending : Option Str → Option Str → Option Str
or_pending pending none = pending
or_pending pending (some url) = some url

-- The cold start, on the arguments of the process.
unfoldable pub stash : List Str → Option Str → Option Str
stash args pending = or_pending pending (find is_deeplink args)

-- What is taken, and what is left.
unfoldable pub take_pending_deeplink : Option Str → Option Str × Option Str
take_pending_deeplink pending = (pending, none)
