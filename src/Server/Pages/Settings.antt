-- ===== src/Server/Pages/Settings.antt =====
-- server/init/src/main.rs and i18n.rs: the language and the display size of a page. Of the headers the
-- texts are given, where they are visible ASCII; trimming of Unicode is an argument.
pub mod Cookies
use rdoc_squad_link_lite.Base.{
  ℕ, Bool, true, false, List, [], ◌∷◌, ◌++◌, map, Option, none, some, Str, lit, str_eq, is_some,
  if◌then◌else◌, take,
}
use rdoc_squad_link_lite.Inputs.Url.{strip_prefix, until}
use rdoc_squad_link_lite.Server.Auth.{to_ascii_lowercase}
use rdoc_squad_link_lite.Server.Brokering.{split}

pub data Ui : Type 0 where
  normal large larger : Ui

pub data Lang : Type 0 where
  en de it es fr : Lang

unfoldable pub ui_code : Ui → Str
ui_code normal = lit "md"
ui_code large = lit "lg"
ui_code larger = lit "xl"

-- `or_else` and `unwrap_or`.
abbrev pub or_else {ℓ} : {A : Type ℓ} → Option A → Option A → Option A
or_else none b = b
or_else (some a) b = some a

abbrev pub otherwise {ℓ} : {A : Type ℓ} → Option A → A → A
otherwise none a = a
otherwise (some b) a = b

-- `find_map(|s| s.strip_prefix(pre))`.
unfoldable pub find_value : Str → List Str → Option Str
find_value pre [] = none
find_value pre (s ∷ ss) = or_else (strip_prefix pre s) (find_value pre ss)

abbrev pub query_value : Str → Option Str → Option Str
query_value pre none = none
query_value pre (some q) = find_value pre (split b'&' q)

module _ (trim : Str → Str) where
  unfoldable pub parse_ui : Str → Option Ui
  parse_ui code =
      let c = trim code in
      if str_eq c (lit "md")
      then some normal
      else if str_eq c (lit "lg")
      then some large
      else if str_eq c (lit "xl")
      then some larger
      else none

  abbrev pub parse_some : Option Str → Option Ui
  parse_some none = none
  parse_some (some s) = parse_ui s

  unfoldable pub detect_ui : Option Str → Option Str → Ui
  detect_ui query cookie = otherwise (or_else (parse_some query) (parse_some cookie)) normal

  abbrev pub cookie_value : Option Str → Option Str
  cookie_value none = none
  cookie_value (some c) = find_value (lit "subraum_ui=") (map trim (split b';' c))

  -- `q` is the query of the request, `cookie` its header.
  unfoldable pub ui_of : Option Str → Option Str → Ui × Bool
  ui_of q cookie =
      let qui = query_value (lit "ui=") q in (detect_ui qui (cookie_value cookie), is_some qui)

  -- A text whose first two bytes are ASCII can be cut after them.
  unfoldable pub parse_lang : Str → Option Lang
  parse_lang code =
      let c = take 2 (map to_ascii_lowercase (trim code)) in
      if str_eq c (lit "en")
      then some en
      else if str_eq c (lit "de")
      then some de
      else if str_eq c (lit "it")
      then some it
      else if str_eq c (lit "es")
      then some es
      else if str_eq c (lit "fr")
      then some fr
      else none

  abbrev pub lang_of_query : Option Str → Option Lang
  lang_of_query none = none
  lang_of_query (some q) = parse_lang q

  unfoldable pub first_tag : List Str → Option Lang
  first_tag [] = none
  first_tag (part ∷ parts) = or_else (parse_lang (until (lit ";") part)) (first_tag parts)

  abbrev pub lang_of_accept : Option Str → Option Lang
  lang_of_accept none = none
  lang_of_accept (some a) = first_tag (split b',' a)

  unfoldable pub detect_lang : Option Str → Option Str → Lang
  detect_lang query accept = otherwise (or_else (lang_of_query query) (lang_of_accept accept)) en

  unfoldable pub lang_of : Option Str → Option Str → Lang
  lang_of q accept = detect_lang (query_value (lit "lang=") q) accept

-- `secure`: the public address of the server is one of https.
unfoldable pub ui_cookie : Bool → Ui → Str
ui_cookie secure ui =
    lit "subraum_ui="
    ++ (ui_code ui
        ++ (lit "; Path=/; Max-Age=31536000; SameSite=Lax; HttpOnly"
            ++ (if secure then lit "; Secure" else [])))

-- The cookie that goes with a page.
unfoldable pub page_cookie : Bool → Ui × Bool → Option Str
page_cookie secure (ui, chose) = if chose then some (ui_cookie secure ui) else none
