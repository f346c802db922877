-- ===== src/Server/Pages.antt =====
-- server/init/src/main.rs: what goes into the pages: text that is escaped, and the number of a share
-- link as it is shown.
pub mod Escaping
pub mod Settings
pub mod Changelog
mod Tests
use rdoc_squad_link_lite.Base.{ℕ, List, [], ◌∷◌, ◌++◌, Str, lit, ◌==◌, if◌then◌else◌}

-- `replace` of an ASCII character.
unfoldable pub replace : ℕ → Str → Str → Str
replace c text [] = []
replace c text (d ∷ s) = (if d == c then text else d ∷ []) ++ replace c text s

unfoldable pub esc : Str → Str
esc s = replace b'\'' (lit "&#x27;") (
    replace b'"' (lit "&quot;")
      (replace b'>' (lit "&gt;") (replace b'<' (lit "&lt;") (replace b'&' (lit "&amp;") s))))

-- The code of a landing page; `take_chars` is `chars().take`.
unfoldable pub shown_code : (ℕ → Str → Str) → Str → Str
shown_code take_chars code = esc (take_chars 32 code)
