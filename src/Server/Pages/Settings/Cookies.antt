-- ===== src/Server/Pages/Settings/Cookies.antt =====
-- The display size that a visitor chose comes back with the cookie.
use rdoc_squad_link_lite.Base.{
  ℕ, ◌≡◌, refl, ap, ◌∙◌, Bool, true, false, not, List, [], ◌∷◌, ◌++◌, map, Option, none, some, Str,
  lit, str_eq, is_some, all, arith, Option-cases, inl, inr,
}
use rdoc_squad_link_lite.Inputs.Url.{strip_prefix, until}
use rdoc_squad_link_lite.Server.Brokering.{split}
use rdoc_squad_link_lite.Server.Brokering.ClientIp.{free_of, split-free_of}
use rdoc_squad_link_lite.Server.Pages.Settings.{
  Ui, normal, large, larger, ui_code, find_value, parse_ui, detect_ui, ui_of, ui_cookie,
  page_cookie,
}

abbrev pub ui_name : Str
ui_name = lit "subraum_ui="

-- A piece of a query or of the cookies that does not start with `pre`.
abbrev pub is_other : Str → Str → Bool
is_other pre piece = not (is_some (strip_prefix pre piece))

-- The pieces, with the separator between them.
abbrev pub joined : ℕ → List Str → Str
joined sep [] = []
joined sep (p ∷ []) = p
joined sep (p ∷ q ∷ ps) = p ++ sep ∷ joined sep (q ∷ ps)

split-prefixed :
    (sep : ℕ) (s t : Str) → free_of sep s ≡ true → split sep (s ++ sep ∷ t) ≡ s ∷ split sep t
unfolding split
split-prefixed sep [] t h = ground arith
split-prefixed sep (c ∷ s) t h = ground (arith, split-prefixed sep s t)

split-joined :
    (sep : ℕ) (p : Str) (ps : List Str)
    → all (free_of sep) (p ∷ ps) ≡ true
    → split sep (joined sep (p ∷ ps)) ≡ p ∷ ps
split-joined sep p [] h = split-free_of sep p (ground (arith, h))
split-joined sep p (q ∷ ps) h =
    split-prefixed sep p (joined sep (q ∷ ps)) (ground (arith, h))
    ∙ ap (λ r. p ∷ r) (split-joined sep q ps (ground (arith, h)))

split-joined_around :
    (sep : ℕ) (before : List Str) (piece : Str) (after : List Str)
    → all (free_of sep) (before ++ piece ∷ after) ≡ true
    → split sep (joined sep (before ++ piece ∷ after)) ≡ before ++ piece ∷ after
split-joined_around sep [] piece after = split-joined sep piece after
split-joined_around sep (b ∷ before) piece after = split-joined sep b (before ++ piece ∷ after)

map-++ : (g : Str → Str) (xs ys : List Str) → map g (xs ++ ys) ≡ map g xs ++ map g ys
map-++ g [] ys = refl
map-++ g (x ∷ xs) ys = ap (λ r. g x ∷ r) (map-++ g xs ys)

find_value-others :
    (pre : Str) (xs rest : List Str)
    → all (is_other pre) xs ≡ true
    → find_value pre (xs ++ rest) ≡ find_value pre rest
unfolding find_value
find_value-others pre [] rest h = refl
find_value-others pre (x ∷ xs) rest h = elim (Option-cases (strip_prefix pre x)) [
  | inl n ↦ rw n (find_value-others pre xs rest (ground (arith, h)))
  | inr (v, n) ↦ absurd (ground (arith, h, n))
]

find_value-none :
    (pre : Str) (xs : List Str) → all (is_other pre) xs ≡ true → find_value pre xs ≡ none
unfolding find_value
find_value-none pre [] h = refl
find_value-none pre (x ∷ xs) h = elim (Option-cases (strip_prefix pre x)) [
  | inl n ↦ rw n (find_value-none pre xs (ground (arith, h)))
  | inr (v, n) ↦ absurd (ground (arith, h, n))
]

parse_ui-ui_code :
    (trim : Str → Str) (ui : Ui)
    → trim (ui_code ui) ≡ ui_code ui
    → parse_ui trim (ui_code ui) ≡ some ui
unfolding parse_ui ui_code str_eq
parse_ui-ui_code trim normal h = rw h refl
parse_ui-ui_code trim large h = rw h refl
parse_ui-ui_code trim larger h = rw h refl

until-ui_cookie :
    (secure : Bool) (ui : Ui) → until (lit ";") (ui_cookie secure ui) ≡ ui_name ++ ui_code ui
unfolding until ui_cookie ui_code
until-ui_cookie secure normal = refl
until-ui_cookie secure large = refl
until-ui_cookie secure larger = refl

find_value-ui_code :
    (ui : Ui) (rest : List Str)
    → find_value ui_name ((ui_name ++ ui_code ui) ∷ rest) ≡ some (ui_code ui)
unfolding find_value strip_prefix
find_value-ui_code ui rest = refl

query-ui_code :
    (ui : Ui) (rest : List Str)
    → find_value (lit "ui=") ((lit "ui=" ++ ui_code ui) ∷ rest) ≡ some (ui_code ui)
unfolding find_value strip_prefix
query-ui_code ui rest = refl

-- A size is in a query among any other pieces, joined with `&`, of which none before it starts with
-- ui=: the page has that size, whatever cookies come, and a cookie for it goes with the page. The name
-- and the value of that cookie, with the blanks that are trimmed, among any cookies, joined with `;`,
-- of which none before it has that name: a page without a query, or with one that has no size, has
-- that size again, and no cookie goes with it. Trimming leaves the codes of the sizes as they are.
pub ui_of-ui_cookie :
    (trim : Str → Str) (secure : Bool) (ui : Ui) (before after : List Str) (c : Option Str)
    (p : Str) (ps earlier : List Str) (piece : Str) (later : List Str)
    → trim (ui_code ui) ≡ ui_code ui
    → all (free_of b'&') (before ++ (lit "ui=" ++ ui_code ui) ∷ after) ≡ true
    → all (is_other (lit "ui=")) before ≡ true
    → all (free_of b'&') (p ∷ ps) ≡ true
    → all (is_other (lit "ui=")) (p ∷ ps) ≡ true
    → all (free_of b';') (earlier ++ piece ∷ later) ≡ true
    → all (is_other ui_name) (map trim earlier) ≡ true
    → trim piece ≡ until (lit ";") (ui_cookie secure ui)
    → let sized = ui_of trim (some (joined b'&' (before ++ (lit "ui=" ++ ui_code ui) ∷ after))) c in
      let cookies = some (joined b';' (earlier ++ piece ∷ later)) in
      (sized ≡ (ui, true))
      × (page_cookie secure sized ≡ some (ui_cookie secure ui))
      × (ui_of trim none cookies ≡ (ui, false))
      × (ui_of trim (some (joined b'&' (p ∷ ps))) cookies ≡ (ui, false))
unfolding page_cookie ui_of detect_ui
ui_of-ui_cookie trim secure ui before after c p ps earlier piece later plain free rest free' rest'
      cut no_cookie same =
    let parsed = parse_ui-ui_code trim ui plain in
    let query =
      ap (find_value (lit "ui=")) (split-joined_around b'&' before _ after free)
      ∙ (find_value-others (lit "ui=") before _ rest ∙ query-ui_code ui after) in
    let unsized =
      ap (find_value (lit "ui=")) (split-joined b'&' p ps free')
      ∙ find_value-none (lit "ui=") (p ∷ ps) rest' in
    let cookie =
      ap (λ r. find_value ui_name (map trim r)) (split-joined_around b';' earlier piece later cut)
      ∙ (ap (find_value ui_name) (map-++ trim earlier (piece ∷ later))
          ∙ (find_value-others ui_name (map trim earlier) _ no_cookie
              ∙ (ap (λ v. find_value ui_name (v ∷ map trim later))
                    (same ∙ until-ui_cookie secure ui)
                  ∙ find_value-ui_code ui (map trim later)))) in
    (
      rw (query, parsed) refl,
      rw (query, parsed) refl,
      rw (cookie, parsed) refl,
      rw (unsized, cookie, parsed) refl,
    )
