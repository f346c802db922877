-- ===== src/Server/Pages/Tests.antt =====
-- The pages at concrete inputs.
use rdoc_squad_link_lite.Base.{
  ◌≡◌, refl, true, false, [], ◌∷◌, none, some, Str, lit, ◌==◌, if◌then◌else◌, all,
}
use rdoc_squad_link_lite.Inputs.Url.{strip_prefix, until}
use rdoc_squad_link_lite.Server.Pages.{esc, replace}
use rdoc_squad_link_lite.Server.Pages.Escaping.{is_harmless, esc-escaped}
use rdoc_squad_link_lite.Server.Pages.Settings.{large, ui_code, ui_of, ui_cookie, page_cookie}
use rdoc_squad_link_lite.Server.Pages.Settings.Cookies.{ui_of-ui_cookie}
use rdoc_squad_link_lite.Server.Pages.Changelog.{
  cut_first, cut_last, mark_pair, mark_pairs, mark_all, esc_text, inline, render_line, render_lines,
  render_changelog,
}

esc-escaped_example :
    (esc (lit "<a>&lt;'") ≡ lit "&lt;a&gt;&amp;lt;&#x27;")
    × (all is_harmless (esc (lit "<a>&lt;'")) ≡ true)
esc-escaped_example = esc-escaped (lit "<a>&lt;'")

-- The blank in front is trimmed.
abbrev trim_blank : Str → Str
trim_blank [] = []
trim_blank (c ∷ s) = if c == 32 then s else c ∷ s

ui_of-ui_cookie_example :
    let sized = ui_of trim_blank (some (lit "lang=de&ui=lg&x")) (some (lit "subraum_ui=xl")) in
    let cookies = some (lit "a=b; subraum_ui=lg; c=d") in
    (sized ≡ (large, true))
    × (page_cookie true sized ≡ some (ui_cookie true large))
    × (ui_of trim_blank none cookies ≡ (large, false))
    × (ui_of trim_blank (some (lit "lang=fr")) cookies ≡ (large, false))
unfolding ui_code until ui_cookie strip_prefix
ui_of-ui_cookie_example =
    ui_of-ui_cookie trim_blank true large (lit "lang=de" ∷ []) (lit "x" ∷ [])
      (some (lit "subraum_ui=xl")) (lit "lang=fr") [] (lit "a=b" ∷ []) (lit " subraum_ui=lg")
      (lit " c=d" ∷ []) refl refl refl refl refl refl refl refl

changelog_of_lines :
    render_changelog
      (λ s. s)
      (λ s. s)
      (lit "# T" ∷ lit "## 1" ∷ lit "- a `b`" ∷ lit "**c**" ∷ [] ∷ lit "d <" ∷ [])
    ≡ lit
        "<h1>Changelog</h1><h2 class=\"ver\">1</h2><ul><li>a <code>b</code> <strong>c</strong></li></ul><p class=\"muted\">d &lt;</p>"
unfolding render_changelog render_lines render_line inline mark_all mark_pairs mark_pair cut_first
    cut_last esc_text replace strip_prefix
changelog_of_lines = refl
