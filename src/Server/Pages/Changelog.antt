-- ===== src/Server/Pages/Changelog.antt =====
-- server/init/src/main.rs: `render_changelog`, from the Markdown of the changelog to HTML. The lines of
-- the file and the trimming of Unicode are arguments.
pub mod Marks
use rdoc_squad_link_lite.Base.{
  ℕ, zero, suc, Bool, true, false, List, [], ◌∷◌, ◌++◌, Option, none, some, Str, lit, is_some,
  length, if◌then◌else◌,
}
use rdoc_squad_link_lite.Inputs.Url.{strip_prefix}
use rdoc_squad_link_lite.Server.Pages.{replace}

-- `find(pat)`: what is before the first place, and what is after it.
unfoldable pub cut_first : Str → Str → Option (Str × Str)
cut_first pat [] = elim (strip_prefix pat []) [ none ↦ none | some rest ↦ some ([], rest) ]
cut_first pat (c ∷ s) =
    let later = cut_first pat s in
    elim (strip_prefix pat (c ∷ s)) [
      | some rest ↦ some ([], rest)
      | none ↦ elim later [ none ↦ none | some (pre, rest) ↦ some (c ∷ pre, rest) ]
    ]

-- `rfind(pat)`: what is before the last place, and what starts there.
unfoldable pub cut_last : Str → Str → Option (Str × Str)
cut_last pat [] = none
cut_last pat (c ∷ s) = elim (cut_last pat s) [
  | some (pre, rest) ↦ some (c ∷ pre, rest)
  | none ↦ if is_some (strip_prefix pat (c ∷ s)) then some ([], c ∷ s) else none
]

-- What a pair of marks becomes.
pub record Mark : Type 0 where
  pub pat : Str
  pub opening : Str
  pub closing : Str

abbrev pub code_mark : Mark
code_mark = record { pat = lit "`"; opening = lit "<code>"; closing = lit "</code>" }

abbrev pub bold_mark : Mark
bold_mark = record { pat = lit "**"; opening = lit "<strong>"; closing = lit "</strong>" }

-- One turn of the loop, if there is a pair.
unfoldable pub mark_pair : Mark → Str → Option Str
mark_pair k out = elim (cut_first k.pat out) [
  | none ↦ none
  | some (pre, after) ↦ elim (cut_first k.pat after) [
    | none ↦ none
    | some (inner, rest) ↦ some (pre ++ (k.opening ++ (inner ++ (k.closing ++ rest))))
  ]
]

unfoldable pub mark_pairs : Mark → ℕ → Str → Str
mark_pairs k zero out = out
mark_pairs k (suc fuel) out = elim (mark_pair k out) [
  | none ↦ out
  | some marked ↦ mark_pairs k fuel marked
]

-- There are fewer pairs than bytes.
unfoldable pub mark_all : Mark → Str → Str
mark_all k out = mark_pairs k (length out) out

unfoldable pub esc_text : Str → Str
esc_text s = replace b'>' (lit "&gt;") (replace b'<' (lit "&lt;") (replace b'&' (lit "&amp;") s))

unfoldable pub inline : Str → Str
inline s = mark_all bold_mark (mark_all code_mark (esc_text s))

pub record Page : Type 0 where
  pub html : Str
  pub in_ul : Bool

abbrev pub close_ul : Page → Page
close_ul p = if p.in_ul then record { html = p.html ++ lit "</ul>"; in_ul = false } else p

abbrev pub open_ul : Page → Page
open_ul p = if p.in_ul then p else record { html = p.html ++ lit "<ul>"; in_ul = true }

abbrev pub push : Str → Page → Page
push s p = record p { html = p.html ++ s }

abbrev pub push_between : Str → Str → Str → Page → Page
push_between opening closing s = push (opening ++ (inline s ++ closing))

-- `html.rfind("</li>")` and `insert_str`.
abbrev pub insert_in_li : Str → Page → Page
insert_in_li s p = elim (cut_last (lit "</li>") p.html) [
  | none ↦ p
  | some (pre, rest) ↦ record p { html = pre ++ (s ++ rest) }
]

module _ (trim_end trim : Str → Str) where
  abbrev pub other_line : Str → Page → Page
  other_line line p = elim (trim line) [
    | [] ↦ close_ul p
    | c ∷ text ↦
        if p.in_ul
        then insert_in_li (lit " " ++ inline (c ∷ text)) p
        else push_between (lit "<p class=\"muted\">") (lit "</p>") (c ∷ text) p
  ]

  unfoldable pub render_line : Str → Page → Page
  render_line raw p =
      let line = trim_end raw in
      elim (strip_prefix (lit "## ") line) [
        | some rest ↦ push_between (lit "<h2 class=\"ver\">") (lit "</h2>") rest (close_ul p)
        | none ↦ elim (strip_prefix (lit "### ") line) [
          | some rest ↦ push_between (lit "<h3>") (lit "</h3>") rest (close_ul p)
          | none ↦ elim (strip_prefix (lit "# ") line) [
            | some rest ↦ p
            | none ↦ elim (strip_prefix (lit "- ") line) [
              | some rest ↦ push_between (lit "<li>") (lit "</li>") rest (open_ul p)
              | none ↦ other_line line p
            ]
          ]
        ]
      ]

  unfoldable pub render_lines : List Str → Page → Page
  render_lines [] p = p
  render_lines (l ∷ ls) p = render_lines ls (render_line l p)

  unfoldable pub render_changelog : List Str → Str
  render_changelog md =
      (close_ul (render_lines md (record { html = lit "<h1>Changelog</h1>"; in_ul = false }))).html
