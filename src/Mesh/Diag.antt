-- ===== src/Mesh/Diag.antt =====
-- apps/companion-core/src/mesh.rs: `candidate_type` and `LinkDiag`, what a link revealed while it was
-- set up. A `BTreeSet` is a sorted list. Trimming of Unicode is an argument.
use rdoc_squad_link_lite.Base.{
  ℕ, Bool, false, ◌&&◌, ◌||◌, List, [], ◌∷◌, ◌++◌, Option, none, some, Str, lit, leb, str_eq,
  str_lt, if◌then◌else◌,
}
use rdoc_squad_link_lite.Inputs.Url.{strip_prefix, after_first}

pub record LinkDiag : Type 0 where
  pub local : List Str
  pub remote : List Str
  pub remote_desc : Bool
  pub paired : Bool

abbrev pub default : LinkDiag
default = record { local = []; remote = []; remote_desc = false; paired = false }

abbrev pub between : ℕ → ℕ → ℕ → Bool
between a b c = leb a c && leb c b

-- `char::is_ascii_alphanumeric`.
abbrev pub is_ascii_alphanumeric : ℕ → Bool
is_ascii_alphanumeric c = between 48 57 c || (between 65 90 c || between 97 122 c)

unfoldable pub take_while : (ℕ → Bool) → Str → Str
take_while p [] = []
take_while p (c ∷ s) = let rest = take_while p s in if p c then c ∷ rest else []

-- What stands before the first `pat`; all of it, if there is none.
unfoldable pub before : Str → Str → Str
before pat [] = []
before pat (c ∷ s) =
    let rest = before pat s in elim (strip_prefix pat (c ∷ s)) [ some r ↦ [] | none ↦ c ∷ rest ]

abbrev pub non_empty : Str → Option Str
non_empty [] = none
non_empty (c ∷ s) = some (c ∷ s)

-- `split(" typ ").nth(1)` is what stands between the first two of them.
unfoldable pub candidate_type : (Str → Str) → Str → Option Str
unfolding before
candidate_type trim_start line = elim (after_first (lit " typ ") line) [
  | none ↦ none
  | some rest ↦
      non_empty (take_while is_ascii_alphanumeric (trim_start (before (lit " typ ") rest)))
]

unfoldable pub set_insert : Str → List Str → List Str
set_insert t [] = t ∷ []
set_insert t (x ∷ xs) =
    let rest = set_insert t xs in
    if str_lt t x then t ∷ x ∷ xs else if str_eq t x then x ∷ xs else x ∷ rest

abbrev pub noted : Option Str → List Str → List Str
noted none types = types
noted (some t) types = set_insert t types

module _ (trim_start : Str → Str) where
  unfoldable pub note_local : LinkDiag → Str → LinkDiag
  note_local d line = record d { local = noted (candidate_type trim_start line) d.local }

  unfoldable pub note_remote : LinkDiag → Str → LinkDiag
  note_remote d line = record d { remote = noted (candidate_type trim_start line) d.remote }

abbrev pub join_types : Str → List Str → Str
join_types t [] = t
join_types t (x ∷ xs) = t ++ (lit "," ++ join_types x xs)

unfoldable pub types : List Str → Str
types [] = lit "keine"
types (t ∷ ts) = join_types t ts

unfoldable pub summary : LinkDiag → Str
unfolding types
summary d =
    if d.paired
    then lit "Verbindung stand und ist abgebrochen (lokal "
      ++ (types d.local ++ (lit ", gegenueber " ++ (types d.remote ++ lit ")")))
    else if d.remote_desc
    then elim d.remote [
      | [] ↦ lit "keine ICE-Kandidaten vom Gegenueber (lokal " ++ (types d.local ++ lit ")")
      | t ∷ ts ↦
          lit "Kandidaten getauscht (lokal "
          ++ (types d.local
              ++ (lit ", gegenueber "
                  ++ (types (t ∷ ts)
                      ++ lit "), aber kein Paar durchgekommen - der Weg ist blockiert")))
    ]
    else lit "kein Offer/Answer angekommen - Signalisierung, nicht NAT"
