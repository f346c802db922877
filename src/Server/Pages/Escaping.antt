-- ===== src/Server/Pages/Escaping.antt =====
-- The replacements do not run into each other.
use rdoc_squad_link_lite.Base.{
  ℕ, ◌≡◌, refl, Bool, true, not, [], ◌∷◌, ◌++◌, Str, lit, ◌==◌, if◌then◌else◌, all, any, arith,
  Bool-cases, inl, inr,
}
use mathlib.Core.List.{append_assoc}
use rdoc_squad_link_lite.Server.Pages.{replace, esc}

-- What one character becomes.
abbrev pub escaped : ℕ → Str
escaped c =
    if c == b'&'
    then lit "&amp;"
    else if c == b'<'
    then lit "&lt;"
    else if c == b'>'
    then lit "&gt;"
    else if c == b'"'
    then lit "&quot;"
    else if c == b'\''
    then lit "&#x27;"
    else c ∷ []

abbrev pub each_escaped : Str → Str
each_escaped [] = []
each_escaped (c ∷ s) = escaped c ++ each_escaped s

-- A character that cannot end a text or an attribute.
abbrev pub is_harmless : ℕ → Bool
is_harmless c = not (any (λ d. c == d) (lit "<>\"'"))

replace-++ :
    (c : ℕ) (text xs ys : Str) → replace c text (xs ++ ys) ≡ replace c text xs ++ replace c text ys
unfolding replace
replace-++ c text [] ys = refl
replace-++ c text (x ∷ xs) ys =
    rw
      (
        replace-++ c text xs ys,
        append_assoc (if x == c then text else x ∷ []) (replace c text xs) (replace c text ys),
      )
      refl

esc-++ : (xs ys : Str) → esc (xs ++ ys) ≡ esc xs ++ esc ys
unfolding esc
esc-++ xs ys = simp (replace-++)

esc-one : (c : ℕ) → esc (c ∷ []) ≡ escaped c
unfolding esc replace
esc-one c = elim (Bool-cases (c == b'&')) [
  | inl a ↦ rw a refl
  | inr a ↦ elim (Bool-cases (c == b'<')) [
    | inl b ↦ rw (a, b) refl
    | inr b ↦ elim (Bool-cases (c == b'>')) [
      | inl d ↦ rw (a, b, d) refl
      | inr d ↦ elim (Bool-cases (c == b'"')) [
        | inl e ↦ rw (a, b, d, e) refl
        | inr e ↦ elim (Bool-cases (c == b'\'')) [
          | inl g ↦ rw (a, b, d, e, g) refl
          | inr g ↦ rw (a, b, d, e, g) refl
        ]
      ]
    ]
  ]
]

all-++ : (p : ℕ → Bool) (xs ys : Str) → all p xs ≡ true → all p ys ≡ true → all p (xs ++ ys) ≡ true
all-++ p [] ys h k = k
all-++ p (x ∷ xs) ys h k = ground (arith, all-++ p xs ys, h, k)

escaped-all : (c : ℕ) → all is_harmless (escaped c) ≡ true
escaped-all c = ground arith

each_escaped-all : (s : Str) → all is_harmless (each_escaped s) ≡ true
each_escaped-all [] = refl
each_escaped-all (c ∷ s) =
    all-++ is_harmless (escaped c) (each_escaped s) (escaped-all c) (each_escaped-all s)

esc-each_escaped : (s : Str) → esc s ≡ each_escaped s
unfolding esc replace
esc-each_escaped [] = refl
esc-each_escaped (c ∷ s) = rw (esc-++ (c ∷ []) s, esc-one c, esc-each_escaped s) refl

-- Escaping by one replacement after the other is escaping each character by itself, so what one
-- replacement writes no later one reads; and no angle bracket and no quotation mark is left.
pub esc-escaped : (s : Str) → (esc s ≡ each_escaped s) × (all is_harmless (esc s) ≡ true)
esc-escaped s = (esc-each_escaped s, rw (esc-each_escaped s) (each_escaped-all s))
