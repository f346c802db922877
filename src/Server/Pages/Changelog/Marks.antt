-- ===== src/Server/Pages/Changelog/Marks.antt =====
-- The loops that mark code and bold text come to an end.
use rdoc_squad_link_lite.Base.{
  ℕ, zero, suc, ◌+◌, ◌≤◌, ◌≡◌, refl, [], ◌∷◌, ◌++◌, none, some, Str, ◌==◌, length, arith,
  if◌then◌else◌, Option-cases, inl, inr,
}
use rdoc_squad_link_lite.Inputs.Url.{strip_prefix}
use rdoc_squad_link_lite.Server.Pages.Changelog.{
  Mark, code_mark, bold_mark, cut_first, mark_pair, mark_pairs, mark_all,
}

-- How often a character stands in a text.
abbrev pub occurrences : ℕ → Str → ℕ
occurrences c [] = 0
occurrences c (d ∷ s) = (if d == c then 1 else 0) + occurrences c s

occurrences-++ : (c : ℕ) (s t : Str) → occurrences c (s ++ t) ≡ occurrences c s + occurrences c t
occurrences-++ c [] t = omega arith
occurrences-++ c (d ∷ s) t = omega (arith, occurrences-++ c s t)

occurrences-le : (c : ℕ) (s : Str) → occurrences c s ≤ length s
occurrences-le c [] = omega arith
occurrences-le c (d ∷ s) = ground (arith, occurrences-le c s)

occurrences-strip_prefix :
    (c : ℕ) (pre s rest : Str)
    → strip_prefix pre s ≡ some rest
    → occurrences c s ≡ occurrences c pre + occurrences c rest
unfolding strip_prefix
occurrences-strip_prefix c [] s rest h = ground (arith, h)
occurrences-strip_prefix c (p ∷ pre) [] rest h = ground (arith, h)
occurrences-strip_prefix c (p ∷ pre) (d ∷ s) rest h =
    ground (arith, h, occurrences-strip_prefix c pre s rest)

occurrences-cut_first :
    (c : ℕ) (pat s pre rest : Str)
    → cut_first pat s ≡ some (pre, rest)
    → occurrences c s ≡ occurrences c pre + occurrences c pat + occurrences c rest
unfolding cut_first
occurrences-cut_first c pat [] pre rest h = elim (Option-cases (strip_prefix pat [])) [
  | inl n ↦ absurd (ground (arith, h, n))
  | inr (r, n) ↦ ground (arith, h, n, occurrences-strip_prefix c pat [] r n)
]
occurrences-cut_first c pat (d ∷ s) pre rest h = elim (Option-cases (strip_prefix pat (d ∷ s))) [
  | inr (r, n) ↦ ground (arith, h, n, occurrences-strip_prefix c pat (d ∷ s) r n)
  | inl n ↦ elim (Option-cases (cut_first pat s)) [
    | inl m ↦ absurd (ground (arith, h, n, m))
    | inr ((pre', rest'), m) ↦ ground (arith, h, n, m, occurrences-cut_first c pat s pre' rest' m)
  ]
]

-- A mark has the character, and what is put in its place does not.
abbrev pub IsCounted : ℕ → Mark → Type 0
IsCounted c k =
    (1 ≤ occurrences c k.pat) × (occurrences c k.opening ≡ 0) × (occurrences c k.closing ≡ 0)

occurrences-mark_pair :
    (c : ℕ) (k : Mark) (out marked : Str)
    → IsCounted c k
    → mark_pair k out ≡ some marked
    → suc (occurrences c marked) ≤ occurrences c out
unfolding mark_pair
occurrences-mark_pair c k out marked counted h = elim (Option-cases (cut_first k.pat out)) [
  | inl n ↦ absurd (ground (arith, h, n))
  | inr ((pre, after), n) ↦ elim (Option-cases (cut_first k.pat after)) [
    | inl m ↦ absurd (ground (arith, h, n, m))
    | inr ((inner, rest), m) ↦ ground (
      arith,
      h,
      n,
      m,
      counted,
      occurrences-cut_first c k.pat out pre after n,
      occurrences-cut_first c k.pat after inner rest m,
      occurrences-++ c pre (k.opening ++ (inner ++ (k.closing ++ rest))),
      occurrences-++ c k.opening (inner ++ (k.closing ++ rest)),
      occurrences-++ c inner (k.closing ++ rest),
      occurrences-++ c k.closing rest,
    )
  ]
]

mark_pairs-stops :
    (c : ℕ) (k : Mark) (fuel : ℕ) (out : Str)
    → IsCounted c k
    → occurrences c out ≤ fuel
    → mark_pair k (mark_pairs k fuel out) ≡ none
unfolding mark_pairs
mark_pairs-stops c k zero out counted h = elim (Option-cases (mark_pair k out)) [
  | inl n ↦ n
  | inr (marked, n) ↦ absurd (omega (arith, occurrences-mark_pair c k out marked counted n))
]
mark_pairs-stops c k (suc fuel) out counted h = elim (Option-cases (mark_pair k out)) [
  | inl n ↦ rw (mark_pairs, n) n
  | inr (marked, n) ↦
      rw (mark_pairs, n)
        (mark_pairs-stops c k fuel marked counted
          (omega (arith, occurrences-mark_pair c k out marked counted n)))
]

-- Whatever the text, the loop over the marks for code ends when no pair of them is left, and so does
-- that over the marks for bold text; each takes less turns than the text has bytes.
pub mark_all-stops :
    (out : Str)
    → (mark_pair code_mark (mark_all code_mark out) ≡ none)
      × (mark_pair bold_mark (mark_all bold_mark out) ≡ none)
unfolding mark_all
mark_all-stops out = (
  mark_pairs-stops b'`' code_mark (length out) out (omega arith, refl, refl)
      (occurrences-le b'`' out),
  mark_pairs-stops b'*' bold_mark (length out) out (omega arith, refl, refl)
      (occurrences-le b'*' out),
)
