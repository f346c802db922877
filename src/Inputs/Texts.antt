-- ===== src/Inputs/Texts.antt =====
-- apps/companion/src-tauri/src/lib.rs: the guards of names, channels, codes and chat. The characters
-- of a text and what Unicode says of them are an argument.
use rdoc_squad_link_lite.Base.{
  ℕ, ◌*◌, Bool, true, false, not, ◌&&◌, ◌||◌, List, [], ◌∷◌, Option, none, some, Str, lit, leb,
  ◌==◌, if◌then◌else◌, length, take, all, any,
}
use rdoc_squad_link_lite.Inputs.Fields.{is_ascii_alphanumeric}

pub record Chars : Type 0 where
  pub chars : Str → List ℕ
  pub collect : List ℕ → Str
  pub trim : Str → Str
  pub is_control : ℕ → Bool
  pub is_whitespace : ℕ → Bool

abbrev pub max_code_len : ℕ
max_code_len = 32 * 1024

abbrev pub max_chat_len : ℕ
max_chat_len = 2000

abbrev pub max_name_chars : ℕ
max_name_chars = 64

abbrev pub max_channel_chars : ℕ
max_channel_chars = 32

abbrev pub is_empty_text : Str → Bool
is_empty_text [] = true
is_empty_text (c ∷ s) = false

module _ (u : Chars) where
  abbrev pub plain : Str → ℕ → Bool
  plain s max =
      not (is_empty_text s) && (leb (length (u.chars s)) max && not (any u.is_control (u.chars s)))

  unfoldable pub valid_name : Str → Bool
  valid_name s = plain s max_name_chars

  unfoldable pub valid_channel : Str → Bool
  valid_channel s = plain s max_channel_chars

  abbrev pub code_char : ℕ → Bool
  code_char c = is_ascii_alphanumeric c || (any (λ d. c == d) (lit "+/=") || u.is_whitespace c)

  unfoldable pub valid_code : Str → Bool
  valid_code s = not (is_empty_text s) && (leb (length s) max_code_len && all code_char (u.chars s))

  unfoldable pub bounded_chat : Str → Option Str
  bounded_chat text =
      let kept = u.collect (take max_chat_len (u.chars text)) in
      if is_empty_text (u.trim kept) then none else some kept
