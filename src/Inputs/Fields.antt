-- ===== src/Inputs/Fields.antt =====
-- apps/companion/src-tauri/src/lib.rs: the guards of the fields that the webview hands over. Trimming
-- of Unicode is an argument. The texts of the errors are left out where there is but one.
use rdoc_squad_link_lite.Base.{
  ℕ, Bool, ◌&&◌, ◌||◌, [], ◌∷◌, Option, none, some, Str, lit, leb, ◌==◌, if◌then◌else◌, length, all,
  any,
}

abbrev pub within : ℕ → ℕ → ℕ → Bool
within low high c = leb low c && leb c high

abbrev pub is_ascii_alphanumeric : ℕ → Bool
is_ascii_alphanumeric c = within 48 57 c || (within 65 90 c || within 97 122 c)

abbrev pub is_ascii_hexdigit : ℕ → Bool
is_ascii_hexdigit c = within 48 57 c || (within 65 70 c || within 97 102 c)

abbrev pub sized : Str → ℕ → Bool
sized s max = leb 1 (length s) && leb (length s) max

unfoldable pub valid_id : Str → ℕ → Bool
valid_id s max = sized s max && all (λ c. is_ascii_alphanumeric c || any (λ d. c == d) (lit "-_")) s

unfoldable pub valid_user_id : Str → ℕ → Bool
valid_user_id s max =
    sized s max && all (λ c. is_ascii_alphanumeric c || any (λ d. c == d) (lit "-_.")) s

unfoldable pub valid_hex : Str → ℕ → Bool
valid_hex s max = sized s max && all is_ascii_hexdigit s

-- `Result<Option<String>, String>`.
pub data Cleaned : Type 0 where
  ok : Option Str → Cleaned
  err : Cleaned

abbrev pub cleaned : (Str → Bool) → Str → Cleaned
cleaned good [] = ok none
cleaned good (c ∷ s) = if good (c ∷ s) then ok (some (c ∷ s)) else err

abbrev pub clean : (Str → Str) → (Str → Bool) → Option Str → Cleaned
clean trim good none = ok none
clean trim good (some s) = cleaned good (trim s)

unfoldable pub clean_token : (Str → Str) → Option Str → Cleaned
unfolding valid_hex
clean_token trim = clean trim (λ t. valid_hex t 128)

unfoldable pub clean_cert : (Str → Str) → Option Str → Cleaned
unfolding valid_hex
clean_cert trim = clean trim (λ c. length c == 64 && valid_hex c 64)

unfoldable pub clean_device : (Str → Str) → Option Str → Cleaned
clean_device trim = clean trim (λ s. leb (length s) 256)

abbrev pub device_or_default : Str → Option Str
device_or_default s = if sized s 256 then some s else none

unfoldable pub live_device : (Str → Str) → Option Str → Option Str
live_device trim none = none
live_device trim (some s) = device_or_default (trim s)
