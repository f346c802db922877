-- ===== src/Control/Tests.antt =====
-- The control server on a small notion of JSON: a text starts with the letter of its name.
use rdoc_squad_link_lite.Base.{
  ◌≡◌, ◌≤◌, refl, Bool, true, List, [], ◌∷◌, Option, none, some, Str, lit, length, all, str_eq,
  if◌then◌else◌, map,
}
use rdoc_squad_link_lite.ConstantTime.{ct_eq, ct_diff}
use rdoc_squad_link_lite.Control.{
  ℤ, pos, negsuc, Json, ptt, chan_cycle, refresh, ControlServer, Inbound, message, text, waiting,
  route, serve, on_gate, on_command,
}
use rdoc_squad_link_lite.Control.Gate.{is_failed, serve_all, serve_all-shut_out}

-- A value is a list of names and texts.
abbrev Value : Type 0
Value = List (Str × Str)

abbrev find_field : Value → Str → Option Value
find_field [] name = none
find_field ((k, x) ∷ v) name = if str_eq k name then some ((k, x) ∷ []) else find_field v name

abbrev text_of : Value → Option Str
text_of [] = none
text_of ((k, x) ∷ v) = some x

abbrev bool_of : Value → Option Bool
bool_of [] = none
bool_of ((k, x) ∷ v) = some (str_eq x (lit "true"))

abbrev int_of : Value → Option ℤ
int_of [] = none
int_of ((k, x) ∷ v) = some (if str_eq x (lit "-1") then negsuc 0 else pos (length x))

abbrev read : Str → Option Value
read s =
    if str_eq s (lit "wrong")
    then some ((lit "t", lit "auth") ∷ (lit "token", lit "guess") ∷ [])
    else if str_eq s (lit "right")
    then some ((lit "t", lit "auth") ∷ (lit "token", lit "abcd") ∷ [])
    else if str_eq s (lit "talk")
    then some ((lit "t", lit "ptt") ∷ (lit "on", lit "true") ∷ [])
    else none

abbrev json : Json Value
json = record {
  from_str = read;
  get = find_field;
  as_str = text_of;
  as_bool = bool_of;
  as_i64 = int_of;
}

abbrev server : ControlServer Value
server = record { token = lit "abcd"; state = []; clients = [] }

abbrev says : Str → Inbound
says s = message text (some s)

-- Four messages without the token: the last one comes too late.
abbrev stranger : List Inbound
stranger = map says (lit "talk" ∷ lit "wrong" ∷ lit "wrong" ∷ lit "wrong" ∷ lit "talk" ∷ [])

serve_all-shut_out_example :
    ((serve_all json 1 true (waiting 0) stranger server).sent ≡ [])
    × ((serve_all json 1 true (waiting 0) stranger server).server ≡ server)
    × (all is_failed (serve_all json 1 true (waiting 0) stranger server).said ≡ true)
    × (length (serve_all json 1 true (waiting 0) stranger server).said ≤ 3)
unfolding str_eq
serve_all-shut_out_example = serve_all-shut_out json 1 true stranger server refl

three_strikes : length (serve_all json 1 true (waiting 0) stranger server).said ≡ 3
unfolding str_eq serve_all serve on_gate ct_eq ct_diff
three_strikes = refl

let_in :
    (serve_all json 1 true (waiting 0) (says (lit "right") ∷ says (lit "talk") ∷ []) server).sent
    ≡ refresh ∷ ptt true ∷ []
unfolding str_eq serve_all serve on_gate on_command route ct_eq ct_diff
let_in = refl

previous :
    route json ((lit "t", lit "chan-cycle") ∷ (lit "dir", lit "-1") ∷ [])
    ≡ some (chan_cycle (negsuc 0))
unfolding str_eq route
previous = refl
