-- ===== src/Commands/Ledger.antt =====
-- The serverless sessions, over any series of commands.
use rdoc_squad_link_lite.Base.{
  ℕ, ◌≡◌, refl, sym, ap, ◌∙◌, Bool, List, [], ◌∷◌, ◌++◌, Option, none, some, Str, if◌then◌else◌,
  Bool-cases, Option-cases, inl, inr,
}
use mathlib.Core.List.{append_assoc, append-nil}
use rdoc_squad_link_lite.Inputs.Texts.{Chars, valid_name, valid_code, bounded_chat}
use rdoc_squad_link_lite.Engine.Handle.{Engine}
use rdoc_squad_link_lite.Serverless
use rdoc_squad_link_lite.Serverless.{Serverless, Effect, Result}
use rdoc_squad_link_lite.Commands.{AppState, Done, done, answer, closes}
use rdoc_squad_link_lite.Commands.Starting.{
  Form, EngineConfig, Checked, good, bad, checked, connect, connect_checked, disconnect, replaced,
  serverless_offer, serverless_accept_offer, serverless_accept_answer,
}
use rdoc_squad_link_lite.Commands.Steering.{toggle_transmit, set_transmit, send_chat, to_engine}

-- A command, with what the engine's start or the method of `Serverless` answers to it.
pub data Command (F S : Type 0) : Type 0 where
  connects : (EngineConfig → Option (Engine F S)) → Form → Command F S
  disconnects : Bool → Command F S
  offers : Result (Serverless × Str) → Str → Command F S
  takes_offer : Result (Serverless × Str) → Str → Str → Command F S
  takes_answer : Result (Unit {0}) → Str → Command F S
  toggles : Command F S
  talks : Bool → Command F S
  says : (Serverless → Str → List Effect) → Str → Command F S
  steers : (Engine F S → Engine F S) → Command F S

abbrev pub pc_of : Result (Serverless × Str) → List ℕ
pc_of (Serverless.err e) = []
pc_of (Serverless.ok (s, code)) = s.pc ∷ []

module _ (u : Chars) {F S : Type 0} where
  abbrev pub on_command : Command F S → AppState F S → Done F S
  on_command (connects start form) st = connect u start form st
  on_command (disconnects runtime) st = disconnect u runtime st
  on_command (offers r name) st = serverless_offer u (λ n. r) name st
  on_command (takes_offer r name code) st = serverless_accept_offer u (λ c n. r) name code st
  on_command (takes_answer r code) st = serverless_accept_answer u (λ s c. r) code st
  on_command toggles st = answer (toggle_transmit st).state (done none)
  on_command (talks on) st = answer (set_transmit on st).state (done none)
  on_command (says say text) st = answer (send_chat u say text st).state (done none)
  on_command (steers go) st = answer (to_engine go st) (done none)

  -- The session that a command makes and puts into the state.
  abbrev pub opened : Command F S → List ℕ
  opened (connects start form) = []
  opened (disconnects runtime) = []
  opened (offers r name) = if valid_name u (u.trim name) then pc_of r else []
  opened (takes_offer r name code) =
      if valid_name u (u.trim name) then (if valid_code u code then pc_of r else []) else []
  opened (takes_answer r code) = []
  opened toggles = []
  opened (talks on) = []
  opened (says say text) = []
  opened (steers go) = []

  -- The sessions whose rig is stopped, and the state at the end.
  abbrev pub run_commands : List (Command F S) → AppState F S → List ℕ × AppState F S
  run_commands [] st = ([], st)
  run_commands (c ∷ cs) st =
      let d = on_command c st in
      let (stopped, st') = run_commands cs d.state in (d.stopped ++ stopped, st')

  abbrev pub opened_all : List (Command F S) → List ℕ
  opened_all [] = []
  opened_all (c ∷ cs) = opened c ++ opened_all cs

  -- What is stopped and what is open then are what was open and what was opened.
  abbrev pub Balanced : AppState F S → Done F S → List ℕ → Type 0
  Balanced st d more = d.stopped ++ closes d.state.serverless ≡ closes st.serverless ++ more

  kept : (st : AppState F S) → closes st.serverless ≡ closes st.serverless ++ []
  kept st = sym (append-nil (closes st.serverless))

  replaced-Balanced :
      (st : AppState F S) (r : Result (Serverless × Str)) → Balanced st (replaced u st r) (pc_of r)
  replaced-Balanced st (Serverless.err e) = kept st
  replaced-Balanced st (Serverless.ok (s, code)) = refl

  connect_checked-Balanced :
      (start : EngineConfig → Option (Engine F S)) (st : AppState F S) (c : Checked)
      → Balanced st (connect_checked u start st c) []
  connect_checked-Balanced start st (bad why) = kept st
  connect_checked-Balanced start st (good cfg) = elim (Option-cases st.engine) [
    | inr (e, running) ↦ rw running (kept st)
    | inl idle ↦ elim (Option-cases (start cfg)) [
      | inl f ↦ rw (idle, f) refl
      | inr (e, f) ↦ rw (idle, f) refl
    ]
  ]

  steered_pc :
      (st : AppState F S) (o : Option Serverless)
      → st.serverless ≡ o
      → (closes (toggle_transmit st).state.serverless ≡ closes st.serverless)
        × ((on : Bool) → closes (set_transmit on st).state.serverless ≡ closes st.serverless)
  unfolding toggle_transmit set_transmit Serverless.toggle_transmit Serverless.set_transmit
      Serverless.set
  steered_pc st none h = (rw h refl, λ on. rw h refl)
  steered_pc st (some s) h = (
    rw h refl,
    λ on. elim (Bool-cases (Serverless.same s.transmit on)) [
      | inl e ↦ rw (h, e) refl
      | inr e ↦ rw (h, e) refl
    ],
  )

  on_command-Balanced :
      (c : Command F S) (st : AppState F S) → Balanced st (on_command c st) (opened c)
  unfolding connect disconnect serverless_offer serverless_accept_offer serverless_accept_answer
      send_chat
  on_command-Balanced (connects start form) st = connect_checked-Balanced start st (checked u form)
  on_command-Balanced (disconnects runtime) st = refl
  on_command-Balanced (offers r name) st = elim (Bool-cases (valid_name u (u.trim name))) [
    | inl e ↦ rw e (replaced-Balanced st r)
    | inr e ↦ rw e (kept st)
  ]
  on_command-Balanced (takes_offer r name code) st =
      elim (Bool-cases (valid_name u (u.trim name))) [
        | inr e ↦ rw e (kept st)
        | inl e ↦ elim (Bool-cases (valid_code u code)) [
          | inl g ↦ rw (e, g) (replaced-Balanced st r)
          | inr g ↦ rw (e, g) (kept st)
        ]
      ]
  on_command-Balanced (takes_answer r code) st = elim (Bool-cases (valid_code u code)) [
    | inr g ↦ rw g (kept st)
    | inl g ↦ elim (Option-cases st.serverless) [
      | inl n ↦ rw (g, n) (ap closes n)
      | inr (s, n) ↦ rw (g, n) (ap closes n)
    ]
  ]
  on_command-Balanced toggles st = (steered_pc st st.serverless refl).0 ∙ kept st
  on_command-Balanced (talks on) st = (steered_pc st st.serverless refl).1 on ∙ kept st
  on_command-Balanced (says say text) st = elim (Option-cases (bounded_chat u text)) [
    | inl n ↦ rw (send_chat, n) (kept st)
    | inr (line, n) ↦ elim (Option-cases st.serverless) [
      | inl e ↦ rw (send_chat, n, e) refl
      | inr (s, e) ↦ rw (send_chat, n, e) refl
    ]
  ]
  on_command-Balanced (steers go) st = kept st

  run_commands-balanced :
      (cs : List (Command F S)) (st : AppState F S)
      → (run_commands cs st).0 ++ closes (run_commands cs st).1.serverless
        ≡ closes st.serverless ++ opened_all cs
  run_commands-balanced [] st = kept st
  run_commands-balanced (c ∷ cs) st =
      let d = on_command c st in
      append_assoc d.stopped (run_commands cs d.state).0
        (closes (run_commands cs d.state).1.serverless)
      ∙ (ap (λ r. d.stopped ++ r) (run_commands-balanced cs d.state)
          ∙ (sym (append_assoc d.stopped (closes d.state.serverless) (opened_all cs))
              ∙ (ap (λ r. r ++ opened_all cs) (on_command-Balanced c st)
                  ∙ append_assoc (closes st.serverless) (opened c) (opened_all cs))))

  -- Whatever commands come, with whatever answers to them, and then `disconnect`, with a runtime or
  -- without: the rigs that are stopped are that of the session that was open before and those of the
  -- sessions that the commands made, each once and in that order, and neither an engine nor a
  -- serverless session is left.
  pub run_commands-stopped :
      (cs : List (Command F S)) (runtime : Bool) (st : AppState F S)
      → let (stopped, st') = run_commands cs st in
        let d = disconnect u runtime st' in
        (stopped ++ d.stopped ≡ closes st.serverless ++ opened_all cs)
        × (d.state.engine ≡ none)
        × (d.state.serverless ≡ none)
  unfolding disconnect
  run_commands-stopped cs runtime st = (run_commands-balanced cs st, refl, refl)
