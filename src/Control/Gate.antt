-- ===== src/Control/Gate.antt =====
-- What a client gets without the token.
use rdoc_squad_link_lite.Base.{
  ℕ, ◌+◌, ◌-◌, ◌≤◌, ◌<◌, ◌≡◌, refl, Bool, true, false, not, ◌&&◌, List, [], ◌∷◌, ◌++◌, Str, str_eq,
  ltb, length, all, arith, Bool-cases, inl, inr, ◌∙◌,
}
use rdoc_squad_link_lite.ConstantTime.{ct_eq-str_eq}
use rdoc_squad_link_lite.Control.{
  Json, ToClient, auth_failed, hello, ControlServer, Inbound, gone, message, Conn, waiting, serving,
  ended, Served, Received, too_long, unreadable, value, receive, is_auth, presented, stays, refuse,
  on_gate, serve, max_auth_tries, constant_time_eq,
}

abbrev pub is_failed : {V : Type 0} → ToClient V → Bool
is_failed auth_failed = true
is_failed (hello state) = false

-- The connection is not let in.
abbrev pub is_shut : Conn → Bool
is_shut (waiting tries) = ltb tries max_auth_tries
is_shut serving = false
is_shut ended = true

-- How many wrong tokens the connection may still send.
abbrev tries_left : Conn → ℕ
tries_left (waiting tries) = max_auth_tries - tries
tries_left serving = 0
tries_left ended = 0

module _ {V : Type 0} (json : Json V) where
  abbrev pub has_token : Str → Received V → Bool
  has_token token too_long = false
  has_token token unreadable = false
  has_token token (value v) = is_auth json v && str_eq (presented json v) token

  -- The message is an authentication with the token.
  abbrev pub opens : Str → Inbound → Bool
  opens token gone = false
  opens token (message k t) = has_token token (receive json t)

  -- The messages of a connection, one after the other.
  unfoldable pub serve_all : ℕ → Bool → Conn → List Inbound → ControlServer V → Served V
  serve_all id ok c [] s = stays json s c
  serve_all id ok c (i ∷ is) s =
      let now = serve json id ok c i s in
      let rest = serve_all id ok now.conn is now.server in
      record {
        server = rest.server;
        conn = rest.conn;
        said = now.said ++ rest.said;
        sent = now.sent ++ rest.sent;
      }

  abbrev ShutOut : Conn → ControlServer V → Served V → Type 0
  ShutOut c s r =
      (r.sent ≡ [])
      × (r.server ≡ s)
      × (is_shut r.conn ≡ true)
      × (all is_failed r.said ≡ true)
      × (length r.said + tries_left r.conn ≤ tries_left c)

  refuse-ShutOut :
      (tries : ℕ) (s : ControlServer V)
      → tries < 3
      → ShutOut (waiting tries) s (refuse json tries s)
  refuse-ShutOut tries s h = ground arith

  on_gate-ShutOut :
      (id : ℕ) (ok : Bool) (tries : ℕ) (m : Received V) (s : ControlServer V)
      → tries < 3
      → has_token s.token m ≡ false
      → ShutOut (waiting tries) s (on_gate json id ok tries m s)
  unfolding on_gate
  on_gate-ShutOut id ok tries too_long s h wrong = (refl, refl, refl, refl, omega arith)
  on_gate-ShutOut id ok tries unreadable s h wrong = (refl, refl, ground arith, refl, omega arith)
  on_gate-ShutOut id ok tries (value v) s h wrong = elim (Bool-cases (is_auth json v)) [
    | inr e ↦ rw e (refl, refl, ground arith, refl, omega arith)
    | inl e ↦
        let w : constant_time_eq (presented json v) s.token ≡ false =
          rw (ct_eq-str_eq (presented json v) s.token) (ground (arith, wrong, e)) in
        rw (e, w) (refuse-ShutOut tries s h)
  ]

  serve-ShutOut :
      (id : ℕ) (ok : Bool) (c : Conn) (i : Inbound) (s : ControlServer V)
      → is_shut c ≡ true
      → opens s.token i ≡ false
      → ShutOut c s (serve json id ok c i s)
  unfolding serve
  serve-ShutOut id ok ended i s h wrong = (refl, refl, refl, refl, omega arith)
  serve-ShutOut id ok serving i s h wrong = cc
  serve-ShutOut id ok (waiting tries) gone s h wrong = (refl, refl, refl, refl, omega arith)
  serve-ShutOut id ok (waiting tries) (message k t) s h wrong =
      on_gate-ShutOut id ok tries (receive json t) s (ground (arith, h)) wrong

  all-++ :
      (xs ys : List (ToClient V))
      → all is_failed xs ≡ true
      → all is_failed ys ≡ true
      → (all is_failed (xs ++ ys) ≡ true) × (length (xs ++ ys) ≡ length xs + length ys)
  all-++ [] ys h k = (k, omega arith)
  all-++ (x ∷ xs) ys h k = ground (arith, all-++ xs ys)

  serve_all-ShutOut :
      (id : ℕ) (ok : Bool) (c : Conn) (is : List Inbound) (s : ControlServer V)
      → is_shut c ≡ true
      → all (λ i. not (opens s.token i)) is ≡ true
      → ShutOut c s (serve_all id ok c is s)
  unfolding serve_all
  serve_all-ShutOut id ok c [] s h wrong = (refl, refl, h, refl, omega arith)
  serve_all-ShutOut id ok c (i ∷ is) s h wrong =
      let now = serve json id ok c i s in
      let a : ShutOut c s now = serve-ShutOut id ok c i s h (ground (arith, wrong)) in
      let same = a.1 in
      let others : all (λ i. not (opens now.server.token i)) is ≡ true =
        rw same (ground (arith, wrong)) in
      let b = serve_all-ShutOut id ok now.conn is now.server a.2 others in
      let rest = serve_all id ok now.conn is now.server in
      let both = all-++ now.said rest.said a.3 b.3 in
      (rw (a.0, b.0) refl, b.1 ∙ same, b.2, both.0, omega (arith, both.1, a.4, b.4))

  -- Whatever messages come on a new connection, while none of them is an authentication with the
  -- token: the app is sent nothing, the server registers no channel and keeps its state, and all that
  -- the client hears is that its authentication failed, three times at most.
  pub serve_all-shut_out :
      (id : ℕ) (ok : Bool) (is : List Inbound) (s : ControlServer V)
      → all (λ i. not (opens s.token i)) is ≡ true
      → ((serve_all id ok (waiting 0) is s).sent ≡ [])
        × ((serve_all id ok (waiting 0) is s).server ≡ s)
        × (all is_failed (serve_all id ok (waiting 0) is s).said ≡ true)
        × (length (serve_all id ok (waiting 0) is s).said ≤ 3)
  serve_all-shut_out id ok is s wrong =
      let r = serve_all-ShutOut id ok (waiting 0) is s refl wrong in
      (r.0, r.1, r.3, omega (arith, r.4))
