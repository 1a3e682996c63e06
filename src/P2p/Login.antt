-- ===== src/P2p/Login.antt =====
-- Who gets past the password.
use rtcvpn.Common.{
  ℕ, ◌≡◌, ◌≢◌, refl, ◌∙◌, List, [], ◌∷◌, ◌++◌, Bool, true, false, ◌&&◌, Option, none, some,
  if◌then◌else◌, All, codes, same_text, same_text_refl, same_text→eq, Bool-cases, inl, inr, arith,
}
use rtcvpn.P2p.{
  Controller, Effect, ws_open, ws_send, ws_close, call_state, closed, call_login, call_data,
  dc_send, new_peer_connection, new_data_channel, bind_data_channel, ack, init, connect_url,
  connect_ws, on_login_success, verify_message, on_ws_open, on_message, on_text,
}
use rtcvpn.P2p.Library.{Json, Value, text, other, get, Answers, all_well}
use rtcvpn.P2p.Events.{
  Event, text_received, binary_received, send, grants, logs_in, step, run, after,
}

-- What a peer that has not logged in can cause.
abbrev pub is_harmless : Effect → Bool
is_harmless (ws_open _) = true
is_harmless (ws_send _) = true
is_harmless ws_close = true
is_harmless (call_state closed) = true
is_harmless _ = false

abbrev pub all_harmless : List Effect → Bool
all_harmless [] = true
all_harmless (e ∷ es) = is_harmless e && all_harmless es

all_harmless-append :
    (xs ys : List Effect)
    → all_harmless xs ≡ true
    → all_harmless ys ≡ true
    → all_harmless (xs ++ ys) ≡ true
all_harmless-append [] ys hx hy = hy
all_harmless-append (x ∷ xs) ys hx hy = ground (arith, all_harmless-append xs ys)

-- Neither a peer connection nor a data channel, and only harmless effects.
abbrev IsOutside : Controller × List Effect → Type 0
IsOutside (c, es) = (c.pc ≡ false) × (c.dc ≡ false) × (all_harmless es ≡ true)

module _ (dump : Json → List ℕ) (a : Answers) (c : Controller) (p : c.pc ≡ false)
    (d : c.dc ≡ false) where
  on_message-IsOutside :
      (msg : Json) (v : Option Value)
      → get (codes "type") msg ≡ v
      → grants c.password msg ≡ false
      → IsOutside (after c (on_message dump a msg c))
  on_message-IsOutside msg none e g = ground arith
  on_message-IsOutside msg (some other) e g = ground arith
  on_message-IsOutside msg (some (text t)) e g = ground arith

  on_text-IsOutside :
      (parse : List ℕ → Option Json) (message : List ℕ) (v : Option Json)
      → parse message ≡ v
      → logs_in parse c.password (text_received message) ≡ false
      → IsOutside (after c (on_text dump parse a message c))
  unfolding on_text
  on_text-IsOutside parse message none e g = ground arith
  on_text-IsOutside parse message (some msg) e g =
      ground (arith, on_message-IsOutside msg (get (codes "type") msg) refl)

module _ (dump : Json → List ℕ) (parse : List ℕ → Option Json) where
  step-IsOutside :
      (a : Answers) (e : Event) (c : Controller)
      → c.pc ≡ false
      → c.dc ≡ false
      → logs_in parse c.password e ≡ false
      → IsOutside (after c (step dump parse a e c))
  unfolding step
  step-IsOutside a (text_received message) c p d g =
      on_text-IsOutside dump a c p d parse message (parse message) refl g
  step-IsOutside a e c p d g = ground arith

  step-password :
      (a : Answers) (e : Event) (c : Controller)
      → (after c (step dump parse a e c)).0.password ≡ c.password
  unfolding step on_text
  step-password a e c = ground arith

  run-IsOutside :
      (es : List (Answers × Event)) (c : Controller)
      → c.pc ≡ false
      → c.dc ≡ false
      → All (λ e. logs_in parse c.password e.1 ≡ false) es
      → IsOutside (run dump parse es c)
  unfolding run
  run-IsOutside [] c p d g = (p, d, refl)
  run-IsOutside ((a, e) ∷ es) c p d g =
      let (p1, d1, h1) = step-IsOutside a e c p d g.0 in
      let (p2, d2, h2) =
        run-IsOutside es (after c (step dump parse a e c)).0 p1 d1 (rw (step-password a e c) g.1) in
      (
        p2,
        d2,
        all_harmless-append (after c (step dump parse a e c)).1
            (run dump parse es (after c (step dump parse a e c)).0).1 h1 h2,
      )

-- A controller without a peer connection and a data channel, of a client or of the server, still
-- has neither after any events among which is no message with the password and no acknowledgement
-- of success; and until then it has only used the WebSocket and told its owner of a close.
pub no_entry_without_login :
    (dump : Json → List ℕ) (parse : List ℕ → Option Json) (es : List (Answers × Event))
    (c : Controller)
    → c.pc ≡ false
    → c.dc ≡ false
    → All (λ e. logs_in parse c.password e.1 ≡ false) es
    → let (late, effects) = run dump parse es c in
      (late.pc ≡ false) × (late.dc ≡ false) × (all_harmless effects ≡ true)
no_entry_without_login dump parse es c p d g = run-IsOutside dump parse es c p d g

on_text-on_message :
    (dump : Json → List ℕ) (parse : List ℕ → Option Json) (a : Answers) (m : List ℕ) (msg : Json)
    (v : Value) (c : Controller)
    → parse m ≡ some msg
    → get (codes "type") msg ≡ some v
    → on_text dump parse a m c ≡ on_message dump a msg c
unfolding on_text
on_text-on_message dump parse a m msg v c e t = ground (arith, e, t)

same_text_neq : (a b : List ℕ) → a ≢ b → same_text a b ≡ false
same_text_neq a b n = elim (Bool-cases (same_text a b)) [
  | inl y ↦ absurd (n (same_text→eq a b y))
  | inr y ↦ y
]

abbrev pub success : Json
success = ack (codes "result") (codes "success")

abbrev pub failure : Json
failure = ack (codes "result") (codes "failed")

-- A client that connects to a URL and the server that accepts its WebSocket, with a parser that
-- reads what the serialiser writes, everything open and nothing that throws: the client's first
-- message holds its password. If the server has the same one, it makes a peer connection, tells
-- its owner and answers, and on the answer the client makes a peer connection and the data
-- channel. If not, neither makes any, and the client closes the WebSocket.
pub password_decides :
    (dump : Json → List ℕ) (parse : List ℕ → Option Json) (url mine theirs : List ℕ)
    → ((j : Json) → parse (dump j) ≡ some j)
    → let (client, _) = connect_url url (init mine) in
      let server = connect_ws (on_login_success (init theirs)) in
      let hello = dump (verify_message mine) in
      (on_ws_open dump all_well client ≡ ws_send hello ∷ [])
      × (mine ≡ theirs
          → (on_text dump parse all_well hello server
              ≡ some (
                record server { pc = true },
                new_peer_connection ∷ call_login ∷ ws_send (dump success) ∷ [],
              ))
            × (on_text dump parse all_well (dump success) client
                ≡ some (
                  record client { pc = true; dc = true },
                  new_peer_connection ∷ new_data_channel (codes "data") ∷ bind_data_channel ∷ [],
                )))
      × (mine ≢ theirs
          → (on_text dump parse all_well hello server ≡ some (server, ws_send (dump failure) ∷ []))
            × (on_text dump parse all_well (dump failure) client ≡ some (client, ws_close ∷ [])))
password_decides dump parse url mine theirs h =
    let client = (connect_url url (init mine)).0 in
    let server = connect_ws (on_login_success (init theirs)) in
    (
      refl,
      λ e. (
        read (verify_message mine) (text (codes "verify")) server refl
            ∙ rw (e, same_text_refl theirs) refl,
        read success (text (codes "verifyACK")) client refl,
      ),
      λ n. (
        read (verify_message mine) (text (codes "verify")) server refl
            ∙ rw (same_text_neq mine theirs n) refl,
        read failure (text (codes "verifyACK")) client refl,
      ),
    )
  where
    read :
        (msg : Json) (v : Value) (c : Controller)
        → get (codes "type") msg ≡ some v
        → on_text dump parse all_well (dump msg) c ≡ on_message dump all_well msg c
    read msg v c e = on_text-on_message dump parse all_well (dump msg) msg v c (h msg) e

-- Whatever the password is, an acknowledgement of success that the controller was not waiting for
-- makes a peer connection and the data channel, where the library throws nothing; what then comes
-- in through the channel is given to the owner's data callback, where installed, and what the
-- owner sends goes out.
pub acknowledgement_bypasses :
    (dump : Json → List ℕ) (parse : List ℕ → Option Json) (c : Controller)
    (message bytes reply : List ℕ) (msg : Json)
    → parse message ≡ some msg
    → get (codes "type") msg ≡ some (text (codes "verifyACK"))
    → get (codes "result") msg ≡ some (text (codes "success"))
    → run dump parse
        ((all_well, text_received message)
          ∷ (all_well, binary_received bytes)
          ∷ (all_well, send reply)
          ∷ [])
        c
      ≡ (
        record c { pc = true; dc = true },
        new_peer_connection
              ∷ new_data_channel (codes "data")
              ∷ bind_data_channel
              ∷ (if c.data_callback then call_data bytes ∷ [] else [])
            ++ dc_send reply ∷ [],
      )
unfolding run step on_text
acknowledgement_bypasses dump parse c message bytes reply msg e t r = ground (arith, e, t, r)
