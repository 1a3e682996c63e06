-- ===== src/P2p/Tests.antt =====
-- Runs of a controller, with a serialiser that writes each field behind its length.
use rtcvpn.Common.{
  ℕ, zero, suc, ◌≡◌, ◌≢◌, refl, ap, List, [], ◌∷◌, ◌++◌, true, false, Option, none, some,
  if◌then◌else◌, codes, append_assoc, append-nil, sym, ◌∙◌,
}
use rtcvpn.P2p.{
  Controller, ws_send, ws_close, call_login, call_data, dc_send, new_peer_connection,
  new_data_channel, bind_data_channel, init, connect_url, connect_ws, on_login_success,
  on_state_change, verify_message, on_ws_open, on_text,
}
use rtcvpn.P2p.Library.{Json, Value, text, other, all_well}
use rtcvpn.P2p.Events.{ws_closed, text_received, binary_received, send, run}
use rtcvpn.P2p.Login.{
  no_entry_without_login, password_decides, acknowledgement_bypasses, success, failure,
  all_harmless,
}

-- A byte is 0 and the byte; 1 ends a key, 2 a string, and 3 stands for another value.
abbrev chars : List ℕ → List ℕ → List ℕ
chars [] rest = rest
chars (c ∷ cs) rest = 0 ∷ c ∷ chars cs rest

abbrev write_value : Value → List ℕ → List ℕ
write_value (text t) rest = chars t (2 ∷ rest)
write_value other rest = 3 ∷ rest

abbrev write : Json → List ℕ
write [] = []
write ((k, v) ∷ j) = chars k (1 ∷ write_value v (write j))

abbrev cons_field : List ℕ → Value → Option Json → Option Json
cons_field k v none = none
cons_field k v (some j) = some ((k, v) ∷ j)

-- The key that was read, if any, what was read since, and the rest.
abbrev read : Option (List ℕ) → List ℕ → List ℕ → Option Json
read none acc [] = some []
read none acc (zero ∷ []) = none
read none acc (zero ∷ c ∷ rest) = read none (acc ++ c ∷ []) rest
read none acc (suc _ ∷ rest) = read (some acc) [] rest
read (some key) acc [] = none
read (some key) acc (zero ∷ []) = none
read (some key) acc (zero ∷ c ∷ rest) = read (some key) (acc ++ c ∷ []) rest
read (some key) acc (suc (suc (suc _)) ∷ rest) = cons_field key other (read none [] rest)
read (some key) acc (suc _ ∷ rest) = cons_field key (text acc) (read none [] rest)

read-key :
    (acc cs rest : List ℕ) → read none acc (chars cs (1 ∷ rest)) ≡ read (some (acc ++ cs)) [] rest
read-key acc [] rest = rw (append-nil acc) refl
read-key acc (c ∷ cs) rest =
    rw (sym (append_assoc acc (c ∷ []) cs)) (read-key (acc ++ c ∷ []) cs rest)

read-value :
    (key acc cs rest : List ℕ)
    → read (some key) acc (chars cs (2 ∷ rest))
      ≡ cons_field key (text (acc ++ cs)) (read none [] rest)
read-value key acc [] rest = rw (append-nil acc) refl
read-value key acc (c ∷ cs) rest =
    rw (sym (append_assoc acc (c ∷ []) cs)) (read-value key (acc ++ c ∷ []) cs rest)

read-write : (j : Json) → read none [] (write j) ≡ some j
read-write [] = refl
read-write ((k, text t) ∷ j) =
    read-key [] k (chars t (2 ∷ write j))
    ∙ read-value k [] t (write j)
    ∙ ap (cons_field k (text t)) (read-write j)
read-write ((k, other) ∷ j) = read-key [] k (3 ∷ write j) ∙ ap (cons_field k other) (read-write j)

abbrev client : Controller
client = (connect_url (codes "ws://h") (init (codes "pw"))).0

abbrev server : Controller
server = on_state_change (connect_ws (on_login_success (init (codes "pw"))))

-- A wrong password, and then a candidate that comes without a login.
no_entry_without_login_example :
    let (late, effects) =
      run write
        (read none [])
        ((all_well, text_received (write (verify_message (codes "pv"))))
          ∷ (all_well, ws_closed)
          ∷ [])
        server in
    (late.pc ≡ false) × (late.dc ≡ false) × (all_harmless effects ≡ true)
no_entry_without_login_example =
    no_entry_without_login write (read none [])
      ((all_well, text_received (write (verify_message (codes "pv")))) ∷ (all_well, ws_closed) ∷ [])
      server refl refl (refl, (refl, tt))

password_decides_example :
    let (client, _) = connect_url (codes "ws://h") (init (codes "pw")) in
    let server = connect_ws (on_login_success (init (codes "pw"))) in
    let hello = write (verify_message (codes "pw")) in
    (on_ws_open write all_well client ≡ ws_send hello ∷ [])
    × (codes "pw" ≡ codes "pw"
        → (on_text write (read none []) all_well hello server
            ≡ some (
              record server { pc = true },
              new_peer_connection ∷ call_login ∷ ws_send (write success) ∷ [],
            ))
          × (on_text write (read none []) all_well (write success) client
              ≡ some (
                record client { pc = true; dc = true },
                new_peer_connection ∷ new_data_channel (codes "data") ∷ bind_data_channel ∷ [],
              )))
    × (codes "pw" ≢ codes "pw"
        → (on_text write (read none []) all_well hello server
            ≡ some (server, ws_send (write failure) ∷ []))
          × (on_text write (read none []) all_well (write failure) client
              ≡ some (client, ws_close ∷ [])))
password_decides_example =
    password_decides write (read none []) (codes "ws://h") (codes "pw") (codes "pw") read-write

acknowledgement_bypasses_example :
    run write
      (read none [])
      ((all_well, text_received (write success))
        ∷ (all_well, binary_received (1 ∷ []))
        ∷ (all_well, send (2 ∷ []))
        ∷ [])
      server
    ≡ (
      record server { pc = true; dc = true },
      new_peer_connection
            ∷ new_data_channel (codes "data")
            ∷ bind_data_channel
            ∷ (if server.data_callback then call_data (1 ∷ []) ∷ [] else [])
          ++ dc_send (2 ∷ []) ∷ [],
    )
acknowledgement_bypasses_example =
    acknowledgement_bypasses write (read none []) server (write success) (1 ∷ []) (2 ∷ []) success
      (read-write success) refl refl
