-- ===== src/Mux/Manager.antt =====
-- Session and SessionManager. Session objects live in `objects`, and a shared_ptr is an index
-- there; the map goes from stream ids to such pointers.
pub mod Sessions
use rtcvpn.Common.{
  ℕ, suc, List, [], ◌∷◌, ◌++◌, Option, none, some, ◌==◌, if◌then◌else◌, ◌>>=◌, length, get_elem?,
}

pub record Session : Type 0 where
  pub stream_id : ℕ
  pub on_data : Option ℕ
  pub on_synack : Option ℕ
  pub on_close : Option ℕ
  pub on_data_ctrl : Option ℕ

-- Session::Session.
abbrev pub new_session : ℕ → Session
new_session sid = record {
  stream_id = sid;
  on_data = none;
  on_synack = none;
  on_close = none;
  on_data_ctrl = none;
}

abbrev pub set_on_data : ℕ → Session → Session
set_on_data cb s = record s { on_data = some cb }

abbrev pub set_on_synack : ℕ → Session → Session
set_on_synack cb s = record s { on_synack = some cb }

abbrev pub set_on_close : ℕ → Session → Session
set_on_close cb s = record s { on_close = some cb }

abbrev pub set_on_data_ctrl : ℕ → Session → Session
set_on_data_ctrl cb s = record s { on_data_ctrl = some cb }

-- std::map<uint32_t, shared_ptr<Session>>: find, operator[] = and erase.
unfoldable pub find : ℕ → List (ℕ × ℕ) → Option ℕ
find k [] = none
find k ((j, p) ∷ rest) = if j == k then some p else find k rest

pub insert : ℕ → ℕ → List (ℕ × ℕ) → List (ℕ × ℕ)
insert k p [] = (k, p) ∷ []
insert k p ((j, q) ∷ rest) = if j == k then (k, p) ∷ rest else (j, q) ∷ insert k p rest

pub erase : ℕ → List (ℕ × ℕ) → List (ℕ × ℕ)
erase k [] = []
erase k ((j, q) ∷ rest) = if j == k then erase k rest else (j, q) ∷ erase k rest

pub record SessionManager : Type 0 where
  pub sessions : List (ℕ × ℕ)
  pub objects : List Session

abbrev pub empty_manager : SessionManager
empty_manager = record { sessions = []; objects = [] }

-- SessionManager::gen_stream_id. The generator's draws are an argument; the loop stops at the
-- first that is no key of the map. `none` means that the draws ran out.
unfoldable pub gen_stream_id : List ℕ → SessionManager → Option ℕ
gen_stream_id [] m = none
gen_stream_id (id ∷ draws) m = elim (find id m.sessions) [
  | none ↦ some id
  | some _ ↦ gen_stream_id draws m
]

unfoldable pub find_session : SessionManager → ℕ → Option ℕ
unfolding find
find_session m sid = find sid m.sessions

-- create_session(stream_id): a new object, and the pointer to it.
unfoldable pub create_session : SessionManager → ℕ → SessionManager × ℕ
unfolding insert
create_session m sid =
    let p = length m.objects in
    (record { sessions = insert sid p m.sessions; objects = m.objects ++ new_session sid ∷ [] }, p)

-- create_session().
unfoldable pub create_session_any : List ℕ → SessionManager → Option (SessionManager × ℕ)
unfolding gen_stream_id create_session
create_session_any draws m = do sid ← gen_stream_id draws m; some (create_session m sid)

unfoldable pub remove_session : SessionManager → ℕ → SessionManager
unfolding erase
remove_session m sid = record m { sessions = erase sid m.sessions }

-- register_session(s): the pointer is put under the stream id of its object.
unfoldable pub register_session : SessionManager → ℕ → SessionManager
unfolding insert
register_session m p = elim (get_elem? m.objects p) [
  | none ↦ m
  | some s ↦ record m { sessions = insert s.stream_id p m.sessions }
]

-- A write through a pointer, `p->set_on_data(cb)` and the like.
pub update_at : ℕ → (Session → Session) → List Session → List Session
update_at p f [] = []
update_at ℕ.zero f (s ∷ rest) = f s ∷ rest
update_at (suc p) f (s ∷ rest) = s ∷ update_at p f rest

unfoldable pub update_session : SessionManager → ℕ → (Session → Session) → SessionManager
unfolding update_at
update_session m p f = record m { objects = update_at p f m.objects }

-- `*find_session(sid)`.
unfoldable pub session_of : SessionManager → ℕ → Option Session
unfolding find_session
session_of m sid = do p ← find_session m sid; get_elem? m.objects p
