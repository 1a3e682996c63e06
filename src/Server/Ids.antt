-- ===== src/Server/Ids.antt =====
-- The session ids of the server's clients (ProcessNewWsClient::create_session_id in
-- Src/server/src/process_new_client.cpp) and of the browser's connections at the client
-- (Src/common/src/session_id_generator.cpp), which count in the same way.
use Prim.Native.Nat.{ℕ, zero, suc}
use rtcvpn.Common.{
  ◌+◌, ◌-◌, ◌%◌, ◌<◌, ◌≤◌, ◌≡◌, ◌∙◌, ap, arith, if◌then◌else◌, ltb, Bool-cases, inl, inr, ltb→lt,
}

-- create_session_id on id_; the new id is also the result.
unfoldable pub create_session_id : ℕ → ℕ
create_session_id id = if ltb 65535 id then 1 else id + 1

-- The id after `k` calls.
unfoldable pub ids_after : ℕ → ℕ → ℕ
ids_after zero id = id
ids_after (suc k) id = ids_after k (create_session_id id)

create_session_id-range :
    (id : ℕ) → id ≤ 65536 → (0 < create_session_id id) × (create_session_id id ≤ 65536)
unfolding create_session_id
create_session_id-range id h = ground arith

create_session_id-mod :
    (id k : ℕ)
    → id ≤ 65536
    → 0 < id
    → (create_session_id id - 1 + k) % 65536 ≡ (id - 1 + suc k) % 65536
unfolding create_session_id
create_session_id-mod id k h pos = elim (Bool-cases (ltb 65535 id)) [
  | inl e ↦ rw e (omega (arith, ltb→lt 65535 id e))
  | inr e ↦ rw e (omega arith)
]

-- From an id between 1 and 65536, the id after k more calls is the one k places further, counted
-- from 1 to 65536 and starting again at 1.
pub ids_cycle : (k id : ℕ) → 0 < id → id ≤ 65536 → ids_after k id ≡ (id - 1 + k) % 65536 + 1
unfolding ids_after
ids_cycle zero id pos h = omega arith
ids_cycle (suc k) id pos h =
    let (lo, hi) = create_session_id-range id h in
    ids_cycle k (create_session_id id) lo hi ∙ ap (λ n. n + 1) (create_session_id-mod id k h pos)
