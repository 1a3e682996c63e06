-- ===== src/TcpSocket/Invariant.antt =====
-- The invariant of a TcpSocket and its outstanding operations.
pub mod Preserved
use rtcvpn.Common.{
  ℕ, suc, ◌+◌, ◌≤◌, ◌<◌, ◌≡◌, ◌≢◌, refl, List, [], ◌∷◌, ◌++◌, Bool, true, false, ◌&&◌,
  if◌then◌else◌, append-nil, append_assoc, arith, ◌⊎◌, ap,
}
use rtcvpn.Protocol.Types.{safety}
use rtcvpn.TcpSocket.{TcpSocket, Effect, async_write}
use rtcvpn.TcpSocket.World.{World, started, count, front, is_call_close, is_write, initial, fire}

-- The invariant over a socket, the number of outstanding writes, the accepted and the sent
-- buffers, the buffers handed to async_write and the calls of the close callback.
pub record Core (s : TcpSocket) (writes : ℕ) (accepted sent handed : List (List ℕ)) (closes : ℕ)
    : Type 0 where
  pub idle : s.is_sending ≡ false → (s.write_queue ≡ []) × (writes ≡ 0)
  pub one_write : writes ≤ 1
  pub writing : 0 < writes → s.write_queue ≢ []
  pub busy : s.is_sending ≡ true → (writes ≡ 1) ⊎ (s.is_closed ≡ true)
  pub closing : s.is_closed ≡ true → s.is_closing ≡ true
  pub status : s.write_queue_status ≡ safety
  pub fifo : accepted ≡ sent ++ s.write_queue
  pub in_flight : handed ≡ sent ++ (if s.is_sending then front s.write_queue else [])
  pub close_calls : closes ≡ (if s.is_closed && s.close_callback then 1 else 0)

abbrev pub Inv : World → Type 0
Inv w = Core w.socket w.writes w.accepted w.sent (started w.trace) (count is_call_close w.trace)

-- The same behind a handler, which adds the effects that it returns.
abbrev pub After :
    ℕ → List (List ℕ) → List (List ℕ) → List (List ℕ) → ℕ → TcpSocket × List Effect → Type 0
After n accepted sent handed closes (s, effects) =
    Core s (n + count is_write effects) accepted sent (handed ++ started effects)
      (closes + count is_call_close effects)

pub started-append : (xs ys : List Effect) → started (xs ++ ys) ≡ started xs ++ started ys
started-append [] ys = refl
started-append (async_write b ∷ xs) ys = ap (◌∷◌ b) (started-append xs ys)
started-append (_ ∷ xs) ys = started-append xs ys

pub count-append :
    (p : Effect → ℕ) (xs ys : List Effect) → count p (xs ++ ys) ≡ count p xs + count p ys
count-append p [] ys = omega arith
count-append p (x ∷ xs) ys = omega (arith, count-append p xs ys)

-- A socket before its first event.
pub record IsFresh (s : TcpSocket) : Type 0 where
  pub empty : s.write_queue ≡ []
  pub not_sending : s.is_sending ≡ false
  pub not_closing : s.is_closing ≡ false
  pub not_closed : s.is_closed ≡ false
  pub safe : s.write_queue_status ≡ safety

pub initial-Inv : (s : TcpSocket) → IsFresh s → Inv (initial s)
initial-Inv s f = ground arith

pub fire-Inv :
    (w : World) (r : TcpSocket × List Effect)
    → After w.writes w.accepted w.sent (started w.trace) (count is_call_close w.trace) r
    → Inv (fire w r)
fire-Inv w (s, effects) a =
    rw (started-append w.trace effects, count-append is_call_close w.trace effects) a
