-- ===== src/UdpSocket/Invariant.antt =====
-- The invariant of a UdpSocket and its outstanding operations.
pub mod Preserved
use rtcvpn.Common.{
  ℕ, suc, ◌+◌, ◌≤◌, ◌<◌, ◌≡◌, ◌≢◌, refl, List, [], ◌∷◌, ◌++◌, Bool, true, false, ◌&&◌,
  if◌then◌else◌, append-nil, append_assoc, arith, ◌⊎◌, ap,
}
use rtcvpn.UdpSocket.{UdpSocket, PendingSend, Effect, async_send_to}
use rtcvpn.UdpSocket.World.{
  World, Outcome, item_of, delivered, unresolved, items, delivered_items, started, count, front,
  is_call_close, is_send_to, is_resolve, initial, fire,
}

-- The invariant over a socket, the numbers of outstanding resolutions and sends, the accepted
-- datagrams and those that are done, what was handed to async_send_to and the calls of the close
-- callback.
pub record Core (s : UdpSocket) (resolves sends : ℕ) (accepted : List PendingSend)
    (done : List Outcome) (handed : List PendingSend) (closes : ℕ) : Type 0 where
  pub idle : s.is_sending ≡ false → (s.send_queue ≡ []) × (resolves + sends ≡ 0)
  pub one_operation : resolves + sends ≤ 1
  pub sending : 0 < resolves + sends → s.send_queue ≢ []
  pub busy : s.is_sending ≡ true → (resolves + sends ≡ 1) ⊎ (s.is_closed ≡ true)
  pub closing : s.is_closed ≡ true → s.is_closing ≡ true
  pub fifo : accepted ≡ items done ++ s.send_queue
  pub in_flight : 0 < sends → handed ≡ delivered_items done ++ front s.send_queue
  pub quiet :
      sends ≡ 0
      → (handed ≡ delivered_items done)
        ⊎ ((s.is_closed ≡ true)
            × (resolves ≡ 0)
            × (handed ≡ delivered_items done ++ front s.send_queue))
  pub close_calls : closes ≡ (if s.is_closed && s.close_callback then 1 else 0)

abbrev pub Inv : World → Type 0
Inv w =
    Core w.socket w.resolves w.sends w.accepted w.done (started w.trace)
      (count is_call_close w.trace)

-- The same behind a handler, which adds the effects that it returns.
abbrev pub After :
    ℕ
    → ℕ
    → List PendingSend
    → List Outcome
    → List PendingSend
    → ℕ
    → UdpSocket × List Effect
    → Type 0
After r n accepted done handed closes (s, effects) =
    Core s (r + count is_resolve effects) (n + count is_send_to effects) accepted done
      (handed ++ started effects) (closes + count is_call_close effects)

pub started-append : (xs ys : List Effect) → started (xs ++ ys) ≡ started xs ++ started ys
started-append [] ys = refl
started-append (async_send_to i ∷ xs) ys = ap (◌∷◌ i) (started-append xs ys)
started-append (_ ∷ xs) ys = started-append xs ys

pub count-append :
    (p : Effect → ℕ) (xs ys : List Effect) → count p (xs ++ ys) ≡ count p xs + count p ys
count-append p [] ys = omega arith
count-append p (x ∷ xs) ys = omega (arith, count-append p xs ys)

pub items-append : (xs ys : List Outcome) → items (xs ++ ys) ≡ items xs ++ items ys
items-append [] ys = refl
items-append (o ∷ xs) ys = ap (◌∷◌ (item_of o)) (items-append xs ys)

pub delivered_items-append :
    (xs ys : List Outcome) → delivered_items (xs ++ ys) ≡ delivered_items xs ++ delivered_items ys
delivered_items-append [] ys = refl
delivered_items-append (delivered i ∷ xs) ys = ap (◌∷◌ i) (delivered_items-append xs ys)
delivered_items-append (unresolved _ ∷ xs) ys = delivered_items-append xs ys

-- A socket before its first event.
pub record IsFresh (s : UdpSocket) : Type 0 where
  pub empty : s.send_queue ≡ []
  pub not_sending : s.is_sending ≡ false
  pub not_closing : s.is_closing ≡ false
  pub not_closed : s.is_closed ≡ false

pub initial-Inv : (s : UdpSocket) → IsFresh s → Inv (initial s)
initial-Inv s f = ground arith

pub fire-Inv :
    (w : World) (r : UdpSocket × List Effect)
    → After w.resolves w.sends w.accepted w.done (started w.trace) (count is_call_close w.trace) r
    → Inv (fire w r)
fire-Inv w (s, effects) a =
    rw (started-append w.trace effects, count-append is_call_close w.trace effects) a
