-- ===== src/Server/Interface/Counts.antt =====
-- What a SessionInterface called, counted: the calls that send a FIN, the calls that tell its owner
-- of the end, and the data that it handed on.
use rtcvpn.Common.{ℕ, ◌+◌, ◌≡◌, refl, ap, arith, List, [], ◌∷◌, ◌++◌}
use rtcvpn.Server.Interface.{
  Call, call_data, call_close, call_finish, call_synack, call_data_ctrl, virtual_close,
}

abbrev pub finishes : List Call → ℕ
finishes [] = 0
finishes (call_finish _ ∷ cs) = finishes cs + 1
finishes (_ ∷ cs) = finishes cs

abbrev pub closes : List Call → ℕ
closes [] = 0
closes (call_close _ ∷ cs) = closes cs + 1
closes (_ ∷ cs) = closes cs

-- The data in the calls of the data function.
abbrev pub sent : List Call → List (List ℕ)
sent [] = []
sent (call_data _ bytes ∷ cs) = bytes ∷ sent cs
sent (_ ∷ cs) = sent cs

pub finishes-append : (cs ds : List Call) → finishes (cs ++ ds) ≡ finishes cs + finishes ds
finishes-append [] ds = omega arith
finishes-append (call_finish _ ∷ cs) ds = omega (arith, finishes-append cs ds)
finishes-append (call_close _ ∷ cs) ds = omega (arith, finishes-append cs ds)
finishes-append (call_data _ _ ∷ cs) ds = omega (arith, finishes-append cs ds)
finishes-append (call_synack _ _ ∷ cs) ds = omega (arith, finishes-append cs ds)
finishes-append (call_data_ctrl _ _ ∷ cs) ds = omega (arith, finishes-append cs ds)
finishes-append (virtual_close ∷ cs) ds = omega (arith, finishes-append cs ds)

pub closes-append : (cs ds : List Call) → closes (cs ++ ds) ≡ closes cs + closes ds
closes-append [] ds = omega arith
closes-append (call_close _ ∷ cs) ds = omega (arith, closes-append cs ds)
closes-append (call_finish _ ∷ cs) ds = omega (arith, closes-append cs ds)
closes-append (call_data _ _ ∷ cs) ds = omega (arith, closes-append cs ds)
closes-append (call_synack _ _ ∷ cs) ds = omega (arith, closes-append cs ds)
closes-append (call_data_ctrl _ _ ∷ cs) ds = omega (arith, closes-append cs ds)
closes-append (virtual_close ∷ cs) ds = omega (arith, closes-append cs ds)

pub sent-append : (cs ds : List Call) → sent (cs ++ ds) ≡ sent cs ++ sent ds
sent-append [] ds = refl
sent-append (call_data _ bytes ∷ cs) ds = ap (◌∷◌ bytes) (sent-append cs ds)
sent-append (call_finish _ ∷ cs) ds = sent-append cs ds
sent-append (call_close _ ∷ cs) ds = sent-append cs ds
sent-append (call_synack _ _ ∷ cs) ds = sent-append cs ds
sent-append (call_data_ctrl _ _ ∷ cs) ds = sent-append cs ds
sent-append (virtual_close ∷ cs) ds = sent-append cs ds
