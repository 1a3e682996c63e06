-- ===== src/Server/Interface/Tests.antt =====
-- Runs of a SessionInterface.
use rtcvpn.Common.{◌≡◌, List, [], ◌∷◌, true, false, none, some, ◌⊎◌}
use rtcvpn.Server.Interface.Counts.{sent, closes, finishes}
use rtcvpn.Server.Interface.Life.{
  Event, World, target_connects, target_sends, target_closes, peer_closes, queue_changed, run,
  fresh, once, target_data, target_ends, target_first, ends_once,
}

abbrev download : List Event
download =
    target_connects true
    ∷ target_sends (7 ∷ [])
    ∷ target_sends (8 ∷ [])
    ∷ target_closes
    ∷ peer_closes
    ∷ target_closes
    ∷ []

ends_once_example :
    ((queue_changed download ≡ true) × (run download fresh ≡ none))
    ⊎ ((queue_changed download ≡ false)
        × ((w : World) × (run download fresh ≡ some w)
            × (sent w.calls ≡ target_data download)
            × (closes w.calls ≡ once (target_ends download))
            × (finishes w.calls ≡ once (target_first download))))
ends_once_example = ends_once download
