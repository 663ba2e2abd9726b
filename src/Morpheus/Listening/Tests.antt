-- ===== src/Morpheus/Listening/Tests.antt =====
-- `start` and `stop` of packages/morpheus/src/morpheus.js on a page with another listener.
use hacienda.Prelude.{◌≡◌, refl, false, [], ◌∷◌, ◌++◌, codes, ◌===◌}
use hacienda.Morpheus.Listening.{
  Listening, on_document, other, own_listeners, start_listening, stop_listening, is_listening,
}
use hacienda.Morpheus.Listening.Stopped.{stop-start}

-- A page on which another script listens to clicks, too.
abbrev idle : Listening
idle = record { started = false; listeners = on_document (codes "click") (other 0) ∷ []; done = [] }

stop-start_example :
    ((start_listening idle).listeners ≡ idle.listeners ++ own_listeners)
    × (start_listening (start_listening idle) ≡ start_listening idle)
    × ((stop_listening (start_listening idle)).listeners ≡ idle.listeners)
    × ((stop_listening (start_listening idle)).started ≡ false)
unfolding is_listening ◌===◌
stop-start_example = stop-start idle refl (refl, (refl, (refl, (refl, (refl, (refl, tt))))))
