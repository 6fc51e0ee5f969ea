-- ===== src/Bridge/Soundness/Reach.antt =====
-- Every state that the bridge can come to is sound.
use native.Mathlib.Omega.{arith}
use pa2bridge.Base.{refl}
use pa2bridge.Bridge.State.{Surroundings, Settings, Bridge}
use pa2bridge.Bridge.Steps.{Step, Reachable, initial}
use pa2bridge.Bridge.Progress.{session}
use pa2bridge.Bridge.Soundness.{Sound, Kept}
use pa2bridge.Bridge.Soundness.Passes.{Safe-pass}
use pa2bridge.Bridge.Soundness.Callbacks.{
  Sound-on_connect, Sound-on_subscribe, Sound-on_disconnect, Sound-on_message,
}

module _ {W F : Type 0} (n : Surroundings W F) (settings : Settings) where
  Step-Sound : {b c : Bridge W} → Step n settings b c → Kept b → Kept c
  Step-Sound (Step.connected accepted b t) h = Sound-on_connect n settings accepted b t h
  Step-Sound (Step.subscribed mid failures b) h = Sound-on_subscribe n settings mid failures b h
  Step-Sound (Step.disconnected b) h = Sound-on_disconnect n settings b h
  Step-Sound (Step.received m b) h = Sound-on_message n settings m b h
  Step-Sound (Step.passed fuel l b) h = (Safe-pass n settings fuel l).at b h
  Step-Sound (Step.elapsed f b) h = h

  -- Whatever the callbacks and the passes are and in which order they come, except that a connection
  -- comes only once the last one has been reported lost: a session that is open is one whose
  -- subscription was answered, on a connection that is up, and which has not failed; a failure has
  -- closed the session, ended its subscription and stopped the bridge; each queue holds one entry at
  -- most; and a queued command is of the present session, unless the session has failed.
  pub Reachable-Sound : {b : Bridge W} → Reachable n settings b → Sound (session b)
  unfolding initial
  Reachable-Sound (Reachable.started world topics identity) = record {
    running = refl;
    linked = λ e. e;
    idle = λ e. refl;
    answered = λ e. refl;
    failure_disconnects = λ e. refl;
    failure_stops = λ e. e;
    failure_unsubscribes = λ e. refl;
    one_command = omega arith;
    one_diagnostic = omega arith;
    of_this_session = λ e. tt;
  }
  Reachable-Sound (Reachable.then r st) = Step-Sound st (Reachable-Sound r)
