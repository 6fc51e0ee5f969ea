-- ===== src/Controller/EndingTests.antt =====
-- The polling loop on a PA2 that is busy for a while.
use native.Mathlib.Omega.{arith}
use pa2bridge.Base.{ℕ, ◌+◌, ◌≤◌, ◌≢◌, none, []}
use pa2bridge.Base.Text.{codes}
use pa2bridge.Controller.Action.{ok, err, Exn, Client, Sys}
use pa2bridge.Controller.Device.{Controller}
use pa2bridge.Controller.Activate.{poll_current}
use pa2bridge.Controller.Ending.{Clock, Confirmed, poll_current-ends}
use pa2bridge.Protocol.Triple.{Ensures}

-- The world is the clock, and each answer takes ten milliseconds.
abbrev busy : Client ℕ
busy = record {
  get = λ path w. (ok (codes "3"), w + 10);
  get_before = λ path d w. (ok (codes "3"), w + 10);
  set = λ path value w. (ok tt, w + 10);
  set_before = λ path value d w. (ok tt, w + 10);
  set_starting_before = λ path value start d w. (ok tt, w + 10);
  ls = λ path w. (ok [], w + 10);
  ls_before = λ path d w. (ok [], w + 10);
  reconnect = λ w. (err Exn.os_error, w + 10);
  reconnect_before = λ d w. (err Exn.os_error, w + 10);
  monotonic = λ w. (w, w);
  sleep = λ d w. w + d;
}

abbrev waiting : Controller ℕ
waiting = record {
  client = busy;
  allowed_slots = none;
  recall_timeout = 10000;
  poll_interval = 200;
  post_recall_delay = 1000;
  reconnect_validator = none;
}

forward : Clock waiting (λ w. w)
forward = record {
  reads = λ w. (omega arith, omega arith);
  gets = λ path d w. (omega arith, tt);
  reconnects = λ d w. (omega arith, λ e. ground (arith, e));
  validates = λ v d w e. ground (arith, e);
  sleeps = λ d w. omega arith;
}

poll_current-ends_example :
    Ensures {S = Sys ℕ}
      (λ s. 10000 ≤ s.world + 400)
      (poll_current waiting 401 7 10000)
      (λ _. Confirmed waiting (λ w. w) forward 10000 7)
      (λ e _. e ≢ Exn.loop_exhausted)
poll_current-ends_example = poll_current-ends waiting (λ w. w) forward 10000 400 7 (omega arith)
