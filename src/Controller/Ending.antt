-- ===== src/Controller/Ending.antt =====
-- The polling loop of a recall, its fuel and its deadline (controller.py, lines 517 to 560).
use native.Mathlib.Omega.{arith}
use pa2bridge.Base.{
  ℕ, zero, suc, ◌+◌, ◌-◌, ◌≤◌, ◌<◌, min, leb, leb→lt, Option, none, some, ◌≡◌, ◌≢◌, refl,
  if◌then◌else◌, ◌==◌, true, List, ◌∷◌, sym, subst,
}
use pa2bridge.Base.Text.{Text}
use pa2bridge.Controller.Action.{
  Res, ok, err, Exn, ParamPath, Event, Sys, Action, pure, raise, lift, call, attempt,
  is_connection_error,
}
use pa2bridge.Controller.Values.{parse_unsigned_integer, int_of_digits}
use pa2bridge.Controller.Device.{
  Controller, now, sleep, client_get, client_reconnect_only, validate_reconnected, client_reconnect,
  require_before, current_preset_path,
}
use pa2bridge.Controller.Catalog.{read_current}
use pa2bridge.Controller.Activate.{pause, after_poll, poll_current, ignore_connection_error}
use pa2bridge.Controller.Activate.Safety.{log-read_current}
use pa2bridge.Protocol.Triple.{
  Ensures, Post, ensures-bind, ensures-if, ensures-weaken, ensures-weaken_pre,
}

le_time : (d a b k : ℕ) → a ≤ b → d ≤ a + k → d ≤ b + k
le_time d a b k h w = omega arith

-- Not the mark of a loop without fuel.
abbrev pub IsLive : {A : Type 0} → Res A → Type 0
IsLive (ok a) = Unit {0}
IsLive (err e) = e ≢ Exn.loop_exhausted

-- The clock does not go back, and a sleep lasts as long as it is asked to.
pub record Clock {W : Type 0} (c : Controller W) (time : W → ℕ) : Type 0 where
  pub reads :
      (w : W)
      → (time w ≤ (c.client.monotonic w).0)
        × ((c.client.monotonic w).0 ≤ time (c.client.monotonic w).1)
  pub gets :
      (path : ParamPath) (d : ℕ) (w : W)
      → (time w ≤ time (c.client.get_before path d w).1) × IsLive (c.client.get_before path d w).0
  pub reconnects :
      (d : ℕ) (w : W)
      → (time w ≤ time (c.client.reconnect_before d w).1) × IsLive (c.client.reconnect_before d w).0
  pub validates :
      (v : Option ℕ → W → Res (Unit {0}) × W) (d : Option ℕ) (w : W)
      → c.reconnect_validator ≡ some v
      → (time w ≤ time (v d w).1) × IsLive (v d w).0
  pub sleeps : (d : ℕ) (w : W) → time w + d ≤ time (c.client.sleep d w)

abbrev Live : {S : Type 0} → Exn → S → Type 0
Live e s = e ≢ Exn.loop_exhausted

module _ {W : Type 0} (time : W → ℕ) (deadline : ℕ) where
  -- At most `k` are left.
  abbrev Within : ℕ → Sys W → Type 0
  Within k s = deadline ≤ time s.world + k

  -- Raising leaves that as it is.
  abbrev Raised : ℕ → Exn → Sys W → Type 0
  Raised k e s = (e ≢ Exn.loop_exhausted) × Within k s

  ended :
      {A : Type 0} (k : ℕ) (r : Res A) (s : Sys W)
      → IsLive r
      → Within k s
      → Post (λ _. Within k) (Raised k) r s
  ended k (ok a) s h w = w
  ended k (err e) s h w = (h, w)

  Timed-call :
      {A : Type 0} (k : ℕ) (f : W → Res A × W) (event : Option A → Event)
      → ((w : W) → (time w ≤ time (f w).1) × IsLive (f w).0)
      → Ensures (Within k) (call f event) (λ _. Within k) (Raised k)
  unfolding call
  Timed-call k f event h = record {
    at = λ s w.
        ended k (f s.world).0 _ (h s.world).1
          (le_time deadline (time s.world) (time (f s.world).1) k (h s.world).0 w);
  }

some_left : (deadline k t : ℕ) → t < deadline → deadline ≤ t + k → 1 ≤ k
some_left deadline k t h p = omega arith

less_left : (d t k i a b : ℕ) → 1 ≤ i → t < d → a + min i (d - t) ≤ b → d ≤ a + suc k → d ≤ b + k
less_left d t k i a b h l s p = omega arith

none_left : 1 ≤ 0 → ⊥
none_left h = omega arith

same_slot : (a b : ℕ) → (a == b) ≡ true → a ≡ b
same_slot a b h = ground (arith, h)

parse-IsLive : (t : Text) → IsLive (parse_unsigned_integer 1 none t)
unfolding parse_unsigned_integer int_of_digits
parse-IsLive t = ground arith

module _ {W : Type 0} (c : Controller W) (time : W → ℕ) (clock : Clock c time) (deadline : ℕ) where
  abbrev In : ℕ → Sys W → Type 0
  In k s = Within time deadline k s

  abbrev Out : ℕ → Exn → Sys W → Type 0
  Out k e s = Raised time deadline k e s

  -- A reading of the clock, with at most `k` to go to the deadline.
  Timed-now :
      (k : ℕ) {E : Exn → Sys W → Type 0}
      → Ensures (In k) (now c) (λ t s. In k s × (deadline ≤ t + k)) E
  unfolding now
  Timed-now k = record {
    at = λ s w.
        let r = clock.reads s.world in
        (le_time deadline _ _ k r.1 (le_time deadline _ _ k r.0 w), le_time deadline _ _ k r.0 w);
  }

  passed :
      (e : Exn) (k t : ℕ)
      → e ≢ Exn.loop_exhausted
      → Ensures
          (λ s. In k s × (deadline ≤ t + k))
          (if leb deadline t then raise e else pure tt)
          (λ _ s. In k s × (1 ≤ k))
          (Out k)
  unfolding raise pure
  passed e k t h =
      ensures-if (leb deadline t) (λ x. record { at = λ s p. (h, p.0) })
        (λ x. record { at = λ s p. (p.0, some_left deadline k t (leb→lt deadline t x) p.1) })

  Timed-require :
      (e : Exn) (k : ℕ)
      → e ≢ Exn.loop_exhausted
      → Ensures (In k) (require_before c e (some deadline)) (λ _ s. In k s × (1 ≤ k)) (Out k)
  unfolding require_before
  Timed-require e k h = ensures-bind (Timed-now k) (λ t. passed e k t h)

  -- The wait takes something of what is left.
  waited :
      (k t : ℕ)
      → 1 ≤ c.poll_interval
      → Ensures
          (λ s. In (suc k) s × (deadline ≤ t + suc k))
          (if leb deadline t
            then raise Exn.recall_timeout
            else sleep c (min c.poll_interval (deadline - t)))
          (λ _. In k)
          Live
  unfolding raise sleep
  waited k t h =
      ensures-if (leb deadline t) (λ x. record { at = λ s p q. ground (arith, q) })
        (λ x. record {
          at = λ s p.
              less_left deadline t k c.poll_interval (time s.world) _ h (leb→lt deadline t x)
                (clock.sleeps (min c.poll_interval (deadline - t)) s.world) p.0;
        })

  Timed-pause :
      (k : ℕ) → 1 ≤ c.poll_interval → Ensures (In (suc k)) (pause c deadline) (λ _. In k) Live
  unfolding pause
  Timed-pause k h = ensures-bind (Timed-now (suc k)) (λ t. waited k t h)

  Timed-client_get :
      (k : ℕ) (path : ParamPath)
      → Ensures (In k) (client_get c path (some deadline)) (λ _. In k) (Out k)
  unfolding client_get
  Timed-client_get k path = Timed-call time deadline k _ _ (λ w. clock.gets path deadline w)

  lifted : {A : Type 0} (k : ℕ) (r : Res A) → IsLive r → Ensures (In k) (lift r) (λ _. In k) (Out k)
  unfolding lift
  lifted k (ok a) h = record { at = λ s p. p }
  lifted k (err e) h = record { at = λ s p. (h, p) }

  Timed-read_current : (k : ℕ) → Ensures (In k) (read_current c (some deadline)) (λ _. In k) (Out k)
  unfolding read_current
  Timed-read_current k =
      ensures-bind (Timed-client_get k current_preset_path)
        (λ t. lifted k (parse_unsigned_integer 1 none t) (parse-IsLive t))

  Timed-validate :
      (k : ℕ) (v : Option (Option ℕ → W → Res (Unit {0}) × W))
      → c.reconnect_validator ≡ v
      → Ensures (In k) (validate_reconnected c v (some deadline)) (λ _. In k) (Out k)
  unfolding validate_reconnected pure
  Timed-validate k none e = record { at = λ s p. p }
  Timed-validate k (some v) e =
      Timed-call time deadline k _ _ (λ w. clock.validates v (some deadline) w e)

  Timed-client_reconnect :
      (k : ℕ) → Ensures (In k) (client_reconnect c (some deadline)) (λ _. In k) (Out k)
  unfolding client_reconnect client_reconnect_only
  Timed-client_reconnect k =
      ensures-bind (Timed-call time deadline k _ _ (λ w. clock.reconnects deadline w))
        (λ _. Timed-validate k c.reconnect_validator refl)

  either_way : {A : Type 0} (k : ℕ) (r : Res A) (s : Sys W) → Post (λ _. In k) (Out k) r s → In k s
  either_way k (ok a) s h = h
  either_way k (err e) s h = h.1

  live : {A : Type 0} (k : ℕ) (r : Res A) (s : Sys W) → Post (λ _. In k) (Out k) r s → IsLive r
  live k (ok a) s h = tt
  live k (err e) s h = h.0

  -- A call whose exception is caught.
  Timed-attempt :
      {A : Type 0} (k : ℕ) {m : Action W A}
      → Ensures (In k) m (λ _. In k) (Out k)
      → Ensures (In k) (attempt m) (λ r s. In k s × IsLive r) Live
  unfolding attempt
  Timed-attempt k {m} h = record {
    at = λ s p. (either_way k (m s).0 (m s).1 (h.at s p), live k (m s).0 (m s).1 (h.at s p));
  }

  Timed-ignored :
      (k : ℕ) (r : Res (Unit {0}))
      → Ensures (λ s. In k s × IsLive r) (ignore_connection_error c r) (λ _. In k) Live
  unfolding pure raise
  Timed-ignored k (ok _) = record { at = λ s p. p.0 }
  Timed-ignored k (err e) =
      ensures-if (is_connection_error e) (λ x. record { at = λ s p. p.0 })
        (λ x. record { at = λ s p. p.1 })

  -- The last call was a reading of the slot.
  pub record Read (slot : ℕ) (log : List Event) : Type 0 where
    pub text : Text
    pub before : List Event
    pub reading : parse_unsigned_integer 1 none text ≡ ok slot
    pub last : log ≡ Event.got current_preset_path (some deadline) (some text) ∷ before

  -- After that the clock was read, and the deadline was not reached.
  pub record Confirmed (slot : ℕ) (s : Sys W) : Type 0 where
    pub read : Read slot s.log
    pub world : W
    pub clock_read : s.world ≡ (c.client.monotonic world).1
    pub in_time : (c.client.monotonic world).0 < deadline

  abbrev IfRead : Res ℕ → Sys W → Type 0
  IfRead (ok n) s = Read n s.log
  IfRead (err e) s = Unit {0}

  if_read : (r : Res ℕ) (s : Sys W) → ((n : ℕ) → r ≡ ok n → Read n s.log) → IfRead r s
  if_read (ok n) s h = h n refl
  if_read (err e) s h = tt

  Read-read_current :
      (s : Sys W) (n : ℕ)
      → (read_current c (some deadline) s).0 ≡ ok n
      → Read n (read_current c (some deadline) s).1.log
  Read-read_current s n h =
      let (text, reading, last) = log-read_current c (some deadline) s h in
      record { text = text; before = s.log; reading = reading; last = last }

  Timed-reading :
      (k : ℕ)
      → Ensures
          (In k)
          (attempt (read_current c (some deadline)))
          (λ r s. (In k s × IsLive r) × IfRead r s)
          Live
  unfolding attempt
  Timed-reading k = record {
    at = λ s p. (
      (Timed-attempt k (Timed-read_current k)).at s p,
      if_read (read_current c (some deadline) s).0 (read_current c (some deadline) s).1
          (Read-read_current s),
    );
  }

  -- The test of the deadline after the slot has been read.
  confirmed :
      (slot : ℕ)
      → Ensures
          (λ s. Read slot s.log)
          (require_before c Exn.recall_timeout (some deadline))
          (λ _. Confirmed slot)
          Live
  unfolding require_before now raise pure
  confirmed slot =
      ensures-bind
        {Q = λ t s.
          Read slot s.log
          × ((w : W) × ((s.world ≡ (c.client.monotonic w).1) × ((c.client.monotonic w).0 ≡ t)))}
        (record { at = λ s p. (p, (s.world, (refl, refl))) })
        (λ t.
          ensures-if (leb deadline t) (λ x. record { at = λ s p q. ground (arith, q) })
            (λ x. record {
              at = λ s p. record {
                read = p.0;
                world = p.1.0;
                clock_read = p.1.1.0;
                in_time = subst (λ i. i < deadline) (sym p.1.1.1) (leb→lt deadline t x);
              };
            }))

  only-Live :
      (k : ℕ) {A : Type 0} {P : Sys W → Type 0} {Q : A → Sys W → Type 0} {m : Action W A}
      → Ensures P m Q (Out k)
      → Ensures P m Q Live
  only-Live k h = ensures-weaken h (λ a u q. q) (λ e u q. q.0)

  -- The rest of a round, with `suc k` to go: the next round has at most `k`.
  Timed-after_poll :
      (k slot : ℕ) (next : Action W (Unit {0})) (r : Res ℕ)
      → 1 ≤ c.poll_interval
      → Ensures (In k) next (λ _. Confirmed slot) Live
      → Ensures
          (λ s. (In (suc k) s × IsLive r) × IfRead r s)
          (after_poll c slot deadline next r)
          (λ _. Confirmed slot)
          Live
  unfolding after_poll raise
  Timed-after_poll k slot next (err e) i h =
      ensures-if (is_connection_error e)
        (λ x.
          ensures-weaken_pre
            (ensures-bind
              (only-Live (suc k)
                (Timed-require Exn.recall_timeout (suc k) (λ q. ground (arith, q))))
              (λ _.
                ensures-bind
                  (ensures-weaken_pre (Timed-attempt (suc k) (Timed-client_reconnect (suc k)))
                    (λ s p. p.0))
                  (λ result.
                    ensures-bind (Timed-ignored (suc k) result)
                      (λ _. ensures-bind (Timed-pause k i) (λ _. h)))))
            (λ s p. p.0.0))
        (λ x. record { at = λ s p. p.0.1 })
  Timed-after_poll k slot next (ok current) i h =
      ensures-if (current == slot)
        (λ x.
          ensures-weaken_pre (confirmed slot)
            (λ s p. subst (λ i. Read i s.log) (same_slot current slot x) p.1))
        (λ x. ensures-weaken_pre (ensures-bind (Timed-pause k i) (λ _. h)) (λ s p. p.0.0))

  -- The polling loop of a recall ends, and not for want of fuel, when its fuel is more than what is left
  -- to the deadline: if the clock does not go back, a sleep lasts as long as it is asked to, and the
  -- polling interval is at least a millisecond. It returns only after its last call has read the slot
  -- that was asked for, with a reading of the clock after that call that was before the deadline.
  pub poll_current-ends :
      (fuel slot : ℕ)
      → 1 ≤ c.poll_interval
      → Ensures
          (λ s. deadline ≤ time s.world + fuel)
          (poll_current c (suc fuel) slot deadline)
          (λ _. Confirmed slot)
          (λ e _. e ≢ Exn.loop_exhausted)
  unfolding poll_current
  poll_current-ends zero slot i =
      ensures-bind (only-Live zero (Timed-require Exn.recall_timeout zero (λ q. ground (arith, q))))
        (λ _. record { at = λ s p. elim (none_left p.1) [ ] })
  poll_current-ends (suc k) slot i =
      ensures-bind
        (only-Live (suc k) (Timed-require Exn.recall_timeout (suc k) (λ q. ground (arith, q))))
        (λ _.
          ensures-bind (ensures-weaken_pre (Timed-reading (suc k)) (λ s p. p.0))
            (λ r. Timed-after_poll k slot _ r i (poll_current-ends k slot i)))
