-- ===== src/Controller/Runs.antt =====
-- What the calls of an action may be: one rule for each way to build an action, and one for each
-- way to reach the client.
use pa2bridge.Base.{
  ℕ, ◌≡◌, refl, Bool, true, false, Option, none, some, List, [], ◌∷◌, ◌++◌, if◌then◌else◌, All,
  All-append, append_assoc, sym, ap, ◌∙◌,
}
use pa2bridge.Base.Text.{Text}
use pa2bridge.Controller.Action.{
  Res, ok, err, Exn, ParamPath, Event, Sys, Action, pure, raise, lift, call, attempt, continue,
  outcome, ◌>>=◌,
}
use pa2bridge.Controller.Device.{
  Controller, now, sleep, client_get, client_set, client_set_starting_before, client_ls,
  client_reconnect_only, validate_reconnected, client_reconnect, require_before,
  pace_output_transition, new_operation_deadline,
}

-- The log `later` is the log `earlier` with calls that all satisfy `P` put before it.
pub record Extends (P : Event → Type 0) (earlier later : List Event) : Type 0 where
  pub calls : List Event
  pub appended : later ≡ calls ++ earlier
  pub allowed : All P calls

-- Whatever the action starts from, and however it ends, the calls it makes satisfy `P`.
pub record Runs {W A : Type 0} (P : Event → Type 0) (m : Action W A) : Type 0 where
  pub at : (s : Sys W) → Extends P s.log (m s).1.log

module _ {P : Event → Type 0} where
  pub Extends-refl : (l : List Event) → Extends P l l
  Extends-refl l = record { calls = []; appended = refl; allowed = tt }

  pub Extends-trans : {a b d : List Event} → Extends P a b → Extends P b d → Extends P a d
  Extends-trans {a} h k = record {
    calls = k.calls ++ h.calls;
    appended =
        k.appended ∙ (ap (λ l. k.calls ++ l) h.appended ∙ sym (append_assoc k.calls h.calls a));
    allowed = All-append P k.calls h.calls k.allowed h.allowed;
  }

  pub Extends-one : (e : Event) (l : List Event) → P e → Extends P l (e ∷ l)
  Extends-one e l h = record { calls = e ∷ []; appended = refl; allowed = (h, tt) }

module _ {W A : Type 0} {P : Event → Type 0} where
  pub Runs-pure : (a : A) → Runs {W = W} P (pure a)
  unfolding pure
  Runs-pure a = record { at = λ s. Extends-refl s.log }

  pub Runs-raise : (e : Exn) → Runs {W = W} P (raise {A = A} e)
  unfolding raise
  Runs-raise e = record { at = λ s. Extends-refl s.log }

  pub Runs-lift : (r : Res A) → Runs {W = W} P (lift r)
  unfolding lift
  Runs-lift r = record { at = λ s. Extends-refl s.log }

  pub Runs-if : (b : Bool) (m n : Action W A) → Runs P m → Runs P n → Runs P (if b then m else n)
  Runs-if true m n hm hn = hm
  Runs-if false m n hm hn = hn

  pub Runs-attempt : (m : Action W A) → Runs P m → Runs P (attempt m)
  unfolding attempt
  Runs-attempt m h = record { at = λ s. h.at s }

  pub Runs-call :
      (f : W → Res A × W) (event : Option A → Event)
      → ((o : Option A) → P (event o))
      → Runs P (call f event)
  unfolding call
  Runs-call f event h = record {
    at = λ s. let (r, w) = f s.world in Extends-one (event (outcome r)) s.log (h (outcome r));
  }

module _ {W A B : Type 0} {P : Event → Type 0} where
  continue-Extends :
      (r : Res A) (f : A → Action W B) (s : Sys W)
      → ((a : A) → Runs P (f a))
      → Extends P s.log (continue r f s).1.log
  continue-Extends (ok a) f s h = (h a).at s
  continue-Extends (err e) f s h = Extends-refl s.log

  pub Runs-bind :
      (m : Action W A) (f : A → Action W B) → Runs P m → ((a : A) → Runs P (f a)) → Runs P (m >>= f)
  unfolding ◌>>=◌
  Runs-bind m f hm hf = record {
    at = λ s. let (r, s') = m s in Extends-trans (hm.at s) (continue-Extends r f s' hf);
  }

pub ruleset runs_rules = (Runs-pure, Runs-raise, Runs-lift, Runs-if, Runs-attempt, Runs-bind)

-- What `P` allows with a deadline: to read; and to reconnect and to wait.
pub record CanRead (P : Event → Type 0) (deadline : Option ℕ) : Type 0 where
  pub gets : (path : ParamPath) (v : Option Text) → P (Event.got path deadline v)
  pub lists :
      (path : ParamPath) (v : Option (List (Text × Text))) → P (Event.listed path deadline v)

pub record CanRecover (P : Event → Type 0) (deadline : Option ℕ) : Type 0 where
  pub reads : CanRead P deadline
  pub reconnects : (v : Option (Unit {0})) → P (Event.reconnected deadline v)
  pub validates : (v : Option (Unit {0})) → P (Event.validated deadline v)
  pub sleeps : (d : ℕ) → P (Event.slept d)

-- `P` allows to write this value.
pub record CanWrite (P : Event → Type 0) (value : Text) (deadline : Option ℕ) : Type 0 where
  pub writes :
      (path : ParamPath) (start : Option ℕ) (v : Option (Unit {0}))
      → P (Event.wrote path value start deadline v)

module _ {W : Type 0} (c : Controller W) {P : Event → Type 0} where
  pub Runs-now : Runs P (now c)
  unfolding now
  Runs-now = record { at = λ s. Extends-refl s.log }

  pub Runs-new_operation_deadline : Runs P (new_operation_deadline c)
  unfolding new_operation_deadline
  Runs-new_operation_deadline = search (runs_rules, Runs-now)

  pub Runs-require_before : (e : Exn) (deadline : Option ℕ) → Runs P (require_before c e deadline)
  unfolding require_before
  Runs-require_before e none = search runs_rules
  Runs-require_before e (some d) = Runs-bind _ _ Runs-now (λ t. search runs_rules)

  pub Runs-sleep : (d : ℕ) → ((n : ℕ) → P (Event.slept n)) → Runs P (sleep c d)
  unfolding sleep
  Runs-sleep d h = record { at = λ s. Extends-one _ s.log (h d) }

module _ {W : Type 0} (c : Controller W) {P : Event → Type 0} where
  pub Runs-client_get :
      (path : ParamPath) (deadline : Option ℕ)
      → CanRead P deadline
      → Runs P (client_get c path deadline)
  unfolding client_get
  Runs-client_get path none h = Runs-call _ _ (h.gets path)
  Runs-client_get path (some d) h = Runs-call _ _ (h.gets path)

  pub Runs-client_ls :
      (path : ParamPath) (deadline : Option ℕ)
      → CanRead P deadline
      → Runs P (client_ls c path deadline)
  unfolding client_ls
  Runs-client_ls path none h = Runs-call _ _ (h.lists path)
  Runs-client_ls path (some d) h = Runs-call _ _ (h.lists path)

  pub Runs-client_set :
      (path : ParamPath) (value : Text) (deadline : Option ℕ)
      → CanWrite P value deadline
      → Runs P (client_set c path value deadline)
  unfolding client_set
  Runs-client_set path value none h = Runs-call _ _ (h.writes path none)
  Runs-client_set path value (some d) h = Runs-call _ _ (h.writes path none)

  pub Runs-client_set_starting_before :
      (path : ParamPath) (value : Text) (start d : ℕ)
      → CanWrite P value (some d)
      → Runs P (client_set_starting_before c path value start d)
  unfolding client_set_starting_before
  Runs-client_set_starting_before path value start d h = Runs-call _ _ (h.writes path (some start))

  Runs-reconnect_only :
      (deadline : Option ℕ) → CanRecover P deadline → Runs P (client_reconnect_only c deadline)
  unfolding client_reconnect_only
  Runs-reconnect_only none h = Runs-call _ _ h.reconnects
  Runs-reconnect_only (some d) h = Runs-call _ _ h.reconnects

  Runs-validate :
      (validator : Option (Option ℕ → W → Res (Unit {0}) × W)) (deadline : Option ℕ)
      → CanRecover P deadline
      → Runs P (validate_reconnected c validator deadline)
  unfolding validate_reconnected
  Runs-validate none deadline h = Runs-pure tt
  Runs-validate (some f) deadline h = Runs-call _ _ h.validates

  pub Runs-client_reconnect :
      (deadline : Option ℕ) → CanRecover P deadline → Runs P (client_reconnect c deadline)
  unfolding client_reconnect
  Runs-client_reconnect deadline h =
      Runs-bind _ _ (Runs-reconnect_only deadline h)
        (λ _. Runs-validate c.reconnect_validator deadline h)

  pub Runs-pace_output_transition :
      (deadline : Option ℕ) → CanRecover P deadline → Runs P (pace_output_transition c deadline)
  unfolding pace_output_transition
  Runs-pace_output_transition deadline h =
      search (runs_rules, Runs-require_before c, Runs-sleep c, h.sleeps)

pub ruleset client_rules = (
  runs_rules, Runs-now, Runs-require_before, Runs-client_get, Runs-client_ls, Runs-client_set,
  Runs-client_set_starting_before, Runs-client_reconnect, Runs-pace_output_transition,
)
