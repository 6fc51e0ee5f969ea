-- ===== src/Controller/Success.antt =====
-- What follows from an action's returning a value: inversion of `bind`, and the calls that each of
-- the client's wrappers has made.
use pa2bridge.Base.{
  ℕ, ◌≡◌, refl, ◌⊎◌, inl, inr, ap, Bool, true, false, Option, none, some, ◌∷◌, if◌then◌else◌, arith,
}
use pa2bridge.Base.Text.{Text}
use pa2bridge.Controller.Action.{
  Res, ok, err, Exn, ParamPath, Entries, Event, Sys, Stateful, Action, pure, raise, call, continue,
  ◌>>=◌,
}
use pa2bridge.Controller.Device.{
  Controller, now, sleep, client_get, client_ls, require_before, client_set,
  client_set_starting_before,
}

-- Returning from `m >>= f` means returning from both.
pub record Both {S A B : Type 0} (m : Stateful S A) (f : A → Stateful S B) (b : B) (s : S)
    : Type 0 where
  pub value : A
  pub first : (m s).0 ≡ ok value
  pub second : (f value (m s).1).0 ≡ ok b
  pub state : ((m >>= f) s).1 ≡ (f value (m s).1).1

module _ {S A B : Type 0} where
  continue-ok :
      (r : Res A) (f : A → Stateful S B) (s : S) {b : B}
      → (continue r f s).0 ≡ ok b
      → (a : A) × (r ≡ ok a) × ((f a s).0 ≡ ok b) × ((continue r f s).1 ≡ (f a s).1)
  continue-ok (ok a) f s h = (a, refl, h, refl)
  continue-ok (err e) f s h = cc

  pub bind-ok :
      (m : Stateful S A) (f : A → Stateful S B) (s : S) {b : B}
      → ((m >>= f) s).0 ≡ ok b
      → Both m f b s
  unfolding ◌>>=◌
  bind-ok m f s h =
      let (a, e, g, q) = continue-ok (m s).0 f (m s).1 h in
      record { value = a; first = e; second = g; state = q }

module _ {W A B : Type 0} where
  -- The log that `m >>= f` leaves is the one that its second part leaves.
  pub log-bind :
      {m : Action W A} {f : A → Action W B} {b : B} {s : Sys W}
      → (both : Both m f b s) → ((m >>= f) s).1.log ≡ (f both.value (m s).1).1.log
  log-bind both = ap (λ t. t.log) both.state

-- Raising from `m >>= f` is raising from `m`, or from `f` after `m` has returned.
module _ {S A B : Type 0} where
  continue-err :
      (r : Res A) (f : A → Stateful S B) (s : S) {e : Exn}
      → (continue r f s).0 ≡ err e
      → ((r ≡ err e) × ((continue r f s).1 ≡ s))
        ⊎ ((a : A) × (r ≡ ok a) × ((f a s).0 ≡ err e) × ((continue r f s).1 ≡ (f a s).1))
  continue-err (ok a) f s h = inr (a, refl, h, refl)
  continue-err (err x) f s h = inl (ground arith, refl)

  pub bind-err :
      (m : Stateful S A) (f : A → Stateful S B) (s : S) {e : Exn}
      → ((m >>= f) s).0 ≡ err e
      → (((m s).0 ≡ err e) × (((m >>= f) s).1 ≡ (m s).1))
        ⊎ ((a : A) × ((m s).0 ≡ ok a)
            × ((f a (m s).1).0 ≡ err e)
            × (((m >>= f) s).1 ≡ (f a (m s).1).1))
  unfolding ◌>>=◌
  bind-err m f s h = continue-err (m s).0 f (m s).1 h

pub ok_injective : {A : Type 0} {a b : A} → Res.ok a ≡ ok b → a ≡ b
ok_injective h = cc

module _ {W A : Type 0} where
  pub check-ok :
      (b : Bool) (a : A) (e : Exn) (s : Sys W) {r : A}
      → ((if b then pure a else raise e) s).0 ≡ ok r
      → (b ≡ true) × (a ≡ r) × (((if b then pure a else raise e) s).1 ≡ s)
  unfolding pure raise
  check-ok true a e s h = (refl, ok_injective h, refl)
  check-ok false a e s h = cc

module _ {W : Type 0} where
  pub guard-ok :
      (b : Bool) (e : Exn) (s : Sys W) {u : Unit {0}}
      → ((if b then pure tt else raise e) s).0 ≡ ok u
      → (b ≡ true) × (((if b then pure tt else raise {A = Unit {0}} e) s).1 ≡ s)
  unfolding pure raise
  guard-ok true e s h = (refl, refl)
  guard-ok false e s h = cc

module _ {W : Type 0} (c : Controller W) where
  pub log-require_before :
      (e : Exn) (deadline : Option ℕ) (s : Sys W) → (require_before c e deadline s).1.log ≡ s.log
  unfolding require_before ◌>>=◌ now pure raise
  log-require_before e none s = refl
  log-require_before e (some d) s = ground arith

  pub log-client_get :
      (path : ParamPath) (deadline : Option ℕ) (s : Sys W) {v : Text}
      → (client_get c path deadline s).0 ≡ ok v
      → (client_get c path deadline s).1.log ≡ Event.got path deadline (some v) ∷ s.log
  unfolding client_get call
  log-client_get path none s h = ground arith
  log-client_get path (some d) s h = ground arith

  pub log-client_ls :
      (path : ParamPath) (deadline : Option ℕ) (s : Sys W) {v : Entries}
      → (client_ls c path deadline s).0 ≡ ok v
      → (client_ls c path deadline s).1.log ≡ Event.listed path deadline (some v) ∷ s.log
  unfolding client_ls call
  log-client_ls path none s h = ground arith
  log-client_ls path (some d) s h = ground arith

  pub log-sleep : (d : ℕ) (s : Sys W) → (sleep c d s).1.log ≡ Event.slept d ∷ s.log
  unfolding sleep
  log-sleep d s = refl

  pub log-client_set :
      (path : ParamPath) (value : Text) (deadline : Option ℕ) (s : Sys W) {u : Unit {0}}
      → (client_set c path value deadline s).0 ≡ ok u
      → (client_set c path value deadline s).1.log
        ≡ Event.wrote path value none deadline (some tt) ∷ s.log
  unfolding client_set call
  log-client_set path value none s h = ground arith
  log-client_set path value (some d) s h = ground arith

  pub log-client_set_starting_before :
      (path : ParamPath) (value : Text) (start d : ℕ) (s : Sys W) {u : Unit {0}}
      → (client_set_starting_before c path value start d s).0 ≡ ok u
      → (client_set_starting_before c path value start d s).1.log
        ≡ Event.wrote path value (some start) (some d) (some tt) ∷ s.log
  unfolding client_set_starting_before call
  log-client_set_starting_before path value start d s h = ground arith
