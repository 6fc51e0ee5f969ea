-- ===== src/Protocol/Triple.antt =====
-- Reasoning on stateful calls by what holds before, after returning and after raising.
use pa2bridge.Base.{Bool, true, false, ◌≡◌, refl, if◌then◌else◌}
use pa2bridge.Controller.Action.{
  Res, ok, err, Exn, Stateful, pure, raise, lift, attempt, continue, ◌>>=◌,
}

-- What holds of an outcome and the state it is reached in.
abbrev pub Post : {S A : Type 0} → (A → S → Type 0) → (Exn → S → Type 0) → Res A → S → Type 0
Post Q E (ok a) t = Q a t
Post Q E (err e) t = E e t

-- From a state where `P` holds, `m` returns to one where `Q` holds or raises to one where `E` does.
pub record Ensures {S A : Type 0} (P : S → Type 0) (m : Stateful S A) (Q : A → S → Type 0)
    (E : Exn → S → Type 0) : Type 0 where
  pub at : (s : S) → P s → Post Q E (m s).0 (m s).1

module _ {S A : Type 0} where
  pub Post-weaken :
      {Q Q' : A → S → Type 0} {E E' : Exn → S → Type 0} (r : Res A) (t : S)
      → ((a : A) (u : S) → Q a u → Q' a u)
      → ((e : Exn) (u : S) → E e u → E' e u)
      → Post Q E r t
      → Post Q' E' r t
  Post-weaken (ok a) t q e h = q a t h
  Post-weaken (err x) t q e h = e x t h

  pub ensures-weaken :
      {P : S → Type 0} {Q Q' : A → S → Type 0} {E E' : Exn → S → Type 0} {m : Stateful S A}
      → Ensures P m Q E
      → ((a : A) (u : S) → Q a u → Q' a u)
      → ((e : Exn) (u : S) → E e u → E' e u)
      → Ensures P m Q' E'
  ensures-weaken {m = m} h q e = record { at = λ s p. Post-weaken (m s).0 (m s).1 q e (h.at s p) }

  -- A stronger precondition.
  pub ensures-weaken_pre :
      {P P' : S → Type 0} {Q : A → S → Type 0} {E : Exn → S → Type 0} {m : Stateful S A}
      → Ensures P m Q E
      → ((s : S) → P' s → P s)
      → Ensures P' m Q E
  ensures-weaken_pre h k = record { at = λ s p. h.at s (k s p) }

  Post-frame :
      (Q : A → S → Type 0) (E : Exn → S → Type 0) {C : Type 0} (r : Res A) (t : S)
      → C
      → Post Q E r t
      → Post (λ a s. Q a s × C) E r t
  Post-frame Q E (ok a) t c h = (h, c)
  Post-frame Q E (err e) t c h = h

  -- A fact that is no matter of the state.
  pub ensures-frame :
      {P : S → Type 0} {Q : A → S → Type 0} {E : Exn → S → Type 0} {m : Stateful S A} {C : Type 0}
      → Ensures P m Q E
      → Ensures (λ s. P s × C) m (λ a s. Q a s × C) E
  ensures-frame {Q = Q} {E = E} {m = m} h = record {
    at = λ s p. Post-frame Q E (m s).0 (m s).1 p.1 (h.at s p.0);
  }

  pub ensures-pure :
      {P : S → Type 0} {Q : A → S → Type 0} {E : Exn → S → Type 0} (a : A)
      → ((s : S) → P s → Q a s)
      → Ensures P (pure a) Q E
  unfolding pure
  ensures-pure a h = record { at = h }

  pub ensures-raise :
      {P : S → Type 0} {Q : A → S → Type 0} {E : Exn → S → Type 0} (e : Exn)
      → ((s : S) → P s → E e s)
      → Ensures P (raise e) Q E
  unfolding raise
  ensures-raise e h = record { at = h }

  pub ensures-if :
      {P : S → Type 0} {Q : A → S → Type 0} {E : Exn → S → Type 0} (b : Bool) {m m' : Stateful S A}
      → (b ≡ true → Ensures P m Q E)
      → (b ≡ false → Ensures P m' Q E)
      → Ensures P (if b then m else m') Q E
  ensures-if true h h' = h refl
  ensures-if false h h' = h' refl

  pub ensures-lift :
      {P : S → Type 0} {E : Exn → S → Type 0} (r : Res A)
      → ((e : Exn) (s : S) → r ≡ err e → P s → E e s)
      → Ensures P (lift r) (λ a s. P s × (r ≡ ok a)) E
  unfolding lift
  ensures-lift (ok a) h = record { at = λ s p. (p, refl) }
  ensures-lift (err e) h = record { at = λ s p. h e s refl p }

  pub ensures-attempt :
      {P : S → Type 0} {Q : A → S → Type 0} {E E' : Exn → S → Type 0} {m : Stateful S A}
      → Ensures P m Q E
      → Ensures P (attempt m) (λ r u. Post Q E r u) E'
  unfolding attempt
  ensures-attempt h = record { at = h.at }

module _ {S A B : Type 0} where
  Post-bind :
      {Q : A → S → Type 0} {R : B → S → Type 0} {E : Exn → S → Type 0} (r : Res A)
      (f : A → Stateful S B) (t : S)
      → Post Q E r t
      → ((a : A) → Ensures (Q a) (f a) R E)
      → Post R E (continue r f t).0 (continue r f t).1
  Post-bind (ok a) f t h k = (k a).at t h
  Post-bind (err e) f t h k = h

  pub ensures-bind :
      {P : S → Type 0} {Q : A → S → Type 0} {R : B → S → Type 0} {E : Exn → S → Type 0}
      {m : Stateful S A} {f : A → Stateful S B}
      → Ensures P m Q E
      → ((a : A) → Ensures (Q a) (f a) R E)
      → Ensures P (m >>= f) R E
  unfolding ◌>>=◌
  ensures-bind {m = m} {f = f} h k = record { at = λ s p. Post-bind (m s).0 f (m s).1 (h.at s p) k }
