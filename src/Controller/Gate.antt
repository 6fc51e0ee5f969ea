-- ===== src/Controller/Gate.antt =====
-- Actions that unmute only once a condition on the record of calls holds: rules to prove it.
use pa2bridge.Base.{
  ℕ, ◌≡◌, refl, ◌⊎◌, inl, inr, Bool, true, false, Option, none, some, List, [], ◌∷◌, if◌then◌else◌,
  arith,
}
use pa2bridge.Base.Text.{Text, codes, text_eq}
use pa2bridge.Base.Decimal.{decimal, is_unsigned_integer, decimal-is_unsigned_integer}
use pa2bridge.Base.{subst, sym, ap, ◌∙◌}
use pa2bridge.Base.Text.{eq_of_text_eq}
use pa2bridge.Controller.Action.{Res, ok, err, Event, Sys, Action, attempt, continue, ◌>>=◌}
use pa2bridge.Controller.Runs.{
  Extends, Extends-refl, Extends-trans, Runs, CanRead, CanRecover, CanWrite,
}

-- The call does not write `Off` to the PA2.
abbrev pub NoUnmute : Event → Type 0
NoUnmute (Event.wrote path value start deadline v) = text_eq value (codes "Off") ≡ false
NoUnmute (Event.got path deadline v) = Unit
NoUnmute (Event.listed path deadline v) = Unit
NoUnmute (Event.reconnected deadline v) = Unit
NoUnmute (Event.validated deadline v) = Unit
NoUnmute (Event.slept d) = Unit

-- The call only reads, and lists.
abbrev pub IsRead : Event → Type 0
IsRead (Event.got path deadline v) = Unit
IsRead (Event.listed path deadline v) = Unit
IsRead (Event.wrote path value start deadline v) = ⊥
IsRead (Event.reconnected deadline v) = ⊥
IsRead (Event.validated deadline v) = ⊥
IsRead (Event.slept d) = ⊥

abbrev pub Anything : Event → Type 0
Anything e = Unit

pub NoUnmute-reads : (deadline : Option ℕ) → CanRead NoUnmute deadline
NoUnmute-reads deadline = record { gets = λ path v. tt; lists = λ path v. tt }

pub NoUnmute-recovers : (deadline : Option ℕ) → CanRecover NoUnmute deadline
NoUnmute-recovers deadline = record {
  reads = NoUnmute-reads deadline;
  reconnects = λ v. tt;
  validates = λ v. tt;
  sleeps = λ d. tt;
}

pub NoUnmute-On : (deadline : Option ℕ) → CanWrite NoUnmute (codes "On") deadline
unfolding text_eq
NoUnmute-On deadline = record { writes = λ path start v. refl }

not_numeral : is_unsigned_integer (codes "Off") ≡ false
unfolding is_unsigned_integer
not_numeral = refl

numeral-ne-off : (n : ℕ) (b : Bool) → text_eq (decimal n) (codes "Off") ≡ b → b ≡ false
numeral-ne-off n false h = refl
numeral-ne-off n true h =
    cc (decimal-is_unsigned_integer n, not_numeral, ap is_unsigned_integer (eq_of_text_eq _ _ h))

-- The recall of a preset writes a number, not `Off`.
pub NoUnmute-decimal : (n : ℕ) (deadline : Option ℕ) → CanWrite NoUnmute (decimal n) deadline
NoUnmute-decimal n deadline = record {
  writes = λ path start v. numeral-ne-off n (text_eq (decimal n) (codes "Off")) refl;
}

pub IsRead-reads : (deadline : Option ℕ) → CanRead IsRead deadline
IsRead-reads deadline = record { gets = λ path v. tt; lists = λ path v. tt }

pub Anything-recovers : (deadline : Option ℕ) → CanRecover Anything deadline
Anything-recovers deadline = record {
  reads = record { gets = λ path v. tt; lists = λ path v. tt };
  reconnects = λ v. tt;
  validates = λ v. tt;
  sleeps = λ d. tt;
}

pub Anything-writes : (value : Text) (deadline : Option ℕ) → CanWrite Anything value deadline
Anything-writes value deadline = record { writes = λ path start v. tt }

All-Anything : (l : List Event) → pa2bridge.Base.All Anything l
All-Anything [] = tt
All-Anything (e ∷ l) = (tt, All-Anything l)

pub forget : {P : Event → Type 0} {a b : List Event} → Extends P a b → Extends Anything a b
forget h = record { calls = h.calls; appended = h.appended; allowed = All-Anything h.calls }

-- Nothing was unmuted, or the log has passed through a point where `Ready` holds, and nothing was
-- unmuted up to there. `Ready` relates the log at the start of an operation to a later one.
abbrev pub Gated : (List Event → List Event → Type 0) → List Event → List Event → Type 0
Gated Ready old new =
    Extends NoUnmute old new ⊎ ((mid : List Event) × Ready old mid × Extends Anything mid new)

pub record GatedRun {W A : Type 0} (Ready : List Event → List Event → Type 0) (m : Action W A)
    : Type 0 where
  pub at : (s : Sys W) → Gated Ready s.log (m s).1.log

module _ (Ready : List Event → List Event → Type 0) where
  pub Gated-silent : {W A : Type 0} (m : Action W A) → Runs NoUnmute m → GatedRun Ready m
  Gated-silent m h = record { at = λ s. inl (h.at s) }

  pub Gated-attempt :
      {W A : Type 0} (m : Action W A) → GatedRun Ready m → GatedRun Ready (attempt m)
  unfolding attempt
  Gated-attempt m h = record { at = λ s. h.at s }

  module _ {W A B : Type 0} where
    open_continue :
        (old : List Event) (r : Res A) (f : A → Action W B) (s : Sys W)
        → Extends NoUnmute old s.log
        → ((a : A) → r ≡ ok a → Ready old s.log)
        → ((a : A) → Runs Anything (f a))
        → Gated Ready old (continue r f s).1.log
    open_continue old (ok a) f s h ready any = inr (s.log, ready a refl, (any a).at s)
    open_continue old (err e) f s h ready any = inl h

    -- The first part opens the gate: where it returns, anything may follow.
    pub Gated-open :
        (m : Action W A) (f : A → Action W B)
        → Runs NoUnmute m
        → ((s : Sys W) (a : A) → (m s).0 ≡ ok a → Ready s.log (m s).1.log)
        → ((a : A) → Runs Anything (f a))
        → GatedRun Ready (m >>= f)
    unfolding ◌>>=◌
    Gated-open m f hm ready any = record {
      at = λ s. open_continue s.log (m s).0 f (m s).1 (hm.at s) (ready s) any;
    }

-- Here `Ready` may be read from an earlier start, as long as nothing was unmuted in between.
module _ (Ready : List Event → List Event → Type 0)
    (earlier : (a b d : List Event) → Extends NoUnmute a b → Ready b d → Ready a d) where
  pub Gated-trans :
      (a b d : List Event)
      → Gated Ready a b
      → Gated Ready b d
      → Extends Anything b d
      → Gated Ready a d
  Gated-trans a b d (inr (mid, r, e)) k e' = inr (mid, r, Extends-trans e e')
  Gated-trans a b d (inl h) (inl k) e' = inl (Extends-trans h k)
  Gated-trans a b d (inl h) (inr (mid, r, e)) e' = inr (mid, earlier a b mid h r, e)

  module _ {W A B : Type 0} where
    Gated-continue :
        (r : Res A) (f : A → Action W B) (s : Sys W)
        → ((a : A) → r ≡ ok a → Gated Ready s.log (f a s).1.log)
        → Gated Ready s.log (continue r f s).1.log
    Gated-continue (ok a) f s h = h a refl
    Gated-continue (err e) f s h = inl (Extends-refl s.log)

    Extends-continue :
        (r : Res A) (f : A → Action W B) (s : Sys W)
        → ((a : A) → Runs Anything (f a))
        → Extends Anything s.log (continue r f s).1.log
    Extends-continue (ok a) f s h = (h a).at s
    Extends-continue (err e) f s h = Extends-refl s.log

    -- The second part may use that the first has returned.
    pub Gated-bind :
        (m : Action W A) (f : A → Action W B)
        → GatedRun Ready m
        → ((s : Sys W) (a : A) → (m s).0 ≡ ok a → Gated Ready (m s).1.log (f a (m s).1).1.log)
        → ((a : A) → Runs Anything (f a))
        → GatedRun Ready (m >>= f)
    unfolding ◌>>=◌
    Gated-bind m f hm hf any = record {
      at = λ s.
          Gated-trans s.log (m s).1.log (continue (m s).0 f (m s).1).1.log (hm.at s)
            (Gated-continue (m s).0 f (m s).1 (hf s)) (Extends-continue (m s).0 f (m s).1 any);
    }

-- A part that unmutes nothing may stand before any action whose log satisfies a relation that
-- holds of silent runs and absorbs a silent run before it.
module _ (G : List Event → List Event → Type 0)
    (silent : (a b : List Event) → Extends NoUnmute a b → G a b)
    (absorb : (a b d : List Event) → Extends NoUnmute a b → G b d → G a d) where
  after_continue :
      {W A B : Type 0} (old : List Event) (r : Res A) (f : A → Action W B) (s : Sys W)
      → Extends NoUnmute old s.log
      → ((a : A) → r ≡ ok a → G s.log (f a s).1.log)
      → G old (continue r f s).1.log
  after_continue old (ok a) f s h k = absorb old s.log (f a s).1.log h (k a refl)
  after_continue old (err e) f s h k = silent old s.log h

  pub after_silent :
      {W A B : Type 0} (m : Action W A) (f : A → Action W B) (s : Sys W)
      → Runs NoUnmute m
      → ((a : A) → (m s).0 ≡ ok a → G (m s).1.log (f a (m s).1).1.log)
      → G s.log ((m >>= f) s).1.log
  unfolding ◌>>=◌
  after_silent m f s hm hf = after_continue s.log (m s).0 f (m s).1 (hm.at s) hf
