-- ===== src/Controller/Outcome.antt =====
-- How the public methods end: what they leave behind when they raise.
use pa2bridge.Base.{
  ℕ, ◌≡◌, sym, subst, ◌⊎◌, inl, inr, Bool, true, false, Option, none, some, List, if◌then◌else◌,
  ◌==◌,
}
use pa2bridge.Base.Text.{Text}
use pa2bridge.Controller.Action.{
  ok, err, Exn, ParamPath, Event, Sys, Action, pure, raise, attempt, ◌>>=◌, ◌>>◌,
}
use pa2bridge.Controller.Values.{Preset, DeviceIdentity}
use pa2bridge.Controller.Device.{Controller, output_mutes, path_of, admission_deadline}
use pa2bridge.Controller.Resolve.{Target}
use pa2bridge.Controller.Outputs.{
  guarded, bulk_failure, single_failure, write_verified, write_one, set_all_outputs_muted_by,
  set_all_outputs_muted, set_path_muted, set_output_muted,
}
use pa2bridge.Controller.Activate.{
  activate_resolved_preset, activate_guarded, activate_preset, report_active,
}
use pa2bridge.Controller.Runs.{
  Extends, Extends-refl, Extends-trans, Runs, Runs-new_operation_deadline, Runs-require_before,
}
use pa2bridge.Controller.Footprint.{Runs-preset_before, Runs-resolve_preset, Runs-read_current}
use pa2bridge.Controller.Activate.Footprint.{Runs-report_active}
use pa2bridge.Controller.Success.{bind-err}
use pa2bridge.Controller.Gate.{NoUnmute, NoUnmute-reads}
use pa2bridge.Controller.Rollback.{FailedClosed, guarded-FailedClosed}

-- What a failed operation leaves: nothing was unmuted, or it failed closed.
abbrev pub Contained : Exn → List Event → List Event → Type 0
Contained e old new = Extends NoUnmute old new ⊎ FailedClosed e new

Contained-after :
    (e : Exn) (a b d : List Event) → Extends NoUnmute a b → Contained e b d → Contained e a d
Contained-after e a b d h (inl k) = inl (Extends-trans h k)
Contained-after e a b d h (inr k) = inr k

module _ {W A B : Type 0} where
  -- A silent part before an operation that is contained.
  Contained-bind :
      (m : Action W A) (f : A → Action W B) (s : Sys W) {e : Exn}
      → Runs NoUnmute m
      → ((a : A) (t : Sys W) → (f a t).0 ≡ err e → Contained e t.log (f a t).1.log)
      → ((m >>= f) s).0 ≡ err e
      → Contained e s.log ((m >>= f) s).1.log
  Contained-bind m f s {e = e} hm hf h = go (bind-err m f s h)
    where
      go :
          (((m s).0 ≡ err e) × (((m >>= f) s).1 ≡ (m s).1))
            ⊎ ((a : A) × ((m s).0 ≡ ok a)
                × ((f a (m s).1).0 ≡ err e)
                × (((m >>= f) s).1 ≡ (f a (m s).1).1))
          → Contained e s.log ((m >>= f) s).1.log
      go (inl (q, st)) = inl (subst (λ t. Extends NoUnmute s.log t.log) (sym st) (hm.at s))
      go (inr (a, q, r, st)) =
          subst (λ t. Contained e s.log t.log) (sym st)
            (Contained-after e s.log (m s).1.log _ (hm.at s) (hf a (m s).1 r))

module _ {W A : Type 0} (c : Controller W) where
  guarded-attempt :
      (b : Bool) (deadline : Option ℕ) (final : Exn → Exn) (m : Action W A) (s : Sys W) {e : Exn}
      → ((attempt m >>= guarded c b deadline final) s).0 ≡ err e
      → FailedClosed e ((attempt m >>= guarded c b deadline final) s).1.log
  unfolding attempt ◌>>=◌
  guarded-attempt b deadline final m s h = guarded-FailedClosed c deadline b final (m s).0 (m s).1 h

module _ {W : Type 0} (c : Controller W) where
  bulk-Contained :
      (muted : Bool) (d : ℕ) (first : Option ℕ) (s : Sys W) {e : Exn}
      → (set_all_outputs_muted_by c muted d first s).0 ≡ err e
      → Contained e s.log (set_all_outputs_muted_by c muted d first s).1.log
  unfolding set_all_outputs_muted_by
  bulk-Contained muted d first s h =
      Contained-bind _ _ s (Runs-preset_before c _ (NoUnmute-reads _) muted)
        (λ o t q. inr (
          guarded-attempt c true (some d) (bulk_failure c muted) (write_verified c muted o d first)
            t q))
        h

  pure_after :
      (b : Bool) (m : Action W (Unit {0})) (s : Sys W) {e : Exn}
      → ((m >> pure b) s).0 ≡ err e
      → ((m s).0 ≡ err e) × (((m >> pure b) s).1 ≡ (m s).1)
  unfolding pure
  pure_after b m s {e = e} h = go (bind-err m (λ _. pure b) s h)
    where
      go :
          (((m s).0 ≡ err e) × (((m >> pure b) s).1 ≡ (m s).1))
            ⊎ ((a : Unit {0}) × ((m s).0 ≡ ok a)
                × ((pure b (m s).1).0 ≡ err e)
                × (((m >> pure b) s).1 ≡ (pure b (m s).1).1))
          → ((m s).0 ≡ err e) × (((m >> pure b) s).1 ≡ (m s).1)
      go (inl q) = q
      go (inr (a, q, r, st)) = cc

  single_attempt :
      (path : ParamPath) (muted : Bool) (o : Option Preset) (admission d : ℕ) (s : Sys W) {e : Exn}
      → ((attempt (write_one c path muted o admission d) >>= λ r.
            guarded c true (some d) (single_failure c muted) r >> pure muted)
          s).0
        ≡ err e
      → FailedClosed e
          ((attempt (write_one c path muted o admission d) >>= λ r.
              guarded c true (some d) (single_failure c muted) r >> pure muted)
            s).1.log
  unfolding attempt ◌>>=◌
  single_attempt path muted o admission d s {e = e} h =
      let r = (write_one c path muted o admission d s).0 in
      let t = (write_one c path muted o admission d s).1 in
      let m = guarded c true (some d) (single_failure c muted) r in
      let (q, st) = pure_after muted m t h in
      subst (λ u. FailedClosed e u.log) (sym st)
        (guarded-FailedClosed c (some d) true (single_failure c muted) r t q)

  single-Contained :
      (o : Option ParamPath) (muted : Bool) (start : Option ℕ) (s : Sys W) {e : Exn}
      → (set_path_muted c o muted start s).0 ≡ err e
      → Contained e s.log (set_path_muted c o muted start s).1.log
  unfolding set_path_muted raise
  single-Contained none muted start s h = inl (Extends-refl s.log)
  single-Contained (some path) muted start s h =
      Contained-bind _ _ s (Runs-new_operation_deadline c)
        (λ d t q.
          Contained-bind _ _ t (Runs-preset_before c _ (NoUnmute-reads _) muted)
            (λ o u r. inr (single_attempt path muted o (admission_deadline c start d) d u r)) q)
        h

  -- If muting or unmuting all outputs raises, then nothing was unmuted; or the exception is one that
  -- is let through without a rollback (an expired start deadline, a peer that is not the expected
  -- device), or says that the rollback did not succeed; or else the last six calls were readings of
  -- the six output mutes, each `On`.
  pub set_all_outputs_muted-Contained :
      (muted : Bool) (start_deadline : Option ℕ) (s : Sys W) {e : Exn}
      → (set_all_outputs_muted c muted start_deadline s).0 ≡ err e
      → Contained e s.log (set_all_outputs_muted c muted start_deadline s).1.log
  unfolding set_all_outputs_muted
  set_all_outputs_muted-Contained muted start s h =
      Contained-bind _ _ s (Runs-new_operation_deadline c)
        (λ d t q. bulk-Contained muted d (some (admission_deadline c start d)) t q) h

  -- If muting or unmuting one output raises, also for an unknown channel, then nothing was unmuted;
  -- or the exception is let through without a rollback or says that the rollback did not succeed; or
  -- the last six calls were readings of the six output mutes, each `On`.
  pub set_output_muted-Contained :
      (channel : Text) (muted : Bool) (start_deadline : Option ℕ) (s : Sys W) {e : Exn}
      → (set_output_muted c channel muted start_deadline s).0 ≡ err e
      → Contained e s.log (set_output_muted c channel muted start_deadline s).1.log
  unfolding set_output_muted
  set_output_muted-Contained channel muted start s h =
      single-Contained (path_of channel output_mutes) muted start s h

  activation-Contained :
      (fuel : ℕ) (b : Bool) (p : Preset) (u : Bool) (d : ℕ) (identity : Option DeviceIdentity)
      (first : ℕ) (s : Sys W) {e : Exn}
      → ((if b
            then report_active c p identity first
            else activate_guarded c fuel p u d identity (some first))
          s).0
        ≡ err e
      → Contained e s.log
          ((if b
              then report_active c p identity first
              else activate_guarded c fuel p u d identity (some first))
            s).1.log
  unfolding activate_guarded
  activation-Contained fuel true p u d identity first s h =
      inl ((Runs-report_active c first (NoUnmute-reads (some first)) p identity).at s)
  activation-Contained fuel false p u d identity first s h = inr (
      guarded-attempt c false (some d) (λ x. x)
        (activate_resolved_preset c fuel p u d identity (some first)) s h)

  -- If an activation raises, then nothing was unmuted; or the exception is one that is let through
  -- without a rollback (an expired start deadline, a peer that is not the expected device), or says
  -- that the rollback did not succeed; or the last six calls were readings of the six output mutes,
  -- each `On`.
  pub activate_preset-Contained :
      (fuel : ℕ) (target : Target) (unmute_after : Bool) (identity : Option DeviceIdentity)
      (start_deadline : Option ℕ) (s : Sys W) {e : Exn}
      → (activate_preset c fuel target unmute_after identity start_deadline s).0 ≡ err e
      → Contained e s.log
          (activate_preset c fuel target unmute_after identity start_deadline s).1.log
  unfolding activate_preset
  activate_preset-Contained fuel target u identity start s h =
      Contained-bind _ _ s (Runs-new_operation_deadline c)
        (λ d t1 h1.
          let first = admission_deadline c start d in
          let reads = NoUnmute-reads (some first) in
          Contained-bind _ _ t1 (Runs-resolve_preset c (some first) reads target)
            (λ p t2 h2.
              Contained-bind _ _ t2 (Runs-read_current c (some first) reads)
                (λ current t3 h3.
                  Contained-bind _ _ t3 (Runs-require_before c _ (some first))
                    (λ _ t4 h4.
                      activation-Contained fuel (current == p.slot) p u d identity first t4 h4)
                    h3)
                h2)
            h1)
        h
