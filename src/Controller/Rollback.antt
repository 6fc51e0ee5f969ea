-- ===== src/Controller/Rollback.antt =====
-- The rollback to muted: when it returns, its last six calls were readings `On` of every output;
-- and what a failed operation that was rolled back may raise.
use pa2bridge.Base.{
  ℕ, zero, suc, ◌≡◌, refl, ap, ◌∙◌, ◌⊎◌, inl, inr, Bool, true, false, Option, List, if◌then◌else◌,
  arith, every,
}
use pa2bridge.Controller.Action.{Res, ok, err, Exn, Reason, Event, Sys, pure, raise, attempt, ◌>>=◌}
use pa2bridge.Controller.Values.{Mutes}
use pa2bridge.Controller.Device.{Controller, output_mutes, require_rollback_before}
use pa2bridge.Controller.Outputs.{
  passes, recover_outputs, after_failure, confirmed, confirm_round, recovery_rounds,
  first_reconnect, rollback_outputs, after_rollback, fail_closed, guarded,
}
use pa2bridge.Controller.Success.{bind-ok, log-bind, ok_injective}
use pa2bridge.Controller.Readback.{after_reads, log-read_mutes, all_same-true}

-- The last calls of the log read every output mute in turn, each with the value `On`.
abbrev pub EndsMuted : Option ℕ → List Event → Type 0
EndsMuted deadline log =
    (before : List Event) × (log ≡ after_reads deadline true output_mutes before)

module _ {W : Type 0} (c : Controller W) (deadline : Option ℕ) where
  confirmed-EndsMuted :
      (r : Res Mutes) (s t : Sys W)
      → (confirmed c deadline r t).0 ≡ ok true
      → ((ms : Mutes) → r ≡ ok ms → every (λ m. m.1) ms ≡ true → EndsMuted deadline t.log)
      → EndsMuted deadline (confirmed c deadline r t).1.log
  unfolding pure
  confirmed-EndsMuted (ok ms) s t h k = k ms refl (ok_injective h)
  confirmed-EndsMuted (err e) s t h k =
      let both = bind-ok (after_failure c deadline) (λ _. pure false) t h in cc both.second

  confirm_round-EndsMuted :
      (failed : Bool) (s : Sys W)
      → (confirm_round c deadline failed s).0 ≡ ok true
      → EndsMuted deadline (confirm_round c deadline failed s).1.log
  unfolding confirm_round pure attempt ◌>>=◌
  confirm_round-EndsMuted true s h = cc
  confirm_round-EndsMuted false s h = confirmed-EndsMuted _ s _ h (λ ms e all. (
    s.log,
    log-read_mutes c Exn.rollback_deadline deadline output_mutes true s e (all_same-true ms all),
  ))

  rounds_step :
      (n : ℕ) (safe : Bool) (s : Sys W)
      → (safe ≡ true → EndsMuted deadline s.log)
      → ((t : Sys W)
          → (recovery_rounds c n deadline t).0 ≡ ok tt
          → EndsMuted deadline (recovery_rounds c n deadline t).1.log)
      → ((if safe then pure tt else recovery_rounds c n deadline) s).0 ≡ ok tt
      → EndsMuted deadline ((if safe then pure tt else recovery_rounds c n deadline) s).1.log
  unfolding pure
  rounds_step n true s muted ih h = muted refl
  rounds_step n false s muted ih h = ih s h

  rounds-EndsMuted :
      (n : ℕ) (s : Sys W)
      → (recovery_rounds c n deadline s).0 ≡ ok tt
      → EndsMuted deadline (recovery_rounds c n deadline s).1.log
  unfolding recovery_rounds raise
  rounds-EndsMuted zero s h = cc
  rounds-EndsMuted (suc n) s h =
      let b1 = bind-ok _ _ s h in
      let s1 = (require_rollback_before c deadline s).1 in
      let b2 = bind-ok _ _ s1 b1.second in
      let s2 = (recover_outputs c deadline output_mutes s1).1 in
      let b3 = bind-ok _ _ s2 b2.second in
      let s3 = (confirm_round c deadline b2.value s2).1 in
      let (before, e) =
        rounds_step n b3.value s3
          (λ safe. confirm_round-EndsMuted b2.value s2 (b3.first ∙ ap Res.ok safe))
          (rounds-EndsMuted n) b3.second in
      (before, log-bind b1 ∙ (log-bind b2 ∙ (log-bind b3 ∙ e)))

  -- A rollback that returns has ended in a readback of all six outputs, each `On`, with no other
  -- call between or after.
  pub rollback_outputs-EndsMuted :
      (reconnect_first : Bool) (s : Sys W)
      → (rollback_outputs c reconnect_first deadline s).0 ≡ ok tt
      → EndsMuted deadline (rollback_outputs c reconnect_first deadline s).1.log
  unfolding rollback_outputs
  rollback_outputs-EndsMuted b s h =
      let both = bind-ok (first_reconnect c b deadline) _ s h in
      let (before, e) = rounds-EndsMuted 8 (first_reconnect c b deadline s).1 both.second in
      (before, log-bind both ∙ e)

-- What an operation that failed with this exception leaves behind: the exception is one that is
-- let through without a rollback, or says that the rollback did not succeed; or the last six calls
-- have confirmed every output muted.
abbrev pub FailedClosed : Exn → List Event → Type 0
FailedClosed e log =
    (passes e ≡ true)
    ⊎ (e ≡ Exn.rollback_deadline)
    ⊎ (e ≡ Exn.output_verification Reason.rollback_failed)
    ⊎ ((deadline : Option ℕ) × EndsMuted deadline log)

module _ {W A : Type 0} (c : Controller W) (deadline : Option ℕ) where
  after_rollback-FailedClosed :
      (final : Exn) (r : Res (Unit {0})) (s : Sys W) {e : Exn}
      → (r ≡ ok tt → EndsMuted deadline s.log)
      → (after_rollback c {A = A} final r s).0 ≡ err e
      → FailedClosed e (after_rollback c {A = A} final r s).1.log
  unfolding raise
  after_rollback-FailedClosed final (ok _) s muted h = inr (inr (inr (deadline, muted refl)))
  after_rollback-FailedClosed final (err Exn.connection_validation) s muted h = inl (ground arith)
  after_rollback-FailedClosed final (err Exn.rollback_deadline) s muted h = inr (inl (cc))
  after_rollback-FailedClosed final (err _) s muted h = inr (inr (inl (cc)))

  fail_closed-FailedClosed :
      (b : Bool) (final : Exn) (s : Sys W) {e : Exn}
      → (fail_closed c {A = A} b deadline final s).0 ≡ err e
      → FailedClosed e (fail_closed c {A = A} b deadline final s).1.log
  unfolding fail_closed attempt ◌>>=◌
  fail_closed-FailedClosed b final s h =
      after_rollback-FailedClosed final (rollback_outputs c b deadline s).0
        (rollback_outputs c b deadline s).1 (rollback_outputs-EndsMuted c deadline b s) h

  guarded_err :
      (b : Bool) (p : Bool) (e0 final : Exn) (s : Sys W) {e : Exn}
      → passes e0 ≡ p
      → ((if p then raise {A = A} e0 else fail_closed c b deadline final) s).0 ≡ err e
      → FailedClosed e ((if p then raise {A = A} e0 else fail_closed c b deadline final) s).1.log
  unfolding raise
  guarded_err b true e0 final s let_through h = inl (ground arith)
  guarded_err b false e0 final s let_through h = fail_closed-FailedClosed b final s h

  pub guarded-FailedClosed :
      (b : Bool) (final : Exn → Exn) (r : Res A) (s : Sys W) {e : Exn}
      → (guarded c b deadline final r s).0 ≡ err e
      → FailedClosed e (guarded c b deadline final r s).1.log
  unfolding pure
  guarded-FailedClosed b final (ok a) s h = cc
  guarded-FailedClosed b final (err e0) s h = guarded_err b (passes e0) e0 (final e0) s refl h
