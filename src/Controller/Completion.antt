-- ===== src/Controller/Completion.antt =====
-- What a bulk write of the output mutes has done when it returns.
use pa2bridge.Base.{
  ℕ, ◌+◌, ◌≡◌, refl, ap, ◌≢◌, sym, subst, ◌∙◌, Bool, true, false, Option, some, List, ◌++◌,
  if◌then◌else◌, All,
}
use pa2bridge.Controller.Action.{Res, ok, err, Exn, Event, Sys, Action, pure, raise, attempt, ◌>>=◌}
use pa2bridge.Controller.Values.{Preset, Mutes}
use pa2bridge.Controller.Device.{
  Controller, output_mutes, now, new_operation_deadline, admission_deadline,
}
use pa2bridge.Controller.Outputs.{
  mute_text, guarded, passes, bulk_failure, after_rollback, rollback_outputs, preset_before,
  preset_after, write_all_outputs, write_verified, set_all_outputs_muted_by, set_all_outputs_muted,
  either, fail_closed,
}
use pa2bridge.Controller.Runs.{Extends}
use pa2bridge.Controller.Footprint.{Runs-preset_before, Runs-preset_after}
use pa2bridge.Controller.Success.{bind-ok, log-bind, ok_injective}
use pa2bridge.Controller.Readback.{after_reads}
use pa2bridge.Controller.Gate.{IsRead, IsRead-reads}
use pa2bridge.Controller.Sequence.{Confirms, after_writes, write_all_outputs-sequence}

-- What a bulk write that returned has done: the readback confirms the value on every output, and
-- after the calls of `before` the log has the writes, each with its readback and its pause, the
-- readings of all six mutes, and `after`, which are only readings.
pub record Completed (d : ℕ) (muted : Bool) (readback : Mutes) (start log : List Event)
    : Type 0 where
  pub first : Option ℕ
  pub before : List Event
  pub after : List Event
  pub confirmed : Confirms muted readback
  pub reads_before : Extends IsRead start before
  pub reads_after : All IsRead after
  pub shape :
      log
      ≡ after
        ++ after_reads (some d) muted output_mutes (after_writes d first muted output_mutes before)

module _ {W : Type 0} (c : Controller W) where
  write_verified-Completed :
      (d : ℕ) (muted : Bool) (o : Option Preset) (first : Option ℕ) (start : List Event) (s : Sys W)
      {readback : Mutes}
      → Extends IsRead start s.log
      → (write_verified c muted o d first s).0 ≡ ok readback
      → Completed d muted readback start (write_verified c muted o d first s).1.log
  unfolding write_verified pure
  write_verified-Completed d muted o first start s before h =
      let b1 = bind-ok (write_all_outputs c (mute_text muted) (some d) first) _ s h in
      let s1 = (write_all_outputs c (mute_text muted) (some d) first s).1 in
      let b2 = bind-ok (preset_after c o (some d)) _ s1 b1.second in
      let (conf, seq) = write_all_outputs-sequence c d muted first s b1.first in
      let tail = (Runs-preset_after c (some d) (IsRead-reads (some d)) o).at s1 in
      record {
        first = first;
        before = s.log;
        after = tail.calls;
        confirmed = subst (Confirms muted) (ok_injective b2.second) conf;
        reads_before = before;
        reads_after = tail.allowed;
        shape = log-bind b1 ∙ (log-bind b2 ∙ (tail.appended ∙ ap (λ l. tail.calls ++ l) seq));
      }

  -- Failing closed never returns.
  fail_closed_raises :
      {A : Type 0} (b : Bool) (deadline : Option ℕ) (final : Exn) (s : Sys W) {a : A}
      → (fail_closed c b deadline final s).0 ≢ ok a
  unfolding fail_closed raise attempt ◌>>=◌
  fail_closed_raises b deadline final s h =
      go (rollback_outputs c b deadline s).0 (rollback_outputs c b deadline s).1 h
    where
      go :
          {A : Type 0} (r : Res (Unit {0})) (t : Sys W) {a : A}
          → (after_rollback c {A = A} final r t).0 ≢ ok a
      go (ok _) t h = cc
      go (err Exn.connection_validation) t h = cc
      go (err Exn.rollback_deadline) t h = cc
      go (err _) t h = cc

  either_raises :
      {A : Type 0} (b p : Bool) (deadline : Option ℕ) (e final : Exn) (s : Sys W) {a : A}
      → ((if p then raise {A = A} e else fail_closed c b deadline final) s).0 ≢ ok a
  unfolding raise
  either_raises b true deadline e final s h = cc
  either_raises b false deadline e final s h = fail_closed_raises b deadline final s h

  guarded-ok :
      {A : Type 0} (b : Bool) (deadline : Option ℕ) (final : Exn → Exn) (r : Res A) (s : Sys W)
      {a : A}
      → (guarded c b deadline final r s).0 ≡ ok a
      → (r ≡ ok a) × ((guarded c b deadline final r s).1 ≡ s)
  unfolding pure
  guarded-ok b deadline final (ok x) s h = (h, refl)
  guarded-ok b deadline final (err e) s h =
      elim (either_raises b (passes e) deadline e (final e) s h) [ ]

  guarded-attempt-ok :
      {A : Type 0} (b : Bool) (deadline : Option ℕ) (final : Exn → Exn) (m : Action W A) (s : Sys W)
      {a : A}
      → ((attempt m >>= guarded c b deadline final) s).0 ≡ ok a
      → ((m s).0 ≡ ok a) × (((attempt m >>= guarded c b deadline final) s).1 ≡ (m s).1)
  unfolding attempt ◌>>=◌
  guarded-attempt-ok b deadline final m s h = guarded-ok b deadline final (m s).0 (m s).1 h

  bulk-Completed :
      (muted : Bool) (d : ℕ) (first : Option ℕ) (s : Sys W) {readback : Mutes}
      → (set_all_outputs_muted_by c muted d first s).0 ≡ ok readback
      → Completed d muted readback s.log (set_all_outputs_muted_by c muted d first s).1.log
  unfolding set_all_outputs_muted_by
  bulk-Completed muted d first s {readback = readback} h =
      let before = preset_before c muted (some (either c first d)) in
      let b1 = bind-ok before _ s h in
      let (q, st) =
        guarded-attempt-ok true (some d) (bulk_failure c muted)
          (write_verified c muted b1.value d first) (before s).1 b1.second in
      subst (λ t. Completed d muted readback s.log t.log) (sym (b1.state ∙ st))
        (write_verified-Completed d muted b1.value first s.log (before s).1
          ((Runs-preset_before c _ (IsRead-reads _) muted).at s) q)

  -- When `set_all_outputs_muted` returns, the mutes it returns have the value on every output, and
  -- it has only read before the first write, then written each of the six outputs in order, each
  -- write followed by its own readback and, between two outputs, by the pause; then read all six
  -- mutes, and after that only read. The writes, their readbacks and the readings of all six mutes
  -- carry the one deadline that was set at the entry.
  pub set_all_outputs_muted-Completed :
      (muted : Bool) (start_deadline : Option ℕ) (s : Sys W) {readback : Mutes}
      → (set_all_outputs_muted c muted start_deadline s).0 ≡ ok readback
      → Completed
          ((c.client.monotonic s.world).0 + c.recall_timeout)
          muted
          readback
          s.log
          (set_all_outputs_muted c muted start_deadline s).1.log
  unfolding set_all_outputs_muted set_all_outputs_muted_by new_operation_deadline now pure ◌>>=◌
  set_all_outputs_muted-Completed muted start s h =
      bulk-Completed muted _
        (some (admission_deadline c start ((c.client.monotonic s.world).0 + c.recall_timeout)))
        (record { world = (c.client.monotonic s.world).1; log = s.log }) h
