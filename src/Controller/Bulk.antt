-- ===== src/Controller/Bulk.antt =====
-- Muting and unmuting on their own (`set_all_outputs_muted`, `set_output_muted`): what they may
-- write, what they have done when they return, and what they leave behind when they raise.
use pa2bridge.Base.{
  ℕ, ◌≡◌, refl, ap, sym, subst, inl, inr, true, false, Option, none, some, List, ◌∷◌, ◌++◌,
  if◌then◌else◌, All,
}
use pa2bridge.Base.Text.{Text}
use pa2bridge.Controller.Action.{
  ok, Exn, Reason, ParamPath, Event, Sys, pure, raise, attempt, ◌>>=◌, ◌>>◌,
}
use pa2bridge.Controller.Values.{Preset, parse_unsigned_integer}
use pa2bridge.Controller.Device.{
  Controller, output_mutes, current_preset_path, path_of, require_unmute_before,
  new_operation_deadline, admission_deadline,
}
use pa2bridge.Controller.Entries.{is_allowed}
use pa2bridge.Controller.Catalog.{read_current, preset_catalog, or_raise, verify_current_preset}
use pa2bridge.Controller.Outputs.{
  guarded, bulk_failure, single_failure, preset_before, write_one, set_all_outputs_muted_by,
  set_all_outputs_muted, set_path_muted, set_output_muted, either,
}
use pa2bridge.Controller.Runs.{
  CanRecover, Extends, Extends-refl, Extends-trans, Runs, Runs-bind, Runs-pure, Runs-raise,
  Runs-attempt, Runs-new_operation_deadline,
}
use pa2bridge.Controller.Footprint.{
  Runs-preset_catalog, Runs-preset_before, Runs-write_verified, Runs-write_one, Runs-guarded,
  Runs-set_all_outputs_muted_by,
}
use pa2bridge.Controller.Success.{bind-ok, log-bind, guard-ok, log-require_before}
use pa2bridge.Controller.Gate.{
  NoUnmute, IsRead, IsRead-reads, Anything, NoUnmute-reads, NoUnmute-recovers, NoUnmute-On,
  Anything-recovers, Anything-writes, Gated, GatedRun, Gated-open, after_silent,
}
use pa2bridge.Controller.Activate.Safety.{log-read_current}

-- At this point of the log a direct reading of `CurrentPreset` has given an allowed slot, and
-- after it there were only readings; nothing was unmuted since `start`.
pub record PresetVerified (allowed_slots : Option (List ℕ)) (start log : List Event) : Type 0 where
  pub slot : ℕ
  pub deadline : Option ℕ
  pub text : Text
  pub catalog : List Event
  pub before : List Event
  pub reading : parse_unsigned_integer 1 none text ≡ ok slot
  pub allowed : is_allowed allowed_slots slot ≡ true
  pub reads_only : All IsRead catalog
  pub silent : Extends NoUnmute start before
  pub shape : log ≡ catalog ++ Event.got current_preset_path deadline (some text) ∷ before

PresetVerified-earlier :
    (slots : Option (List ℕ)) (a b l : List Event)
    → Extends NoUnmute a b
    → PresetVerified slots b l
    → PresetVerified slots a l
PresetVerified-earlier slots a b l h r = record {
  slot = r.slot;
  deadline = r.deadline;
  text = r.text;
  catalog = r.catalog;
  before = r.before;
  reading = r.reading;
  allowed = r.allowed;
  reads_only = r.reads_only;
  silent = Extends-trans h r.silent;
  shape = r.shape;
}

module _ {W : Type 0} (c : Controller W) where
  log-or_raise :
      {A : Type 0} (e : Exn) (o : Option A) (s : Sys W) {a : A}
      → (or_raise c e o s).0 ≡ ok a
      → (or_raise c e o s).1.log ≡ s.log
  unfolding pure raise
  log-or_raise e none s h = cc
  log-or_raise e (some a) s h = refl

  verify_current_preset-verified :
      (deadline : Option ℕ) (s : Sys W) {p : Preset}
      → (verify_current_preset c deadline s).0 ≡ ok p
      → PresetVerified c.allowed_slots s.log (verify_current_preset c deadline s).1.log
  unfolding verify_current_preset
  verify_current_preset-verified deadline s h =
      let b1 = bind-ok (require_unmute_before c deadline) _ s h in
      let s1 = (require_unmute_before c deadline s).1 in
      let b2 = bind-ok (read_current c deadline) _ s1 b1.second in
      let s2 = (read_current c deadline s1).1 in
      let b3 = bind-ok (require_unmute_before c deadline) _ s2 b2.second in
      let s3 = (require_unmute_before c deadline s2).1 in
      let b4 = bind-ok (preset_catalog c (some b2.value) deadline) _ s3 b3.second in
      let s4 = (preset_catalog c (some b2.value) deadline s3).1 in
      let b5 =
        bind-ok
          (if is_allowed c.allowed_slots b2.value
            then pure tt
            else raise (Exn.output_verification Reason.slot_not_allowed))
          _ s4 b4.second in
      let g = guard-ok (is_allowed c.allowed_slots b2.value) _ s4 b5.first in
      let s5 =
        ((if is_allowed c.allowed_slots b2.value
            then pure tt
            else raise {A = Unit {0}} (Exn.output_verification Reason.slot_not_allowed))
          s4).1 in
      let (text, reading, read) = log-read_current c deadline s1 b2.first in
      let cat = (Runs-preset_catalog c deadline (IsRead-reads deadline) (some b2.value)).at s3 in
      record {
        slot = b2.value;
        deadline = deadline;
        text = text;
        catalog = cat.calls;
        before = s.log;
        reading = reading;
        allowed = g.0;
        reads_only = cat.allowed;
        silent = Extends-refl s.log;
        shape = cc (
          log-bind b1,
          log-bind b2,
          log-bind b3,
          log-bind b4,
          log-bind b5,
          ap (λ (t : Sys W). t.log) g.1,
          cat.appended,
          read,
          log-require_before c Exn.recall_timeout deadline s,
          log-require_before c Exn.recall_timeout deadline s2,
          log-or_raise Exn.telemetry_error _ s5 b5.second,
        );
      }

  preset_before-verified :
      (deadline : Option ℕ) (s : Sys W) {o : Option Preset}
      → (preset_before c false deadline s).0 ≡ ok o
      → PresetVerified c.allowed_slots s.log (preset_before c false deadline s).1.log
  unfolding preset_before pure
  preset_before-verified deadline s h =
      let both = bind-ok (verify_current_preset c deadline) _ s h in
      let v = verify_current_preset-verified deadline s both.first in
      subst (λ l. PresetVerified c.allowed_slots s.log l) (sym (log-bind both)) v

  abbrev pub Verified : List Event → List Event → Type 0
  Verified = PresetVerified c.allowed_slots

  abbrev Earlier : (a b l : List Event) → Extends NoUnmute a b → Verified b l → Verified a l
  Earlier = PresetVerified-earlier c.allowed_slots

  abbrev pub UnmuteSafe : List Event → List Event → Type 0
  UnmuteSafe = Gated Verified

  safe_silent : (a b : List Event) → Extends NoUnmute a b → UnmuteSafe a b
  safe_silent a b h = inl h

  safe_absorb : (a b d : List Event) → Extends NoUnmute a b → UnmuteSafe b d → UnmuteSafe a d
  safe_absorb a b l h (inl k) = inl (Extends-trans h k)
  safe_absorb a b l h (inr (mid, v, e)) = inr (mid, Earlier a b mid h v, e)

  module _ (d : ℕ) where
    any_recovers : CanRecover Anything (some d)
    any_recovers = Anything-recovers (some d)

    gated_bulk : (first : Option ℕ) → GatedRun Verified (set_all_outputs_muted_by c false d first)
    unfolding set_all_outputs_muted_by
    gated_bulk first =
        Gated-open _ (preset_before c false (some (either c first d))) _
          (Runs-preset_before c _ (NoUnmute-reads _) false) (λ s o h. preset_before-verified _ s h)
          (λ o.
            Runs-bind _ _
              (Runs-attempt _ (
                Runs-write_verified c d any_recovers (Anything-writes _ _) false
                  (Anything-writes _ _) o first))
              (Runs-guarded c (some d) any_recovers (Anything-writes _ _) true
                (bulk_failure c false)))

    gated_single :
        (path : ParamPath) (admission : ℕ)
        → GatedRun Verified (do
          preset ← preset_before c false (some admission)
          result ← attempt (write_one c path false preset admission d)
          guarded c true (some d) (single_failure c false) result
          pure false)
    gated_single path admission =
        Gated-open _ (preset_before c false (some admission)) _
          (Runs-preset_before c _ (NoUnmute-reads _) false) (λ s o h. preset_before-verified _ s h)
          (λ o.
            Runs-bind _ _
              (Runs-attempt _ (
                Runs-write_one c d any_recovers (Anything-writes _ _) false (Anything-writes _ _)
                  path o admission))
              (λ r.
                Runs-bind _ _
                  (Runs-guarded c (some d) any_recovers (Anything-writes _ _) true
                    (single_failure c false) r)
                  (λ _. Runs-pure false)))

  gated_path :
      (o : Option ParamPath) (start : Option ℕ) (s : Sys W)
      → UnmuteSafe s.log (set_path_muted c o false start s).1.log
  unfolding set_path_muted raise
  gated_path none start s = inl (Extends-refl s.log)
  gated_path (some path) start s =
      after_silent UnmuteSafe safe_silent safe_absorb (new_operation_deadline c) _ s
        (Runs-new_operation_deadline c)
        (λ d _.
          (gated_single d path (admission_deadline c start d)).at (new_operation_deadline c s).1)

  -- Unmuting all outputs, or one output, however it ends: either no `Off` was written; or before
  -- the first `Off` the log shows a direct reading of `CurrentPreset` with a slot that is allowed,
  -- and after it only readings.
  pub unmute-gated :
      (channel : Text) (start_deadline : Option ℕ) (s : Sys W)
      → UnmuteSafe s.log (set_all_outputs_muted c false start_deadline s).1.log
        × UnmuteSafe s.log (set_output_muted c channel false start_deadline s).1.log
  unfolding set_all_outputs_muted set_output_muted
  unmute-gated channel start s = (
    after_silent UnmuteSafe safe_silent safe_absorb (new_operation_deadline c) _ s
        (Runs-new_operation_deadline c)
        (λ d _.
          (gated_bulk d (some (admission_deadline c start d))).at (new_operation_deadline c s).1),
    gated_path (path_of channel output_mutes) start s,
  )

  silent_path :
      (o : Option ParamPath) (start : Option ℕ) → Runs NoUnmute (set_path_muted c o true start)
  unfolding set_path_muted
  silent_path none start = Runs-raise Exn.value_error
  silent_path (some path) start = Runs-bind _ _ (Runs-new_operation_deadline c) λ d.
      let rec = NoUnmute-recovers (some d) in
      let on = NoUnmute-On (some d) in
      Runs-bind _ _ (Runs-preset_before c _ (NoUnmute-reads _) true) λ o.
        Runs-bind _ _
          (Runs-attempt _ (Runs-write_one c d rec on true on path o (admission_deadline c start d)))
          (λ r.
            Runs-bind _ _ (Runs-guarded c (some d) rec on true (single_failure c true) r)
              (λ _. Runs-pure true))

  -- Muting all outputs, or one output, never writes `Off`, however it ends.
  pub mute-silent :
      (channel : Text) (start_deadline : Option ℕ) (s : Sys W)
      → Extends NoUnmute s.log (set_all_outputs_muted c true start_deadline s).1.log
        × Extends NoUnmute s.log (set_output_muted c channel true start_deadline s).1.log
  unfolding set_all_outputs_muted set_output_muted
  mute-silent channel start s = (
    Runs.at
        (Runs-bind _ _ (Runs-new_operation_deadline c) (λ d.
          Runs-set_all_outputs_muted_by c d (NoUnmute-recovers (some d)) (NoUnmute-On (some d)) true
            (NoUnmute-On (some d)) (some (admission_deadline c start d)) (NoUnmute-reads _)))
        s,
    (silent_path (path_of channel output_mutes) start).at s,
  )
