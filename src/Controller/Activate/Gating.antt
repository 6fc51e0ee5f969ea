-- ===== src/Controller/Activate/Gating.antt =====
-- Preset activation as a whole: what it may have written, however it ended.
use pa2bridge.Base.{
  ℕ, ◌≡◌, refl, ◌⊎◌, inl, inr, Bool, true, false, Option, some, List, if◌then◌else◌, ◌==◌,
}
use pa2bridge.Controller.Action.{Res, ok, err, Event, Sys, Action, continue, ◌>>=◌}
use pa2bridge.Controller.Values.{Preset, Mutes, DeviceIdentity}
use pa2bridge.Controller.Device.{
  Controller, require_unmute_before, new_operation_deadline, admission_deadline,
}
use pa2bridge.Controller.Catalog.{read_current}
use pa2bridge.Controller.Resolve.{Target, resolve_preset}
use pa2bridge.Controller.Runs.{
  Extends, Extends-trans, Runs, Runs-bind, Runs-if, Runs-pure, Runs-attempt,
  Runs-new_operation_deadline, Runs-require_before,
}
use pa2bridge.Controller.Footprint.{Runs-guarded, Runs-read_current, Runs-resolve_preset}
use pa2bridge.Controller.Gate.{
  NoUnmute, Anything, NoUnmute-reads, NoUnmute-recovers, NoUnmute-On, NoUnmute-decimal,
  Anything-recovers, Anything-writes, Gated, GatedRun, Gated-silent, Gated-bind, Gated-open,
  Gated-attempt, after_silent,
}
use pa2bridge.Controller.Activate.{
  recall_muted, finish, activate_resolved_preset, report_active, activate_guarded, activate_preset,
}
use pa2bridge.Controller.Activate.Footprint.{
  Runs-verify_before_unmute, Runs-unmute_verified, Runs-recall_muted, Runs-finish,
  Runs-report_active,
}
use pa2bridge.Controller.Activate.Reported.{Resolved, Resolved-earlier, resolve_preset-Resolved}
use pa2bridge.Controller.Activate.Safety.{
  ReadyToUnmute, ReadyToUnmute-earlier, verify_before_unmute-Ready,
}

module _ {W : Type 0} (c : Controller W) (p : Preset) (d : ℕ) where
  abbrev Ready : List Event → List Event → Type 0
  Ready = ReadyToUnmute p.slot d

  abbrev GatedHere : {A : Type 0} → Action W A → Type 0
  GatedHere m = GatedRun Ready m

  gated_finish :
      (unmute_after : Bool) (q : DeviceIdentity × Mutes) → GatedHere (finish c unmute_after p d q)
  gated_finish false q = Gated-silent _ _ (Runs-pure _)
  gated_finish true q =
      Gated-open _ _ _ (Runs-verify_before_unmute c d (NoUnmute-recovers (some d)) p)
        (λ s a h. verify_before_unmute-Ready c p d s h)
        (λ _.
          Runs-unmute_verified c d (Anything-recovers (some d)) (Anything-writes _ _) p
            (Anything-writes _ _) (Anything-writes _ _) q.0)

  Runs-Anything-finish :
      (unmute_after : Bool) (q : DeviceIdentity × Mutes)
      → Runs Anything (finish c unmute_after p d q)
  Runs-Anything-finish b q =
      Runs-finish c d (Anything-recovers (some d)) (Anything-writes _ _) p (Anything-writes _ _)
        (Anything-writes _ _) b q

  silent_recall :
      (fuel : ℕ) (identity : Option DeviceIdentity) (first : ℕ)
      → Runs NoUnmute (recall_muted c fuel p d identity (some first))
  silent_recall fuel identity first =
      Runs-recall_muted c d (NoUnmute-recovers (some d)) (NoUnmute-On (some d)) p
        (NoUnmute-decimal p.slot (some d)) fuel identity (some first) (NoUnmute-reads (some first))

  gated_resolved :
      (fuel : ℕ) (unmute_after : Bool) (identity : Option DeviceIdentity) (first : ℕ)
      → GatedHere (activate_resolved_preset c fuel p unmute_after d identity (some first))
  unfolding activate_resolved_preset
  gated_resolved fuel b identity first =
      Gated-bind _ (ReadyToUnmute-earlier p.slot d) _ _
        (Gated-silent _ _ (silent_recall fuel identity first))
        (λ s q h. (gated_finish b q).at (recall_muted c fuel p d identity (some first) s).1)
        (Runs-Anything-finish b)

  gated_guarded :
      (fuel : ℕ) (unmute_after : Bool) (identity : Option DeviceIdentity) (first : ℕ)
      → GatedHere (activate_guarded c fuel p unmute_after d identity (some first))
  unfolding activate_guarded
  gated_guarded fuel b identity first =
      Gated-bind _ (ReadyToUnmute-earlier p.slot d) _ _
        (Gated-attempt _ _ (gated_resolved fuel b identity first))
        (λ s r h. inl (
          (Runs-guarded c (some d) (NoUnmute-recovers (some d)) (NoUnmute-On (some d)) false
              (λ e. e) r).at
            _))
        (λ r.
          Runs-guarded c (some d) (Anything-recovers (some d)) (Anything-writes _ _) false (λ e. e)
            r)

-- What an activation may leave in the log: no unmute; or the preset that the target names in a
-- catalog that the device reported, and after that a point of the log that is ready to unmute it,
-- with no unmute before that point.
abbrev pub ActivationSafe : {W : Type 0} → Controller W → Target → List Event → List Event → Type 0
ActivationSafe c target old new =
    Extends NoUnmute old new
    ⊎ ((p : Preset) × (d : ℕ) × (listed : List Event) × Resolved c target p old listed
        × ((mid : List Event) × ReadyToUnmute p.slot d listed mid × Extends Anything mid new))

module _ {W : Type 0} (c : Controller W) (target : Target) where
  safe_silent : (a b : List Event) → Extends NoUnmute a b → ActivationSafe c target a b
  safe_silent a b h = inl h

  safe_absorb :
      (a b d : List Event)
      → Extends NoUnmute a b
      → ActivationSafe c target b d
      → ActivationSafe c target a d
  safe_absorb a b l h (inl k) = inl (Extends-trans h k)
  safe_absorb a b l h (inr (p, d, listed, r, g)) = inr (p, d, listed, Resolved-earlier h r, g)

  gate_silent :
      (p : Preset) (d : ℕ) (a b : List Event) → Extends NoUnmute a b → Gated (Ready c p d) a b
  gate_silent p d a b h = inl h

  gate_absorb :
      (p : Preset) (d : ℕ) (a b l : List Event)
      → Extends NoUnmute a b
      → Gated (Ready c p d) b l
      → Gated (Ready c p d) a l
  gate_absorb p d a b l h (inl k) = inl (Extends-trans h k)
  gate_absorb p d a b l h (inr (mid, ready, e)) =
      inr (mid, ReadyToUnmute-earlier p.slot d a b mid h ready, e)

  safe_of_Gated :
      (p : Preset) (d : ℕ) (a b l : List Event)
      → Extends NoUnmute a b
      → Resolved c target p a b
      → Gated (Ready c p d) b l
      → ActivationSafe c target a l
  safe_of_Gated p d a b l h r (inl k) = inl (Extends-trans h k)
  safe_of_Gated p d a b l h r (inr g) = inr (p, d, b, r, g)

  -- After the resolution, which shows where the preset comes from.
  safe-Resolved :
      {A : Type 0} (d : ℕ) (old : List Event) (r : Res Preset) (f : Preset → Action W A) (s : Sys W)
      → Extends NoUnmute old s.log
      → ((p : Preset) → r ≡ ok p → Resolved c target p old s.log)
      → ((p : Preset) → Gated (Ready c p d) s.log (f p s).1.log)
      → ActivationSafe c target old (continue r f s).1.log
  safe-Resolved d old (err e) f s h found gate = inl h
  safe-Resolved d old (ok p) f s h found gate =
      safe_of_Gated p d old s.log (f p s).1.log h (found p refl) (gate p)

  Gated-branch :
      (b : Bool) (p : Preset) (d : ℕ) (fuel : ℕ) (unmute_after : Bool)
      (identity : Option DeviceIdentity) (first : ℕ) (s : Sys W)
      → Gated
          (Ready c p d)
          s.log
          ((if b
              then report_active c p identity first
              else activate_guarded c fuel p unmute_after d identity (some first))
            s).1.log
  Gated-branch true p d fuel u identity first s =
      inl ((Runs-report_active c first (NoUnmute-reads (some first)) p identity).at s)
  Gated-branch false p d fuel u identity first s = (gated_guarded c p d fuel u identity first).at s

  -- However an activation ends, and whatever the PA2, the network and the clock do: either no
  -- `Off` was written at all; or the device had listed its presets, with keys that are all known,
  -- and the target, resolved in the catalog that this listing is accepted as, restricted to the
  -- allowed slots, is a preset such that after the listing and before the first `Off` the log
  -- shows a reading of `CurrentPreset` with that preset's slot and after it, with only readings
  -- between, one reading `On` of each of the six output mutes in turn.
  pub activate_preset-gated :
      (fuel : ℕ) (unmute_after : Bool) (identity : Option DeviceIdentity)
      (start_deadline : Option ℕ) (s : Sys W)
      → ActivationSafe c target s.log
          (activate_preset c fuel target unmute_after identity start_deadline s).1.log
  unfolding activate_preset ◌>>=◌
  activate_preset-gated fuel u identity start s =
      after_silent (ActivationSafe c target) safe_silent safe_absorb _ _ s
        (Runs-new_operation_deadline c)
        λ d _.
          let first = admission_deadline c start d in
          let s1 = (new_operation_deadline c s).1 in
          let (r, s2) = resolve_preset c target (some first) s1 in
          safe-Resolved d s1.log r _ s2
            ((Runs-resolve_preset c (some first) (NoUnmute-reads (some first)) target).at s1)
            (λ p found. resolve_preset-Resolved c target (some first) s1 found)
            λ p.
              after_silent (Gated (Ready c p d)) (gate_silent p d) (gate_absorb p d) _ _ s2
                (Runs-read_current c (some first) (NoUnmute-reads (some first)))
                λ current _.
                  let s3 = (read_current c (some first) s2).1 in
                  after_silent (Gated (Ready c p d)) (gate_silent p d) (gate_absorb p d) _ _ s3
                    (Runs-require_before c _ (some first))
                    λ _ _.
                      Gated-branch (current == p.slot) p d fuel u identity first
                        (require_unmute_before c (some first) s3).1

module _ {W : Type 0} (c : Controller W) where
  finish_silent :
      (p : Preset) (d : ℕ) (q : DeviceIdentity × Mutes) → Runs NoUnmute (finish c false p d q)
  finish_silent p d q = Runs-pure _

  guarded_silent :
      (p : Preset) (d : ℕ) (fuel : ℕ) (identity : Option DeviceIdentity) (first : ℕ)
      → Runs NoUnmute (activate_guarded c fuel p false d identity (some first))
  unfolding activate_guarded activate_resolved_preset
  guarded_silent p d fuel identity first =
      Runs-bind _ _
        (Runs-attempt _
          (Runs-bind _ _ (silent_recall c p d fuel identity first) (finish_silent p d)))
        (Runs-guarded c (some d) (NoUnmute-recovers (some d)) (NoUnmute-On (some d)) false (λ e. e))

  -- An activation that is asked not to unmute never writes `Off`, however it ends: neither in its
  -- own steps nor in a rollback.
  pub activate_preset-silent :
      (fuel : ℕ) (target : Target) (identity : Option DeviceIdentity) (start_deadline : Option ℕ)
      (s : Sys W)
      → Extends NoUnmute s.log (activate_preset c fuel target false identity start_deadline s).1.log
  unfolding activate_preset
  activate_preset-silent fuel target identity start s =
      Runs.at
        (Runs-bind _ _ (Runs-new_operation_deadline c) λ d.
          let first = admission_deadline c start d in
          let reads = NoUnmute-reads (some first) in
          Runs-bind _ _ (Runs-resolve_preset c (some first) reads target) λ p.
            Runs-bind _ _ (Runs-read_current c (some first) reads) λ current.
              Runs-bind _ _ (Runs-require_before c _ (some first)) λ _.
                Runs-if (current == p.slot) _ _ (Runs-report_active c first reads p identity)
                  (guarded_silent p d fuel identity first))
        s
