-- ===== src/Controller/Activate/Safety.antt =====
-- The safety of preset activation: no output is unmuted before the recalled preset and the muted
-- state of every output have been confirmed by readings of the PA2.
use pa2bridge.Base.{ℕ, ◌≡◌, ap, ◌∙◌, true, Option, none, some, List, ◌∷◌, ◌++◌, ==_iff, All}
use pa2bridge.Base.Text.{Text}
use pa2bridge.Controller.Action.{Res, ok, Exn, Event, Sys, pure, lift}
use pa2bridge.Controller.Values.{Preset, parse_unsigned_integer}
use pa2bridge.Controller.Device.{
  Controller, output_mutes, current_preset_path, require_unmute_before,
}
use pa2bridge.Controller.Catalog.{read_current, preset_catalog}
use pa2bridge.Controller.Outputs.{read_all_output_mutes}
use pa2bridge.Controller.Runs.{Extends, Extends-trans}
use pa2bridge.Controller.Footprint.{Runs-preset_catalog}
use pa2bridge.Controller.Success.{bind-ok, log-bind, guard-ok, log-require_before, log-client_get}
use pa2bridge.Controller.Readback.{after_reads, log-read_mutes, all_same-true}
use pa2bridge.Controller.Gate.{NoUnmute, NoUnmute-recovers, IsRead, IsRead-reads}
use pa2bridge.Controller.Activate.{settle, confirm_active, require_all_muted, verify_before_unmute}
use pa2bridge.Controller.Activate.Footprint.{Runs-settle}

-- At this point of the log the last calls were: a direct reading of `CurrentPreset` that gives the
-- slot, then readings only, then one reading of each of the six mutes, in order and all `On`. All
-- these readings carry the deadline `d`, and nothing was unmuted since `start`.
pub record ReadyToUnmute (slot d : ℕ) (start log : List Event) : Type 0 where
  pub text : Text
  pub catalog : List Event
  pub before : List Event
  pub reading : parse_unsigned_integer 1 none text ≡ ok slot
  pub reads_only : All IsRead catalog
  pub silent : Extends NoUnmute start before
  pub shape :
      log
      ≡ after_reads
          (some d)
          true
          output_mutes
          (catalog ++ Event.got current_preset_path (some d) (some text) ∷ before)

pub ReadyToUnmute-earlier :
    (slot d : ℕ) (a b l : List Event)
    → Extends NoUnmute a b
    → ReadyToUnmute slot d b l
    → ReadyToUnmute slot d a l
ReadyToUnmute-earlier slot d a b l h r = record {
  text = r.text;
  catalog = r.catalog;
  before = r.before;
  reading = r.reading;
  reads_only = r.reads_only;
  silent = Extends-trans h r.silent;
  shape = r.shape;
}

module _ {W : Type 0} (c : Controller W) where
  pub log-read_current :
      (deadline : Option ℕ) (s : Sys W) {n : ℕ}
      → (read_current c deadline s).0 ≡ ok n
      → (text : Text) × (parse_unsigned_integer 1 none text ≡ ok n)
        × ((read_current c deadline s).1.log
            ≡ Event.got current_preset_path deadline (some text) ∷ s.log)
  unfolding read_current lift
  log-read_current deadline s h =
      let both = bind-ok _ _ s h in
      (
        both.value,
        both.second,
        log-bind both ∙ log-client_get c current_preset_path deadline s both.first,
      )

  pub log-require_all_muted :
      (d : ℕ) (s : Sys W) {u : Unit {0}}
      → (require_all_muted c d s).0 ≡ ok u
      → (require_all_muted c d s).1.log ≡ after_reads (some d) true output_mutes s.log
  unfolding require_all_muted
  log-require_all_muted d s h =
      let both = bind-ok _ _ s h in
      let g = guard-ok _ _ (read_all_output_mutes c (some d) s).1 both.second in
      log-bind both
      ∙ (ap (λ (t : Sys W). t.log) g.1
          ∙ log-read_mutes c Exn.recall_timeout (some d) output_mutes true s both.first
              (all_same-true both.value g.0))

  log-confirm_active :
      (p : Preset) (d : ℕ) (s : Sys W) {n : ℕ}
      → (confirm_active c p d s).0 ≡ ok n
      → (text : Text) × (parse_unsigned_integer 1 none text ≡ ok p.slot)
        × ((confirm_active c p d s).1.log
            ≡ Event.got current_preset_path (some d) (some text) ∷ s.log)
  unfolding confirm_active pure
  log-confirm_active p d s h =
      let b1 = bind-ok _ _ s h in
      let s1 = (read_current c (some d) s).1 in
      let b2 = bind-ok _ _ s1 b1.second in
      let s2 = (require_unmute_before c (some d) s1).1 in
      let b3 = bind-ok _ _ s2 b2.second in
      let g = guard-ok _ _ s2 b3.first in
      let (text, reading, shape) = log-read_current (some d) s b1.first in
      (
        text,
        reading ∙ ap Res.ok ((==_iff b1.value p.slot).0 g.0),
        log-bind b1
            ∙ (log-bind b2
                ∙ (log-bind b3
                    ∙ (ap (λ (t : Sys W). t.log) g.1
                        ∙ (log-require_before c Exn.recall_timeout (some d) s1 ∙ shape)))),
      )

  -- When the verification before an unmute returns, its last calls were a direct reading of
  -- `CurrentPreset` with the slot of the preset, then readings only, then one reading `On` of each of
  -- the six output mutes in turn; and it has unmuted nothing.
  pub verify_before_unmute-Ready :
      (p : Preset) (d : ℕ) (s : Sys W) {u : Unit {0}}
      → (verify_before_unmute c p d s).0 ≡ ok u
      → ReadyToUnmute p.slot d s.log (verify_before_unmute c p d s).1.log
  unfolding verify_before_unmute
  verify_before_unmute-Ready p d s h =
      let b1 = bind-ok _ _ s h in
      let s1 = (settle c d s).1 in
      let b2 = bind-ok _ _ s1 b1.second in
      let s2 = (confirm_active c p d s1).1 in
      let b3 = bind-ok _ _ s2 b2.second in
      let s3 = (preset_catalog c (some b2.value) (some d) s2).1 in
      let b4 = bind-ok _ _ s3 b3.second in
      let s4 = (require_unmute_before c (some d) s3).1 in
      let b5 = bind-ok _ _ s4 b4.second in
      let s5 = (require_all_muted c d s4).1 in
      let (text, reading, shape) = log-confirm_active p d s1 b2.first in
      let cat = (Runs-preset_catalog c (some d) (IsRead-reads (some d)) (some b2.value)).at s2 in
      record {
        text = text;
        catalog = cat.calls;
        before = s1.log;
        reading = reading;
        reads_only = cat.allowed;
        silent = (Runs-settle c d (NoUnmute-recovers (some d))).at s;
        shape = cc (
          log-bind b1,
          log-bind b2,
          log-bind b3,
          log-bind b4,
          log-bind b5,
          log-require_before c Exn.recall_timeout (some d) s5,
          log-require_all_muted d s4 b5.first,
          log-require_before c Exn.recall_timeout (some d) s3,
          cat.appended,
          shape,
        );
      }
