-- ===== src/Controller/Activate/Reported.antt =====
-- Where the preset of an activation comes from (src/pa2bridge/controller.py, lines 1257 to 1379).
use pa2bridge.Base.{
  ℕ, ◌≡◌, refl, ap, sym, subst, ◌∙◌, Bool, true, false, Option, none, some, List, ◌∷◌, ◌++◌,
  if◌then◌else◌,
}
use pa2bridge.Base.Text.{codes}
use pa2bridge.Controller.Action.{ok, Exn, Entries, Event, Sys, pure, raise, lift}
use pa2bridge.Controller.Values.{Preset}
use pa2bridge.Controller.Device.{Controller, preset_root, client_ls, require_unmute_before}
use pa2bridge.Controller.Entries.{
  entry, preset_count, build_catalog, has_unexpected_key, allowed_presets,
}
use pa2bridge.Controller.Catalog.{current_slot, preset_catalog}
use pa2bridge.Controller.Resolve.{Target, resolve_target, resolve_preset}
use pa2bridge.Controller.Runs.{Extends, Extends-refl, Extends-trans}
use pa2bridge.Controller.Footprint.{Runs-current_slot}
use pa2bridge.Controller.Gate.{NoUnmute, NoUnmute-reads}
use pa2bridge.Controller.Success.{bind-ok, log-bind, log-client_ls, log-require_before}

-- Between the two logs the device was asked for the entries of `Preset` and answered, and those
-- entries are accepted as this catalog. Nothing was unmuted before the answer or after it.
pub record Reported (old new : List Event) (expected : Option ℕ) (catalog : List Preset)
    : Type 0 where
  pub deadline : Option ℕ
  pub entries : Entries
  pub count : ℕ
  pub current : ℕ
  pub before : List Event
  pub keys_known : has_unexpected_key entries ≡ false
  pub counted : preset_count entries ≡ ok count
  pub built : build_catalog entries count current expected ≡ ok catalog
  pub silent_before : Extends NoUnmute old before
  pub silent_after :
      Extends NoUnmute (Event.listed preset_root deadline (some entries) ∷ before) new

pub Reported-earlier :
    {a b l : List Event} {expected : Option ℕ} {catalog : List Preset}
    → Extends NoUnmute a b
    → Reported b l expected catalog
    → Reported a l expected catalog
Reported-earlier h r = record {
  deadline = r.deadline;
  entries = r.entries;
  count = r.count;
  current = r.current;
  before = r.before;
  keys_known = r.keys_known;
  counted = r.counted;
  built = r.built;
  silent_before = Extends-trans h r.silent_before;
  silent_after = r.silent_after;
}

module _ {W : Type 0} where
  refusal-ok :
      (b : Bool) (e : Exn) (s : Sys W) {u : Unit {0}}
      → ((if b then raise e else pure tt) s).0 ≡ ok u
      → (b ≡ false) × (((if b then raise {A = Unit {0}} e else pure tt) s).1 ≡ s)
  unfolding pure raise
  refusal-ok true e s h = cc
  refusal-ok false e s h = (refl, refl)

module _ {W : Type 0} (c : Controller W) where
  pub preset_catalog-Reported :
      (expected deadline : Option ℕ) (s : Sys W) {catalog : List Preset}
      → (preset_catalog c expected deadline s).0 ≡ ok catalog
      → Reported s.log (preset_catalog c expected deadline s).1.log expected catalog
  unfolding preset_catalog lift pure
  preset_catalog-Reported expected deadline s h =
      let b1 = bind-ok (require_unmute_before c deadline) _ s h in
      let s1 = (require_unmute_before c deadline s).1 in
      let b2 = bind-ok (client_ls c preset_root deadline) _ s1 b1.second in
      let s2 = (client_ls c preset_root deadline s1).1 in
      let b3 = bind-ok (require_unmute_before c deadline) _ s2 b2.second in
      let s3 = (require_unmute_before c deadline s2).1 in
      let refusal =
        if has_unexpected_key b2.value then raise {A = Unit {0}} Exn.telemetry_error else pure tt in
      let b4 = bind-ok refusal _ s3 b3.second in
      let g = refusal-ok (has_unexpected_key b2.value) Exn.telemetry_error s3 b4.first in
      let s4 = (refusal s3).1 in
      let b5 = bind-ok (lift (preset_count b2.value)) _ s4 b4.second in
      let reading = current_slot c (entry (codes "CurrentPreset") b2.value) deadline in
      let b6 = bind-ok reading _ s4 b5.second in
      let s6 = (reading s4).1 in
      let b7 = bind-ok (lift (build_catalog b2.value b5.value b6.value expected)) _ s6 b6.second in
      let b8 = bind-ok (require_unmute_before c deadline) _ s6 b7.second in
      let slot =
        (Runs-current_slot c deadline (NoUnmute-reads deadline)
            (entry (codes "CurrentPreset") b2.value)).at
          s4 in
      let answered =
        ap (λ (t : Sys W). t.log) g.1
        ∙ (log-require_before c Exn.recall_timeout deadline s2
            ∙ (log-client_ls c preset_root deadline s1 b2.first
                ∙ ap (λ l. Event.listed preset_root deadline (some b2.value) ∷ l)
                    (log-require_before c Exn.recall_timeout deadline s))) in
      record {
        deadline = deadline;
        entries = b2.value;
        count = b5.value;
        current = b6.value;
        before = s.log;
        keys_known = g.0;
        counted = b5.first;
        built = b7.first ∙ b8.second;
        silent_before = Extends-refl s.log;
        silent_after = record {
          calls = slot.calls;
          appended =
              log-bind b1
              ∙ (log-bind b2
                  ∙ (log-bind b3
                      ∙ (log-bind b4
                          ∙ (log-bind b5
                              ∙ (log-bind b6
                                  ∙ (log-bind b7
                                      ∙ (log-bind b8
                                          ∙ (log-require_before c Exn.recall_timeout deadline s6
                                              ∙ (slot.appended
                                                  ∙ ap (λ l. slot.calls ++ l) answered)))))))));
          allowed = slot.allowed;
        };
      }

-- The preset that an activation of the target has taken, and the catalog that the device reported
-- between the two logs, from which it was taken, restricted to the allowed slots.
pub record Resolved {W : Type 0} (c : Controller W) (target : Target) (p : Preset)
    (old new : List Event) : Type 0 where
  pub catalog : List Preset
  pub reported : Reported old new none catalog
  pub resolved : resolve_target target (allowed_presets c.allowed_slots catalog) ≡ ok p

pub Resolved-earlier :
    {W : Type 0} {c : Controller W} {target : Target} {p : Preset} {a b l : List Event}
    → Extends NoUnmute a b
    → Resolved c target p b l
    → Resolved c target p a l
Resolved-earlier h r = record {
  catalog = r.catalog;
  reported = Reported-earlier h r.reported;
  resolved = r.resolved;
}

module _ {W : Type 0} (c : Controller W) (target : Target) where
  pub resolve_preset-Resolved :
      (deadline : Option ℕ) (s : Sys W) {p : Preset}
      → (resolve_preset c target deadline s).0 ≡ ok p
      → Resolved c target p s.log (resolve_preset c target deadline s).1.log
  unfolding resolve_preset lift
  resolve_preset-Resolved deadline s h =
      let b = bind-ok (preset_catalog c none deadline) _ s h in
      record {
        catalog = b.value;
        reported =
            subst (λ l. Reported s.log l none b.value) (sym (log-bind b))
              (preset_catalog-Reported c none deadline s b.first);
        resolved = b.second;
      }
