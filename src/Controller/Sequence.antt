-- ===== src/Controller/Sequence.antt =====
-- The exact calls of a bulk write that succeeds: each output is written once, in order, and read
-- back at once; there is a pause before the next output; and then all six mutes are read again.
use pa2bridge.Base.{
  ℕ, ◌≡◌, refl, ap, ◌∙◌, sym, subst, Bool, true, false, Option, none, some, List, [], ◌∷◌, arith,
  every, map,
}
use pa2bridge.Base.Text.{Text, codes, text_eq}
use pa2bridge.Controller.Action.{ok, Exn, ParamPath, Event, Sys, pure}
use pa2bridge.Controller.Values.{Mutes}
use pa2bridge.Controller.Device.{
  Controller, output_mutes, output_write_pace, sleep, require_before, require_unmute_before,
  pace_output_transition,
}
use pa2bridge.Controller.Outputs.{
  mute_text, same, read_mute, read_mutes, read_all_output_mutes, write_output, write_and_confirm,
  write_outputs, write_all_outputs,
}
use pa2bridge.Controller.Success.{
  bind-ok, log-bind, guard-ok, check-ok, ok_injective, log-require_before, log-client_set,
  log-client_set_starting_before, log-sleep,
}
use pa2bridge.Controller.Readback.{after_reads, log-read_mute, log-read_mutes}

-- The log after writing each output of the list once, with this value.
abbrev pub after_writes : ℕ → Option ℕ → Bool → List (Text × ParamPath) → List Event → List Event
after_writes d first muted [] log = log
after_writes d first muted ((channel, path) ∷ []) log =
    Event.got path (some d) (some (mute_text muted))
    ∷ Event.wrote path (mute_text muted) first (some d) (some tt)
    ∷ log
after_writes d first muted ((channel, path) ∷ next ∷ rest) log =
    after_writes d none muted (next ∷ rest) (
      Event.slept output_write_pace
      ∷ Event.got path (some d) (some (mute_text muted))
      ∷ Event.wrote path (mute_text muted) first (some d) (some tt)
      ∷ log)

pub on_is_muted : (muted : Bool) → text_eq (mute_text muted) (codes "On") ≡ muted
unfolding text_eq
on_is_muted true = refl
on_is_muted false = refl

same_eq : (a b : Bool) → same a b ≡ true → a ≡ b
same_eq a b h = ground arith

module _ {W : Type 0} (c : Controller W) (d : ℕ) (muted : Bool) where
  log-write_output :
      (first : Option ℕ) (path : ParamPath) (s : Sys W)
      → (write_output c (mute_text muted) (some d) first path s).0 ≡ ok tt
      → (write_output c (mute_text muted) (some d) first path s).1.log
        ≡ Event.wrote path (mute_text muted) first (some d) (some tt) ∷ s.log
  unfolding write_output
  log-write_output none path s h =
      let both = bind-ok (require_unmute_before c (some d)) _ s h in
      let s1 = (require_unmute_before c (some d) s).1 in
      log-bind both
      ∙ (log-client_set c path (mute_text muted) (some d) s1 both.second
          ∙ ap (λ l. Event.wrote path (mute_text muted) none (some d) (some tt) ∷ l)
              (log-require_before c Exn.recall_timeout (some d) s))
  log-write_output (some f) path s h =
      log-client_set_starting_before c path (mute_text muted) f d s h

  log-write_and_confirm :
      (first : Option ℕ) (path : ParamPath) (s : Sys W)
      → (write_and_confirm c (mute_text muted) (some d) first path s).0 ≡ ok tt
      → (write_and_confirm c (mute_text muted) (some d) first path s).1.log
        ≡ Event.got path (some d) (some (mute_text muted))
          ∷ Event.wrote path (mute_text muted) first (some d) (some tt)
          ∷ s.log
  unfolding write_and_confirm
  log-write_and_confirm first path s h =
      let b1 = bind-ok (write_output c (mute_text muted) (some d) first path) _ s h in
      let s1 = (write_output c (mute_text muted) (some d) first path s).1 in
      let b2 = bind-ok (require_unmute_before c (some d)) _ s1 b1.second in
      let s2 = (require_unmute_before c (some d) s1).1 in
      let b3 = bind-ok (read_mute c path (some d)) _ s2 b2.second in
      let s3 = (read_mute c path (some d) s2).1 in
      let b4 = bind-ok (require_unmute_before c (some d)) _ s3 b3.second in
      let s4 = (require_unmute_before c (some d) s3).1 in
      let g = guard-ok (same b3.value (text_eq (mute_text muted) (codes "On"))) _ s4 b4.second in
      cc (
        log-bind b1,
        log-bind b2,
        log-bind b3,
        log-bind b4,
        ap (λ (t : Sys W). t.log) g.1,
        same_eq b3.value (text_eq (mute_text muted) (codes "On")) g.0,
        on_is_muted muted,
        log-write_output first path s b1.first,
        log-require_before c Exn.recall_timeout (some d) s1,
        log-read_mute c path (some d) s2 b3.first,
        log-require_before c Exn.recall_timeout (some d) s3,
      )

  log-pace :
      (s : Sys W)
      → (pace_output_transition c (some d) s).0 ≡ ok tt
      → (pace_output_transition c (some d) s).1.log ≡ Event.slept output_write_pace ∷ s.log
  unfolding pace_output_transition
  log-pace s h =
      let b1 = bind-ok (require_unmute_before c (some d)) _ s h in
      let s1 = (require_unmute_before c (some d) s).1 in
      let b2 = bind-ok (sleep c output_write_pace) _ s1 b1.second in
      let s2 = (sleep c output_write_pace s1).1 in
      cc (
        log-bind b1,
        log-bind b2,
        log-require_before c Exn.recall_timeout (some d) s,
        log-sleep c output_write_pace s1,
        log-require_before c Exn.recall_timeout (some d) s2,
      )

  log-write_outputs :
      (first : Option ℕ) (l : List (Text × ParamPath)) (s : Sys W)
      → (write_outputs c (mute_text muted) (some d) first l s).0 ≡ ok tt
      → (write_outputs c (mute_text muted) (some d) first l s).1.log
        ≡ after_writes d first muted l s.log
  unfolding write_outputs pure
  log-write_outputs first [] s h = refl
  log-write_outputs first ((channel, path) ∷ []) s h = log-write_and_confirm first path s h
  log-write_outputs first ((channel, path) ∷ next ∷ rest) s h =
      let b1 = bind-ok (write_and_confirm c (mute_text muted) (some d) first path) _ s h in
      let s1 = (write_and_confirm c (mute_text muted) (some d) first path s).1 in
      let b2 = bind-ok (pace_output_transition c (some d)) _ s1 b1.second in
      let s2 = (pace_output_transition c (some d) s1).1 in
      let ih = log-write_outputs none (next ∷ rest) s2 b2.second in
      log-bind b1
      ∙ (log-bind b2
          ∙ (ih
              ∙ ap (after_writes d none muted (next ∷ rest)) (
                  log-pace s1 b2.first
                  ∙ ap (λ l. Event.slept output_write_pace ∷ l)
                      (log-write_and_confirm first path s b1.first))))

-- The readback names every output once, in order, and each has the value that was written.
pub record Confirms (muted : Bool) (readback : Mutes) : Type 0 where
  pub channels : map (λ m. m.0) readback ≡ map (λ e. e.0) output_mutes
  pub values : every (λ m. same m.1 muted) readback ≡ true

module _ {W : Type 0} (c : Controller W) where
  names_of_read :
      (e : Exn) (deadline : Option ℕ) (l : List (Text × ParamPath)) (s : Sys W) {ms : Mutes}
      → (read_mutes c e deadline l s).0 ≡ ok ms
      → map (λ m. m.0) ms ≡ map (λ x. x.0) l
  unfolding read_mutes pure
  names_of_read e deadline [] s h = ap (map (λ m. m.0)) (sym (ok_injective h))
  names_of_read e deadline ((channel, path) ∷ rest) s h =
      let b1 = bind-ok (require_before c e deadline) _ s h in
      let s1 = (require_before c e deadline s).1 in
      let b2 = bind-ok (read_mute c path deadline) _ s1 b1.second in
      let s2 = (read_mute c path deadline s1).1 in
      let b3 = bind-ok (require_before c e deadline) _ s2 b2.second in
      let s3 = (require_before c e deadline s2).1 in
      let b4 = bind-ok (read_mutes c e deadline rest) _ s3 b3.second in
      ap (map (λ m. m.0)) (sym (ok_injective b4.second))
      ∙ ap (λ l. channel ∷ l) (names_of_read e deadline rest s3 b4.first)

  -- If `_write_all_outputs` returns, the mutes it returns have the value on every output, and it has
  -- made exactly these calls: for each of the six outputs in order the write and its readback, with a
  -- pause between two outputs, and then the readings of all six mutes.
  pub write_all_outputs-sequence :
      (d : ℕ) (muted : Bool) (first : Option ℕ) (s : Sys W) {readback : Mutes}
      → (write_all_outputs c (mute_text muted) (some d) first s).0 ≡ ok readback
      → Confirms muted readback
        × ((write_all_outputs c (mute_text muted) (some d) first s).1.log
            ≡ after_reads
                (some d)
                muted
                output_mutes
                (after_writes d first muted output_mutes s.log))
  unfolding write_all_outputs
  write_all_outputs-sequence d muted first s h =
      let b1 = bind-ok (write_outputs c (mute_text muted) (some d) first output_mutes) _ s h in
      let s1 = (write_outputs c (mute_text muted) (some d) first output_mutes s).1 in
      let b2 = bind-ok (read_all_output_mutes c (some d)) _ s1 b1.second in
      let s2 = (read_all_output_mutes c (some d) s1).1 in
      let g =
        check-ok (every (λ m. same m.1 (text_eq (mute_text muted) (codes "On"))) b2.value) b2.value
          _ s2 b2.second in
      let values = subst (λ b. every (λ m. same m.1 b) b2.value ≡ true) (on_is_muted muted) g.0 in
      (
        record {
          channels =
              ap (map (λ m. m.0)) (sym g.1)
              ∙ names_of_read Exn.recall_timeout (some d) output_mutes s1 b2.first;
          values = subst (λ l. every (λ m. same m.1 muted) l ≡ true) g.1 values;
        },
        log-bind b1
            ∙ (log-bind b2
                ∙ (ap (λ (t : Sys W). t.log) g.2
                    ∙ (log-read_mutes c Exn.recall_timeout (some d) output_mutes muted s1 b2.first
                          values
                        ∙ ap (after_reads (some d) muted output_mutes)
                            (log-write_outputs c d muted first output_mutes s b1.first)))),
      )
