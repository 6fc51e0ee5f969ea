-- ===== src/Controller/Readback.antt =====
-- What a readback that succeeds has read: every output's mute, in order, with no other call
-- between.
use pa2bridge.Base.{
  ℕ, ◌≡◌, refl, sym, subst, Bool, true, false, Option, some, List, [], ◌∷◌, arith, every,
}
use pa2bridge.Base.Text.{Text, codes, eq_of_text_eq}
use pa2bridge.Controller.Action.{Res, ok, Exn, ParamPath, Event, Sys, pure, lift}
use pa2bridge.Controller.Values.{Mutes, parse_output_mute}
use pa2bridge.Controller.Device.{Controller, require_before}
use pa2bridge.Controller.Outputs.{mute_text, read_mute, read_mutes, same}
use pa2bridge.Controller.Success.{
  ok_injective, log-bind, bind-ok, log-require_before, log-client_get,
}

-- The log after reading each mute of the list once, with these values.
abbrev pub after_reads : Option ℕ → Bool → List (Text × ParamPath) → List Event → List Event
after_reads deadline muted [] log = log
after_reads deadline muted ((channel, path) ∷ rest) log =
    after_reads deadline muted rest (Event.got path deadline (some (mute_text muted)) ∷ log)

pub parse_output_mute-ok : (t : Text) (b : Bool) → parse_output_mute t ≡ ok b → t ≡ mute_text b
unfolding parse_output_mute
parse_output_mute-ok t true h = ground (arith, eq_of_text_eq t (codes "On"))
parse_output_mute-ok t false h = ground (arith, eq_of_text_eq t (codes "Off"))

pub all_same-true : (ms : Mutes) → every (λ m. m.1) ms ≡ true → every (λ m. same m.1 true) ms ≡ true
all_same-true [] h = refl
all_same-true ((ch, b) ∷ ms) h = ground (arith, all_same-true ms)

module _ {W : Type 0} (c : Controller W) where
  pub log-read_mute :
      (path : ParamPath) (deadline : Option ℕ) (s : Sys W) {b : Bool}
      → (read_mute c path deadline s).0 ≡ ok b
      → (read_mute c path deadline s).1.log ≡ Event.got path deadline (some (mute_text b)) ∷ s.log
  unfolding read_mute lift
  log-read_mute path deadline s {b = b} h =
      let both = bind-ok _ _ s h in
      cc (
        log-bind both,
        log-client_get c path deadline s both.first,
        parse_output_mute-ok both.value b both.second,
      )

  every_cons_true :
      (channel : Text) (b : Bool) (ms : Mutes) (muted : Bool) {all : Mutes}
      → Res.ok ((channel, b) ∷ ms) ≡ ok all
      → every (λ m. same m.1 muted) all ≡ true
      → (b ≡ muted) × (every (λ m. same m.1 muted) ms ≡ true)
  every_cons_true channel b ms muted e h =
      let k = subst (λ l. every (λ m. same m.1 muted) l ≡ true) (sym (ok_injective e)) h in
      ground arith

  eq_of_same : (a b : Bool) → same a b ≡ true → a ≡ b
  eq_of_same a b h = ground arith

  pub log-read_mutes :
      (e : Exn) (deadline : Option ℕ) (l : List (Text × ParamPath)) (muted : Bool) (s : Sys W)
      {ms : Mutes}
      → (read_mutes c e deadline l s).0 ≡ ok ms
      → every (λ m. same m.1 muted) ms ≡ true
      → (read_mutes c e deadline l s).1.log ≡ after_reads deadline muted l s.log
  unfolding read_mutes pure
  log-read_mutes e deadline [] muted s h k = refl
  log-read_mutes e deadline ((channel, path) ∷ rest) muted s h k =
      let b1 = bind-ok _ _ s h in
      let s1 = (require_before c e deadline s).1 in
      let b2 = bind-ok _ _ s1 b1.second in
      let s2 = (read_mute c path deadline s1).1 in
      let b3 = bind-ok _ _ s2 b2.second in
      let s3 = (require_before c e deadline s2).1 in
      let b4 = bind-ok _ _ s3 b3.second in
      let parts = every_cons_true channel b2.value b4.value muted b4.second k in
      let old = log-read_mute path deadline s1 b2.first in
      let ih = log-read_mutes e deadline rest muted s3 b4.first parts.1 in
      cc (
        log-bind b1,
        log-bind b2,
        log-bind b3,
        log-bind b4,
        parts.0,
        ih,
        old,
        log-require_before c e deadline s,
        log-require_before c e deadline s2,
      )
