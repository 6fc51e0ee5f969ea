-- ===== src/Config/Slots.antt =====
-- The allowed preset slots of the configuration and of the controller (src/pa2bridge/config.py,
-- lines 57 to 93; src/pa2bridge/controller.py, lines 277 to 295).
use pa2bridge.Base.{
  ℕ, ◌≡◌, refl, ap, sym, ◌∙◌, Bool, true, false, not, ◌&&◌, ◌||◌, Option, none, some, List, [], ◌∷◌,
  map, if◌then◌else◌, arith, some_of, every,
}
use pa2bridge.Base.Text.{codes, text_eq}
use pa2bridge.Controller.Action.{Res, ok, err, Exn}
use pa2bridge.Controller.Device.{slots_accepted, has_duplicates, slot_in_range}
use pa2bridge.Controller.Resolve.{strip}
use pa2bridge.Config.Parse.{
  Scalar, Value, ◌>>=◌, lower, slot_texts, slot_values, accept_slots, parse_allowed_preset_slots,
}

every-some_of : (p : ℕ → Bool) (l : List ℕ) → some_of (λ m. not (p m)) l ≡ false → every p l ≡ true
every-some_of p [] h = refl
every-some_of p (n ∷ ns) h = ground (arith, every-some_of p ns)

accepted_list :
    (l : List ℕ) (b d : Bool) {ns : List ℕ}
    → (if b || d then err Exn.value_error else ok (some l)) ≡ ok (some ns)
    → (l ≡ ns) × (b ≡ false) × (d ≡ false)
accepted_list l true d h = cc
accepted_list l false true h = cc
accepted_list l false false h = ground arith

good : (d e : Bool) → d ≡ false → e ≡ true → (not d && e) ≡ true
good d e h k = ground arith

accept_slots-accepted :
    (l : List ℕ) {ns : List ℕ} → accept_slots l ≡ ok (some ns) → slots_accepted (some ns) ≡ true
unfolding accept_slots slots_accepted
accept_slots-accepted [] h = cc
accept_slots-accepted (n ∷ rest) h =
    let (e, b, d) =
      accepted_list (n ∷ rest) (some_of (λ m. not (slot_in_range m)) (n ∷ rest))
        (has_duplicates (n ∷ rest)) h in
    ap (λ l. slots_accepted (some l)) (sym e)
    ∙ good (has_duplicates (n ∷ rest)) (every slot_in_range (n ∷ rest)) d
        (every-some_of slot_in_range (n ∷ rest) b)

accepted_result :
    (r : Res (List ℕ)) {ns : List ℕ}
    → (r >>= accept_slots) ≡ ok (some ns)
    → slots_accepted (some ns) ≡ true
accepted_result (ok l) h = accept_slots-accepted l h
accepted_result (err e) h = cc

accepted_text :
    (b : Bool) (r : Res (List ℕ)) {ns : List ℕ}
    → (if b then ok none else (r >>= accept_slots)) ≡ ok (some ns)
    → slots_accepted (some ns) ≡ true
accepted_text true r h = cc
accepted_text false r h = accepted_result r h

-- If the configuration's list of allowed slots is read, from a text or from an array, as these slots,
-- then the controller's constructor accepts them: they are not empty, without duplicates and from 1
-- to 100.
pub parse_allowed_preset_slots-accepted :
    {F : Type 0} (value : Option (Value F)) {ns : List ℕ}
    → parse_allowed_preset_slots value ≡ ok (some ns)
    → slots_accepted (some ns) ≡ true
unfolding parse_allowed_preset_slots
parse_allowed_preset_slots-accepted none h = cc
parse_allowed_preset_slots-accepted (some (Value.scalar (Scalar.text t))) h =
    accepted_text (text_eq (map lower (strip t)) (codes "auto")) (slot_texts (strip t)) h
parse_allowed_preset_slots-accepted (some (Value.array items)) h =
    accepted_result (slot_values items) h
parse_allowed_preset_slots-accepted (some (Value.scalar _)) h = cc
