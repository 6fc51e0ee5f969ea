-- ===== src/Config/Tests.antt =====
-- The configuration's slots on a concrete text.
use pa2bridge.Base.{ℕ, ◌≡◌, refl, true, some, [], ◌∷◌}
use pa2bridge.Base.Text.{codes, text_eq}
use pa2bridge.Base.Split.{split}
use pa2bridge.Base.Decimal.{int_value, value_from}
use pa2bridge.Controller.Values.{int_of_digits}
use pa2bridge.Controller.Device.{slots_accepted, has_duplicates, number_in}
use pa2bridge.Controller.Resolve.{drop_spaces}
use pa2bridge.Config.Parse.{
  Scalar, Value, is_slot_text, int_all, accept_slots, parse_allowed_preset_slots,
}
use pa2bridge.Config.Slots.{parse_allowed_preset_slots-accepted}

parse_allowed_preset_slots-accepted_example : slots_accepted (some (12 ∷ 3 ∷ [])) ≡ true
unfolding parse_allowed_preset_slots accept_slots is_slot_text int_all split drop_spaces number_in
    has_duplicates text_eq int_of_digits int_value value_from
parse_allowed_preset_slots-accepted_example =
    parse_allowed_preset_slots-accepted {F = ℕ} (some (Value.scalar (Scalar.text (codes "12, 3"))))
      refl
