-- ===== src/Telemetry/Tests.antt =====
-- The crossover of a PA2 with one band.
use pa2bridge.Base.{ℕ, ◌+◌, refl, true, false, if◌then◌else◌, none, some, [], ◌∷◌}
use pa2bridge.Base.Text.{codes, text_eq, text_in, strip_prefix}
use pa2bridge.Base.Decimal.{is_unsigned_integer, int_value, value_from, decimal, decimal_digits}
use pa2bridge.Controller.Action.{
  ok, err, Exn, Client, Entries, ParamPath, pure, raise, lift, call, ◌>>=◌,
}
use pa2bridge.Controller.Values.{
  parse_unsigned_integer, int_of_digits, parse_binary_flag, require_filter_type, require_polarity,
}
use pa2bridge.Controller.Device.{Controller, client_ls}
use pa2bridge.Controller.Entries.{entry}
use pa2bridge.Telemetry.Numbers.{
  Floats, take_digits, fraction, numeral, signed_numeral, parse_db, parse_frequency,
}
use pa2bridge.Telemetry.Crossover.{
  CrossoverState, crossover, read_bands, parse_bands, parse_crossover_band, collect_attributes,
  attribute_of, strip_suffix, add_attribute, band_names, required_value, crossover_band_label,
  insert_band, sort_bands, text_le,
}
use pa2bridge.Telemetry.Complete.{Complete, crossover-Complete}

abbrev topology : Entries
topology = (codes "NumBands", codes "1") ∷ (codes "MonoSub", codes "0") ∷ []

abbrev curves : Entries
curves =
    (codes "Band_1_HPFrequency", codes "Out")
    ∷ (codes "Band_1_HPType", codes "BW 6")
    ∷ (codes "Band_1_Gain", codes "0dB")
    ∷ (codes "Band_1_LPFrequency", codes "Out")
    ∷ (codes "Band_1_LPType", codes "BW 6")
    ∷ (codes "Band_1_Polarity", codes "Normal")
    ∷ []

abbrev listing : ParamPath → Entries
listing (a ∷ b ∷ kind ∷ []) = if text_eq kind (codes "AT") then topology else curves
listing _ = []

abbrev console : Client ℕ
console = record {
  get = λ path w. (err Exn.protocol_timeout, w);
  get_before = λ path d w. (err Exn.protocol_timeout, w);
  set = λ path value w. (ok tt, w);
  set_before = λ path value d w. (ok tt, w);
  set_starting_before = λ path value start d w. (ok tt, w);
  ls = λ path w. (ok (listing path), w + 1);
  ls_before = λ path d w. (ok (listing path), w + 1);
  reconnect = λ w. (ok tt, w);
  reconnect_before = λ d w. (ok tt, w);
  monotonic = λ w. (w, w);
  sleep = λ d w. w + d;
}

abbrev idle : Controller ℕ
idle = record {
  client = console;
  allowed_slots = none;
  recall_timeout = 10000;
  poll_interval = 200;
  post_recall_delay = 1000;
  reconnect_validator = none;
}

abbrev lengths : Floats ℕ
lengths = record {
  of_numeral = λ t. 0;
  is_finite = λ x. true;
  is_positive = λ x. true;
  times_thousand = λ x. x;
}

abbrev one_band : CrossoverState ℕ
one_band = record {
  num_bands = 1;
  mono_sub = false;
  bands =
      record {
        identifier = codes "Band_1";
        band_label = codes "High";
        high_pass_hz = none;
        high_pass_type = codes "BW 6";
        gain_db = 0;
        low_pass_hz = none;
        low_pass_type = codes "BW 6";
        polarity = codes "Normal";
      }
      ∷ [];
}

crossover-Complete_example : Complete idle lengths one_band
unfolding crossover client_ls call read_bands parse_bands parse_crossover_band collect_attributes
    attribute_of strip_suffix add_attribute band_names required_value crossover_band_label
    insert_band sort_bands text_le entry take_digits fraction numeral signed_numeral parse_db
    parse_frequency parse_unsigned_integer int_of_digits parse_binary_flag require_filter_type
    require_polarity is_unsigned_integer int_value value_from decimal decimal_digits text_eq text_in
    strip_prefix pure raise lift ◌>>=◌
crossover-Complete_example =
    crossover-Complete idle lengths (some 5000) (record { world = 0; log = [] }) one_band refl
