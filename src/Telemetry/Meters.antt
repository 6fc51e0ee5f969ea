-- ===== src/Telemetry/Meters.antt =====
-- The meters (src/pa2bridge/controller.py, lines 40 to 54, 234 to 237 and 1072 to 1099).
use pa2bridge.Base.{ℕ, Bool, Option, List, [], ◌∷◌}
use pa2bridge.Base.Text.{Text, codes}
use pa2bridge.Controller.Action.{Res, ParamPath, Action, pure, lift, ◌>>=◌}
use pa2bridge.Controller.Values.{parse_binary_flag}
use pa2bridge.Controller.Device.{Controller, client_get}
use pa2bridge.Telemetry.Numbers.{Floats, parse_db}

abbrev pub output_path : Text → ParamPath
output_path name = codes "Preset" ∷ codes "OutputMeters" ∷ codes "SV" ∷ name ∷ []

abbrev pub input_path : Text → ParamPath
input_path name = codes "Preset" ∷ codes "InputMeters" ∷ codes "SV" ∷ name ∷ []

-- `OUTPUT_LEVELS`
abbrev pub output_levels_paths : List (Text × ParamPath)
output_levels_paths =
    (codes "high_left", output_path (codes "HighLeftOutput"))
    ∷ (codes "high_right", output_path (codes "HighRightOutput"))
    ∷ (codes "mid_left", output_path (codes "MidLeftOutput"))
    ∷ (codes "mid_right", output_path (codes "MidRightOutput"))
    ∷ (codes "low_left", output_path (codes "LowLeftOutput"))
    ∷ (codes "low_right", output_path (codes "LowRightOutput"))
    ∷ []

-- `INPUT_LEVELS`
abbrev pub input_levels_paths : List (Text × ParamPath)
input_levels_paths =
    (codes "left", input_path (codes "LeftInput"))
    ∷ (codes "right", input_path (codes "RightInput"))
    ∷ []

-- `INPUT_CLIPS`
abbrev pub input_clips_paths : List (Text × ParamPath)
input_clips_paths =
    (codes "left", input_path (codes "LeftInputClip"))
    ∷ (codes "right", input_path (codes "RightInputClip"))
    ∷ []

-- `InputMeters`
pub record InputMeters (F : Type 0) : Type 0 where
  pub levels_dbfs : List (Text × F)
  pub clips : List (Text × Bool)

module _ {W F : Type 0} (c : Controller W) (floats : Floats F) where
  -- A comprehension over one of the dicts of paths, with the parser of its values.
  unfoldable pub read_values :
      {A : Type 0}
      → (Text → Res A)
      → Option ℕ
      → List (Text × ParamPath)
      → Action W (List (Text × A))
  read_values parse deadline [] = pure []
  read_values parse deadline ((name, path) ∷ rest) = do
    text ← client_get c path deadline
    value ← lift (parse text)
    others ← read_values parse deadline rest
    pure ((name, value) ∷ others)

  -- `output_levels`
  unfoldable pub output_levels : Option ℕ → Action W (List (Text × F))
  output_levels deadline = read_values (parse_db floats) deadline output_levels_paths

  -- `input_meters`
  unfoldable pub input_meters : Option ℕ → Action W (InputMeters F)
  input_meters deadline = do
    levels ← read_values (parse_db floats) deadline input_levels_paths
    clips ← read_values parse_binary_flag deadline input_clips_paths
    pure (record { levels_dbfs = levels; clips = clips })
