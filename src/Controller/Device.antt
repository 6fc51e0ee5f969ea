-- ===== src/Controller/Device.antt =====
-- The paths of the PA2's values, the controller's settings, and its calls of the client
-- (controller.py, lines 17 to 54, 262 to 318, 739 to 818 and 981 to 994).
use pa2bridge.Base.{
  ℕ, ◌+◌, Bool, true, false, not, ◌&&◌, ◌||◌, Option, none, some, List, [], ◌∷◌, ◌++◌, ltb, leb,
  ◌==◌, if◌then◌else◌, every, min,
}
use pa2bridge.Base.Text.{Text, codes, text_eq}
use pa2bridge.Controller.Action.{
  Res, ok, err, Exn, ParamPath, Entries, Client, Event, Action, pure, raise, call, ◌>>=◌, ◌>>◌,
}

abbrev pub preset_root : ParamPath
preset_root = codes "Storage" ∷ codes "Presets" ∷ codes "SV" ∷ []

abbrev pub current_preset_path : ParamPath
current_preset_path = preset_root ++ codes "CurrentPreset" ∷ []

abbrev pub recall_path : ParamPath
recall_path = preset_root ++ codes "Recall" ∷ []

abbrev pub node_path : Text → ParamPath
node_path name = codes "Node" ∷ codes "AT" ∷ name ∷ []

-- `OUTPUT_MUTES`: the channels with the paths of their mutes, in the dict's order.
abbrev mute_path : Text → ParamPath
mute_path name = codes "Preset" ∷ codes "OutputGains" ∷ codes "SV" ∷ name ∷ []

abbrev pub output_mutes : List (Text × ParamPath)
output_mutes =
    (codes "high_left", mute_path (codes "HighLeftOutputMute"))
    ∷ (codes "high_right", mute_path (codes "HighRightOutputMute"))
    ∷ (codes "mid_left", mute_path (codes "MidLeftOutputMute"))
    ∷ (codes "mid_right", mute_path (codes "MidRightOutputMute"))
    ∷ (codes "low_left", mute_path (codes "LowLeftOutputMute"))
    ∷ (codes "low_right", mute_path (codes "LowRightOutputMute"))
    ∷ []

-- `OUTPUT_MUTES[channel]`
unfoldable pub path_of : Text → List (Text × ParamPath) → Option ParamPath
path_of channel [] = none
path_of channel ((name, path) ∷ rest) =
    if text_eq name channel then some path else path_of channel rest

-- `_OUTPUT_WRITE_PACE_SECONDS`
abbrev pub output_write_pace : ℕ
output_write_pace = 200

abbrev pub max_preset_slot : ℕ
max_preset_slot = 100

abbrev pub max_recall_timeout : ℕ
max_recall_timeout = 20000

-- The attributes of a `Pa2Controller`. Its lock is held from entry to exit of every public method,
-- so a call is one sequence of steps; `_active_recall_deadline` is only read in the call that set
-- it, and is passed on as an argument here.
pub record Controller (W : Type 0) : Type 0 where
  pub client : Client W
  pub allowed_slots : Option (List ℕ)
  pub recall_timeout : ℕ
  pub poll_interval : ℕ
  pub post_recall_delay : ℕ
  pub reconnect_validator : Option (Option ℕ → W → Res (Unit {0}) × W)

unfoldable pub number_in : ℕ → List ℕ → Bool
number_in n [] = false
number_in n (m ∷ ms) = (n == m) || number_in n ms

unfoldable pub has_duplicates : List ℕ → Bool
unfolding number_in
has_duplicates [] = false
has_duplicates (n ∷ ns) = number_in n ns || has_duplicates ns

abbrev pub slot_in_range : ℕ → Bool
slot_in_range n = leb 1 n && leb n max_preset_slot

unfoldable pub slots_accepted : Option (List ℕ) → Bool
unfolding has_duplicates
slots_accepted none = true
slots_accepted (some []) = false
slots_accepted (some (n ∷ ns)) = not (has_duplicates (n ∷ ns)) && every slot_in_range (n ∷ ns)

-- `__init__`: the bounds on the slots and the timings.
unfoldable pub init : {W : Type 0} → Controller W → Res (Controller W)
unfolding slots_accepted
init c =
    if slots_accepted c.allowed_slots
    then if (ltb 0 c.recall_timeout && leb c.recall_timeout max_recall_timeout)
        && ((ltb 0 c.poll_interval && leb c.poll_interval 10000) && leb c.post_recall_delay 60000)
      then ok c
      else err Exn.value_error
    else err Exn.value_error

module _ {W : Type 0} (c : Controller W) where
  -- `self._monotonic()`
  unfoldable pub now : Action W ℕ
  now s = let (t, w) = c.client.monotonic s.world in (ok t, record s { world = w })

  -- `self._sleep(seconds)`
  unfoldable pub sleep : ℕ → Action W (Unit {0})
  sleep d s = (ok tt, record { world = c.client.sleep d s.world; log = Event.slept d ∷ s.log })

  -- `if deadline is not None and self._monotonic() >= deadline: raise`
  unfoldable pub require_before : Exn → Option ℕ → Action W (Unit {0})
  require_before e none = pure tt
  require_before e (some d) = do t ← now; if leb d t then raise e else pure tt

  -- `_require_unmute_before`
  abbrev pub require_unmute_before : Option ℕ → Action W (Unit {0})
  require_unmute_before = require_before Exn.recall_timeout

  -- `_require_rollback_before`
  abbrev pub require_rollback_before : Option ℕ → Action W (Unit {0})
  require_rollback_before = require_before Exn.rollback_deadline

  -- `_new_operation_deadline`
  unfoldable pub new_operation_deadline : Action W ℕ
  new_operation_deadline = do t ← now; pure (t + c.recall_timeout)

  -- `_admission_deadline`
  abbrev pub admission_deadline : Option ℕ → ℕ → ℕ
  admission_deadline none operation_deadline = operation_deadline
  admission_deadline (some d) operation_deadline = min d operation_deadline

  -- `_client_get`
  unfoldable pub client_get : ParamPath → Option ℕ → Action W Text
  client_get path (some d) = call (c.client.get_before path d) (Event.got path (some d))
  client_get path none = call (c.client.get path) (Event.got path none)

  -- `_client_set`
  unfoldable pub client_set : ParamPath → Text → Option ℕ → Action W (Unit {0})
  client_set path value (some d) =
      call (c.client.set_before path value d) (Event.wrote path value none (some d))
  client_set path value none = call (c.client.set path value) (Event.wrote path value none none)

  -- `_client_set_starting_before`
  unfoldable pub client_set_starting_before : ParamPath → Text → ℕ → ℕ → Action W (Unit {0})
  client_set_starting_before path value start d =
      call (c.client.set_starting_before path value start d)
        (Event.wrote path value (some start) (some d))

  -- `_client_ls`
  unfoldable pub client_ls : ParamPath → Option ℕ → Action W Entries
  client_ls path (some d) = call (c.client.ls_before path d) (Event.listed path (some d))
  client_ls path none = call (c.client.ls path) (Event.listed path none)

  unfoldable pub client_reconnect_only : Option ℕ → Action W (Unit {0})
  client_reconnect_only (some d) = call (c.client.reconnect_before d) (Event.reconnected (some d))
  client_reconnect_only none = call c.client.reconnect (Event.reconnected none)

  unfoldable pub validate_reconnected :
      Option (Option ℕ → W → Res (Unit {0}) × W) → Option ℕ → Action W (Unit {0})
  validate_reconnected none deadline = pure tt
  validate_reconnected (some validator) deadline =
      call (validator deadline) (Event.validated deadline)

  -- `_client_reconnect`
  unfoldable pub client_reconnect : Option ℕ → Action W (Unit {0})
  client_reconnect deadline = do
    client_reconnect_only deadline
    validate_reconnected c.reconnect_validator deadline

  -- `_pace_output_transition`
  unfoldable pub pace_output_transition : Option ℕ → Action W (Unit {0})
  pace_output_transition deadline = do
    require_unmute_before deadline
    sleep output_write_pace
    require_unmute_before deadline
