-- ===== src/Bridge/Admission.antt =====
-- Which messages become commands, and what a command asks for
-- (src/pa2bridge/mqtt_bridge.py, lines 1821 to 1861 and 1935 to 1995).
use native.Mathlib.Omega.{arith}
use pa2bridge.Base.{
  ℕ, Bool, true, false, ◌&&◌, ◌||◌, none, List, [], ◌∷◌, ◌++◌, map, ◌≡◌, ◌≢◌, refl, sym, ◌∙◌, ◌⊎◌,
  inl, inr, Bool-cases, All, if◌then◌else◌, ◌==◌, ap, append_assoc, subst,
}
use pa2bridge.Base.Text.{Text, codes, text_eq, text_in, eq_of_text_eq, text_eq_refl}
use pa2bridge.Base.Split.{split, Without, split_last, onto_first}
use pa2bridge.Controller.Action.{ParamPath}
use pa2bridge.Controller.Device.{output_mutes, path_of}
use pa2bridge.Bridge.State.{Settings}
use pa2bridge.Bridge.Session.{command_topic, mute_topics, is_supported}
use pa2bridge.Bridge.Commands.{Request, request_of, last_part}

-- What a request and its payload must be.
abbrev pub IsRequest : List Text → Request → Text → Type 0
IsRequest presets Request.recall_preset payload = text_in payload presets ≡ true
IsRequest presets Request.unmute_outputs payload = payload ≡ codes "PRESS"
IsRequest presets (Request.mute_output channel) payload =
    (path_of channel output_mutes ≢ none) × (text_in payload (codes "On" ∷ codes "Off" ∷ []) ≡ true)

text_eq-append : (a b c : Text) → text_eq (a ++ b) (a ++ c) ≡ text_eq b c
unfolding text_eq
text_eq-append [] b c = refl
text_eq-append (x ∷ a) b c = grind (arith, text_eq-append a b c)

-- At least two parts, the last of which is `u`.
record Ends (u : Text) (parts : List Text) : Type 0 where
  first : Text
  second : Text
  others : List Text
  shape : parts ≡ first ∷ second ∷ others
  last : last_part (second ∷ others) ≡ u

split_more :
    (t : Bool) (c : ℕ) (u : Text) (parts : List Text)
    → Ends u parts
    → Ends u (if t then [] ∷ parts else onto_first c parts)
split_more true c u parts h = record {
  first = [];
  second = h.first;
  others = h.second ∷ h.others;
  shape = ap (λ ps. [] ∷ ps) h.shape;
  last = h.last;
}
split_more false c u parts h = record {
  first = c ∷ h.first;
  second = h.second;
  others = h.others;
  shape = ap (λ ps. onto_first c ps) h.shape;
  last = h.last;
}

split-Ends : (sep : ℕ) (t u : Text) → Without sep u → Ends u (split sep (t ++ (sep ∷ u)))
unfolding split
split-Ends sep [] u h = record {
  first = [];
  second = u;
  others = [];
  shape = ground (arith, split_last sep u h);
  last = refl;
}
split-Ends sep (c ∷ cs) u h = split_more (c == sep) c u _ (split-Ends sep cs u h)

last_part-split :
    (sep : ℕ) (t u : Text) → Without sep u → last_part (split sep (t ++ (sep ∷ u))) ≡ u
last_part-split sep t u h = let e = split-Ends sep t u h in ap last_part e.shape ∙ e.last

neither :
    {A : Type 0} (a b : Bool) (x y z : A)
    → a ≡ false
    → b ≡ false
    → (if a then x else if b then y else z) ≡ z
neither a b x y z h k = ground (arith, h, k)

second :
    {A : Type 0} (a b : Bool) (x y z : A)
    → a ≡ false
    → b ≡ true
    → (if a then x else if b then y else z) ≡ y
second a b x y z h k = ground (arith, h, k)

first_of : {A : Type 0} (a : Bool) (x y : A) → a ≡ true → (if a then x else y) ≡ x
first_of a x y h = ground (arith, h)

abbrev IsChannel : Text × ParamPath → Type 0
IsChannel m = Without 47 m.0 × (path_of m.0 output_mutes ≢ none)

or_cases : (a b : Bool) → (a || b) ≡ true → (a ≡ true) ⊎ (b ≡ true)
or_cases true b h = inl refl
or_cases false b h = inr h

both : (a b : Bool) → (a && b) ≡ true → (a ≡ true) × (b ≡ true)
both a b h = (ground arith, ground arith)

one_of_three :
    (a b c d e g : Bool)
    → ((a && b) || ((c && d) || (e && g))) ≡ true
    → ((a ≡ true) × (b ≡ true)) ⊎ (((c ≡ true) × (d ≡ true)) ⊎ ((e ≡ true) × (g ≡ true)))
one_of_three a b c d e g h = elim (or_cases (a && b) ((c && d) || (e && g)) h) [
  | inl x ↦ inl (both a b x)
  | inr x ↦ elim (or_cases (c && d) (e && g) x) [
    | inl y ↦ inr (inl (both c d y))
    | inr y ↦ inr (inr (both e g y))
  ]
]

-- The topic of a command, and the same with its last level apart.
module _ (settings : Settings) where
  mute_topic_apart :
      (channel : Text)
      → command_topic settings (codes "mute/" ++ channel)
        ≡ (settings.base_topic ++ codes "/command/mute") ++ (47 ∷ channel)
  mute_topic_apart channel =
      sym (append_assoc settings.base_topic (codes "/command/mute") (47 ∷ channel))

  request_of-mute :
      (channel : Text)
      → Without 47 channel
      → request_of settings (command_topic settings (codes "mute/" ++ channel))
        ≡ Request.mute_output channel
  unfolding request_of text_eq
  request_of-mute channel h =
      neither _ _ _ _ _
        (text_eq-append settings.base_topic (codes "/command/mute/" ++ channel)
          (codes "/command/preset"))
        (text_eq-append settings.base_topic (codes "/command/mute/" ++ channel)
          (codes "/command/unmute"))
      ∙ ap Request.mute_output (
          ap (λ t. last_part (split 47 t)) (mute_topic_apart channel)
          ∙ last_part-split 47 (settings.base_topic ++ codes "/command/mute") channel h)

  request_of-unmute :
      request_of settings (command_topic settings (codes "unmute")) ≡ Request.unmute_outputs
  unfolding request_of text_eq
  request_of-unmute =
      second _ _ _ _ _
        (text_eq-append settings.base_topic (codes "/command/unmute") (codes "/command/preset"))
        (text_eq_refl (command_topic settings (codes "unmute")))

  request_of-preset :
      request_of settings (command_topic settings (codes "preset")) ≡ Request.recall_preset
  unfolding request_of
  request_of-preset = first_of _ _ _ (text_eq_refl (command_topic settings (codes "preset")))

  among :
      (topic : Text) (l : List (Text × ParamPath))
      → All IsChannel l
      → text_in topic (map (λ m. command_topic settings (codes "mute/" ++ m.0)) l) ≡ true
      → (channel : Text) × ((request_of settings topic ≡ Request.mute_output channel)
          × (path_of channel output_mutes ≢ none))
  unfolding text_in
  among topic [] a h = ground (arith, h)
  among topic (m ∷ ms) a h =
      elim (Bool-cases (text_eq topic (command_topic settings (codes "mute/" ++ m.0)))) [
        | inl e ↦ (
          m.0,
          (ap (request_of settings) (eq_of_text_eq topic _ e) ∙ request_of-mute m.0 a.0.0, a.0.1),
        )
        | inr e ↦ among topic ms a.1 (ground (arith, h, e))
      ]

  mute_topics-request :
      (topic : Text)
      → text_in topic (mute_topics settings) ≡ true
      → (channel : Text) × ((request_of settings topic ≡ Request.mute_output channel)
          × (path_of channel output_mutes ≢ none))
  unfolding path_of text_eq
  mute_topics-request topic h =
      among topic output_mutes
        (
          (refl, λ e. ground (arith, e)),
          (
            (refl, λ e. ground (arith, e)),
            (
              (refl, λ e. ground (arith, e)),
              (
                (refl, λ e. ground (arith, e)),
                ((refl, λ e. ground (arith, e)), ((refl, λ e. ground (arith, e)), tt)),
              ),
            ),
          ),
        )
        h

  -- A message that is accepted asks for something that the controller can do: for the recall of one of
  -- the presets that are offered, for the unmuting of all outputs, or for the muting or unmuting of one
  -- of the six outputs.
  pub is_supported-IsRequest :
      (presets : List Text) (topic payload : Text)
      → is_supported settings presets topic payload ≡ true
      → IsRequest presets (request_of settings topic) payload
  is_supported-IsRequest presets topic payload h =
      let from =
        λ (r : Request) (q : request_of settings topic ≡ r) (k : IsRequest presets r payload).
          subst (λ r'. IsRequest presets r' payload) (sym q) k in
      elim (one_of_three (text_eq topic (command_topic settings (codes "preset")))
        (text_in payload presets) (text_eq topic (command_topic settings (codes "unmute")))
        (text_eq payload (codes "PRESS")) (text_in topic (mute_topics settings))
        (text_in payload (codes "On" ∷ codes "Off" ∷ [])) h) [
          | inl e ↦
              from _ (ap (request_of settings) (eq_of_text_eq topic _ e.0) ∙ request_of-preset) e.1
          | inr (inl e) ↦
              from _ (ap (request_of settings) (eq_of_text_eq topic _ e.0) ∙ request_of-unmute)
                (eq_of_text_eq payload _ e.1)
          | inr (inr e) ↦ let m = mute_topics-request topic e.0 in from _ m.1.0 (m.1.1, e.1)
        ]
