-- ===== src/Protocol/Framing.antt =====
-- The frames of the client's commands (src/pa2bridge/protocol.py, lines 290 to 358): each is one
-- line, and a reply of the PA2 to `get` is read as what was asked for.
use pa2bridge.Base.{
  ℕ, ◌≡◌, refl, ap, sym, ◌∙◌, Bool, true, false, Option, none, some, [], ◌∷◌, ◌++◌, ◌==◌,
  if◌then◌else◌, arith, some_of, append_assoc,
}
use pa2bridge.Base.Text.{Text, codes, strip_prefix, is_control}
use pa2bridge.Controller.Action.{ok, err, Exn, ParamPath}
use pa2bridge.Protocol.Frame.{
  quote, backslash, validate_atom, encode_path, decode_path, until, last_quoted, path_and_value,
  match_kind, kinds, response_of, with_path, response_after, parse_value_response,
}
use pa2bridge.Protocol.Client.{set_frame, quoted, arguments}
use pa2bridge.Protocol.Paths.{
  Free, Free-weaken, Free-append, value_of, encoded-Free, encoded-absolute, decode_path-encode_path,
}

pub until-Free : (q : ℕ) (a b : Text) → Free (λ c. c == q) a → until q (a ++ q ∷ b) ≡ some (a, b)
unfolding until
until-Free q [] b h = ground arith
until-Free q (c ∷ cs) b h = ground (arith, until-Free q cs b)

not_newline : (c : ℕ) → is_control c ≡ false → (c == 10) ≡ false
not_newline c h = ground arith

no_newline : (t : Text) → Free is_control t → Free (λ c. c == 10) t
no_newline = Free-weaken (λ c. c == 10) is_control not_newline

Free-quoted : (p : ℕ → Bool) (t : Text) → p quote ≡ false → Free p t → Free p (quoted t)
Free-quoted p t q h = ground (arith, q, Free-append p t (quote ∷ []) h)

Free-arguments :
    (encoded value : Text)
    → Free is_control encoded
    → Free is_control value
    → Free is_control (arguments encoded value)
Free-arguments encoded value f g =
    Free-append is_control (quoted encoded) (codes " " ++ quoted value)
      (Free-quoted is_control encoded refl f) (Free-quoted is_control value refl g)

-- A `set` frame with its newline is one line: the text before its first newline is the whole frame,
-- and nothing follows, if the path and the value are ones that the client accepts.
pub set_frame-one_line :
    (path : ParamPath) (value : Text) {encoded accepted : Text}
    → encode_path path ≡ ok encoded
    → validate_atom true value ≡ ok accepted
    → until 10 (set_frame encoded value ++ 10 ∷ []) ≡ some (set_frame encoded value, [])
set_frame-one_line path value {encoded = encoded} h k = until-Free 10 (set_frame encoded value) [] (
    no_newline (set_frame encoded value)
      (Free-arguments encoded value (encoded-Free path h).0 (value_of value k).0))

-- The reply `get "<path>" "<value>"`.
abbrev pub get_reply : Text → Text → Text
get_reply encoded value = codes "get " ++ arguments encoded value

reply_value :
    (c : ℕ) (cs value : Text)
    → Free (λ c. c == quote) value
    → path_and_value (some (c ∷ cs, codes " " ++ quoted value)) ≡ some (c ∷ cs, value)
unfolding strip_prefix
reply_value c cs value h =
    ap (λ o. elim (last_quoted o) [ none ↦ none | some v ↦ some (c ∷ cs, v) ])
      (until-Free quote value [] h)

path_read :
    (encoded value : Text)
    → Free (λ c. c == quote) encoded
    → until quote ((encoded ++ quote ∷ []) ++ (codes " " ++ quoted value))
      ≡ some (encoded, codes " " ++ quoted value)
path_read encoded value h =
    ap (until quote) (append_assoc encoded (quote ∷ []) (codes " " ++ quoted value))
    ∙ until-Free quote encoded (codes " " ++ quoted value) h

-- The reading of the arguments once the path is known to be encoded.
arguments_read :
    (encoded value t : Text)
    → encoded ≡ backslash ∷ backslash ∷ t
    → Free (λ c. c == quote) encoded
    → Free (λ c. c == quote) value
    → path_and_value (until quote ((encoded ++ quote ∷ []) ++ (codes " " ++ quoted value)))
      ≡ some (encoded, value)
arguments_read encoded value t e f g =
    ap path_and_value (path_read encoded value f)
    ∙ (ap (λ p. path_and_value (some (p, codes " " ++ quoted value))) e
        ∙ (reply_value backslash (backslash ∷ t) value g ∙ ap (λ p. some (p, value)) (sym e)))

response_read :
    (encoded value : Text) (path : ParamPath) (o : Option (Text × Text))
    → o ≡ some (encoded, value)
    → decode_path encoded ≡ ok path
    → response_of (codes "get") o ≡ ok (record { kind = codes "get"; path = path; value = value })
response_read encoded value path o e h =
    ap (response_of (codes "get")) e ∙ ap (with_path (codes "get") value) h

accepted_line :
    (line : Text)
    → Free is_control line
    → (if some_of is_control line
        then err Exn.protocol_error
        else response_after (match_kind kinds line))
      ≡ response_after (match_kind kinds line)
accepted_line line h = ground (arith, h)

-- The PA2's reply to a `get` of a path is parsed into that path and the value, for every path that
-- the client sends and every value without quotes and control characters, the empty one included.
pub parse_value_response-get_reply :
    (path : ParamPath) (value : Text) {encoded : Text}
    → encode_path path ≡ ok encoded
    → Free is_control value
    → Free (λ c. c == quote) value
    → parse_value_response (get_reply encoded value)
      ≡ ok (record { kind = codes "get"; path = path; value = value })
unfolding parse_value_response match_kind strip_prefix
parse_value_response-get_reply path value {encoded = encoded} h f g =
    let free = encoded-Free path h in
    let (t, shape) = encoded-absolute path h in
    accepted_line (get_reply encoded value) (Free-arguments encoded value free.0 f)
    ∙ response_read encoded value path _ (arguments_read encoded value t shape free.1 g)
        (decode_path-encode_path path h)
