-- ===== src/Protocol/Paths.antt =====
-- The coding of paths (src/pa2bridge/protocol.py, lines 48 to 109): decoding gives back what was
-- encoded, and what was encoded cannot end the quoted argument or the line of a frame.
use pa2bridge.Base.{
  ℕ, ◌≡◌, refl, ap, ◌∙◌, Bool, true, false, ◌||◌, List, [], ◌∷◌, ◌++◌, ◌==◌, if◌then◌else◌, arith,
  some_of, All,
}
use pa2bridge.Base.Text.{Text, strip_prefix, is_control}
use pa2bridge.Base.Split.{join, split-join, Without}
use pa2bridge.Base.Decimal.{is_empty}
use pa2bridge.Controller.Action.{Res, ok, err, Exn, ParamPath}
use pa2bridge.Protocol.Frame.{
  quote, backslash, is_forbidden, validate_atom, validate_parts, encode_path, encode_valid,
  decode_path,
}

-- No character of the text passes the test.
abbrev pub Free : (ℕ → Bool) → Text → Type 0
Free p t = some_of p t ≡ false

-- What is accepted as one part of a path.
pub record Part (t : Text) : Type 0 where
  pub not_empty : is_empty t ≡ false
  pub no_control : Free is_control t
  pub no_quote : Free (λ c. c == quote) t
  pub no_backslash : Without backslash t

pub Free-weaken :
    (p q : ℕ → Bool) → ((c : ℕ) → q c ≡ false → p c ≡ false) → (t : Text) → Free q t → Free p t
Free-weaken p q h [] f = refl
Free-weaken p q h (c ∷ cs) f = ground (arith, h c, Free-weaken p q h cs)

pub Free-append : (p : ℕ → Bool) (a b : Text) → Free p a → Free p b → Free p (a ++ b)
Free-append p [] b f g = g
Free-append p (c ∷ cs) b f g = ground (arith, Free-append p cs b)

accepted :
    (t : Text) (b : Bool) {u : Text} → (if b then err Exn.value_error else ok t) ≡ ok u → b ≡ false
accepted t true h = cc
accepted t false h = refl

forbids_control : (b : Bool) (c : ℕ) → is_forbidden b c ≡ false → is_control c ≡ false
forbids_control b c h = ground arith

forbids_quote : (b : Bool) (c : ℕ) → is_forbidden b c ≡ false → (c == quote) ≡ false
forbids_quote b c h = ground arith

forbids_backslash : (c : ℕ) → is_forbidden false c ≡ false → (c == backslash) ≡ false
forbids_backslash c h = ground arith

Part-of : (t : Text) {u : Text} → validate_atom false t ≡ ok u → Part t
unfolding validate_atom
Part-of [] h = cc
Part-of (c ∷ cs) h =
    let free = accepted (c ∷ cs) (some_of (is_forbidden false) (c ∷ cs)) h in
    record {
      not_empty = refl;
      no_control =
          Free-weaken is_control (is_forbidden false) (forbids_control false) (c ∷ cs) free;
      no_quote =
          Free-weaken (λ c. c == quote) (is_forbidden false) (forbids_quote false) (c ∷ cs) free;
      no_backslash =
          Free-weaken (λ c. c == backslash) (is_forbidden false) forbids_backslash (c ∷ cs) free;
    }

-- What `_validate_atom` accepts as a value.
pub value_of :
    (t : Text) {u : Text}
    → validate_atom true t ≡ ok u
    → Free is_control t × Free (λ c. c == quote) t
unfolding validate_atom
value_of [] h = cc
value_of (c ∷ cs) h =
    let free = accepted (c ∷ cs) (some_of (is_forbidden true) (c ∷ cs)) h in
    (
      Free-weaken is_control (is_forbidden true) (forbids_control true) (c ∷ cs) free,
      Free-weaken (λ c. c == quote) (is_forbidden true) (forbids_quote true) (c ∷ cs) free,
    )

both_valid :
    (r : Res Text) (next : Res (Unit {0}))
    → elim r [ ok _ ↦ next | err x ↦ err x ] ≡ ok tt
    → ((u : Text) × (r ≡ ok u)) × (next ≡ ok tt)
both_valid (ok u) next h = ((u, refl), h)
both_valid (err x) next h = cc

validate_parts-All : (ps : List Text) → validate_parts ps ≡ ok tt → All Part ps
unfolding validate_parts
validate_parts-All [] h = tt
validate_parts-All (p ∷ ps) h =
    let b = both_valid (validate_atom false p) (validate_parts ps) h in
    (Part-of p b.0.1, validate_parts-All ps b.1)

-- What is known of an encoded path.
encoded :
    (ps : List Text) (r : Res (Unit {0})) {t : Text}
    → encode_valid ps r ≡ ok t
    → (r ≡ ok tt) × (t ≡ backslash ∷ backslash ∷ join backslash ps)
encoded ps (ok _) h = (refl, ground arith)
encoded ps (err e) h = cc

no-Part_empty : (ps : List Text) → All Part ps → some_of is_empty ps ≡ false
no-Part_empty [] h = refl
no-Part_empty (p ∷ ps) h = ground (arith, h.0.not_empty, no-Part_empty ps h.1)

no-Part_control : (ps : List Text) → All Part ps → some_of (some_of is_control) ps ≡ false
no-Part_control [] h = refl
no-Part_control (p ∷ ps) h = ground (arith, h.0.no_control, no-Part_control ps h.1)

All-Without : (ps : List Text) → All Part ps → All (Without backslash) ps
All-Without [] h = tt
All-Without (p ∷ ps) h = (h.0.no_backslash, All-Without ps h.1)

decoded_parts :
    (ps qs : List Text)
    → qs ≡ ps
    → All Part ps
    → (if some_of is_empty qs || some_of (some_of is_control) qs
        then err Exn.protocol_error
        else ok qs)
      ≡ ok ps
decoded_parts ps qs e h = ground (arith, e, no-Part_empty ps h, no-Part_control ps h)

-- Decoding an encoded path gives the path's parts.
pub decode_path-encode_path :
    (path : ParamPath) {t : Text} → encode_path path ≡ ok t → decode_path t ≡ ok path
unfolding encode_path decode_path strip_prefix
decode_path-encode_path [] h = cc
decode_path-encode_path (p ∷ ps) h =
    let (valid, shape) = encoded (p ∷ ps) (validate_parts (p ∷ ps)) h in
    let all = validate_parts-All (p ∷ ps) valid in
    let same = split-join backslash p ps (All-Without (p ∷ ps) all) in
    ap decode_path shape ∙ decoded_parts (p ∷ ps) _ same all

Free-join :
    (q : ℕ → Bool)
    → q backslash ≡ false
    → (ps : List Text) → All (Free q) ps
    → Free q (join backslash ps)
unfolding join
Free-join q b [] h = refl
Free-join q b (p ∷ []) h = h.0
Free-join q b (p ∷ p' ∷ ps) h =
    Free-append q p (backslash ∷ join backslash (p' ∷ ps)) h.0
      (ground (arith, b, Free-join q b (p' ∷ ps) h.1))

All-control : (ps : List Text) → All Part ps → All (Free is_control) ps
All-control [] h = tt
All-control (p ∷ ps) h = (h.0.no_control, All-control ps h.1)

All-quote : (ps : List Text) → All Part ps → All (Free (λ c. c == quote)) ps
All-quote [] h = tt
All-quote (p ∷ ps) h = (h.0.no_quote, All-quote ps h.1)

pub encoded-Free :
    (path : ParamPath) {t : Text}
    → encode_path path ≡ ok t
    → Free is_control t × Free (λ c. c == quote) t
unfolding encode_path
encoded-Free [] h = cc
encoded-Free (p ∷ ps) h =
    let (valid, shape) = encoded (p ∷ ps) (validate_parts (p ∷ ps)) h in
    let all = validate_parts-All (p ∷ ps) valid in
    (
      ap (some_of is_control) shape ∙ Free-join is_control refl (p ∷ ps) (All-control (p ∷ ps) all),
      ap (some_of (λ c. c == quote)) shape
          ∙ Free-join (λ c. c == quote) refl (p ∷ ps) (All-quote (p ∷ ps) all),
    )

pub encoded-absolute :
    (path : ParamPath) {t : Text}
    → encode_path path ≡ ok t
    → (u : Text) × (t ≡ backslash ∷ backslash ∷ u)
unfolding encode_path
encoded-absolute [] h = cc
encoded-absolute (p ∷ ps) h =
    (join backslash (p ∷ ps), (encoded (p ∷ ps) (validate_parts (p ∷ ps)) h).1)
