-- ===== src/Telemetry/Complete.antt =====
-- What a crossover that is returned has (controller.py, lines 1101 to 1238).
use native.Mathlib.Omega.{arith}
use pa2bridge.Base.{
  ℕ, ◌≤◌, leb, Bool, true, false, ◌&&◌, ◌||◌, Option, List, [], ◌∷◌, map, every, ◌≡◌, refl, sym, ap,
  ◌∙◌, subst, Bool-cases, if◌then◌else◌, inl, inr,
}
use pa2bridge.Base.Text.{Text, text_eq, text_in, eq_of_text_eq}
use pa2bridge.Controller.Action.{ok, Entries, Sys, pure, raise, lift}
use pa2bridge.Controller.Device.{Controller, client_ls}
use pa2bridge.Controller.Entries.{same_texts, keys}
use pa2bridge.Controller.Success.{bind-ok}
use pa2bridge.Telemetry.Numbers.{Floats}
use pa2bridge.Telemetry.Crossover.{
  CrossoverBand, CrossoverState, band_le, insert_band, sort_bands, parse_crossover_band,
  parse_bands, read_bands, crossover, expected_identifiers, check, collect_attributes,
  crossover_attributes_path, crossover_values_path,
}

abbrev pub identifiers : {F : Type 0} → List (CrossoverBand F) → List Text
identifiers bands = map (λ b. b.identifier) bands

swap_or : (a b c : Bool) → (a || (b || c)) ≡ (b || (a || c))
swap_or a b c = ground arith

text_in-inserted :
    {F : Type 0} (test : Bool) (t : Text) (b x : CrossoverBand F) (xs rest : List (CrossoverBand F))
    → text_in t (identifiers rest) ≡ (text_eq t b.identifier || text_in t (identifiers xs))
    → text_in t (identifiers (if test then b ∷ x ∷ xs else x ∷ rest))
      ≡ (text_eq t b.identifier || (text_eq t x.identifier || text_in t (identifiers xs)))
unfolding text_in
text_in-inserted true t b x xs rest h = refl
text_in-inserted false t b x xs rest h =
    ap (λ y. text_eq t x.identifier || y) h
    ∙ swap_or (text_eq t x.identifier) (text_eq t b.identifier) (text_in t (identifiers xs))

text_in-insert :
    {F : Type 0} (t : Text) (b : CrossoverBand F) (bs : List (CrossoverBand F))
    → text_in t (identifiers (insert_band b bs))
      ≡ (text_eq t b.identifier || text_in t (identifiers bs))
unfolding insert_band text_in
text_in-insert t b [] = refl
text_in-insert t b (x ∷ xs) =
    text_in-inserted (band_le b x) t b x xs (insert_band b xs) (text_in-insert t b xs)

text_in-sort :
    {F : Type 0} (t : Text) (bs : List (CrossoverBand F))
    → text_in t (identifiers (sort_bands bs)) ≡ text_in t (identifiers bs)
unfolding sort_bands text_in
text_in-sort t [] = refl
text_in-sort t (b ∷ bs) =
    text_in-insert t b (sort_bands bs) ∙ ap (λ y. text_eq t b.identifier || y) (text_in-sort t bs)

-- A list that is within another has no text that the other does not have.
in_both :
    (t : Text) (a b : List Text)
    → every (λ u. text_in u b) a ≡ true
    → text_in t a ≡ true
    → text_in t b ≡ true
unfolding text_in
in_both t [] b h k = ground (arith, k)
in_both t (u ∷ us) b h k = elim (Bool-cases (text_eq t u)) [
  | inl e ↦ subst (λ x. text_in x b ≡ true) (sym (eq_of_text_eq t u e)) (ground (arith, h))
  | inr e ↦ in_both t us b (ground (arith, h)) (ground (arith, k, e))
]

same_flags : (a b : Bool) → (a ≡ true → b ≡ true) → (b ≡ true → a ≡ true) → a ≡ b
same_flags a b h k = ground (arith, h, k)

same_texts-in : (a b : List Text) → same_texts a b ≡ true → (t : Text) → text_in t a ≡ text_in t b
same_texts-in a b h t =
    same_flags (text_in t a) (text_in t b) (in_both t a b (ground (arith, h)))
      (in_both t b a (ground (arith, h)))

module _ {W F : Type 0} (c : Controller W) (floats : Floats F) where
  check_ok : (t : Bool) (s : Sys W) {v : Unit {0}} → (check t s).0 ≡ ok v → t ≡ true
  unfolding raise pure
  check_ok true s h = refl
  check_ok false s h = ground (arith, h)

  returned : {A : Type 0} {a b : A} (s : Sys W) → (pure {S = Sys W} a s).0 ≡ ok b → b ≡ a
  unfolding pure
  returned s h = grind arith

  identifier-parse :
      (t : Text) (values : Entries) (k : ℕ) (mono : Bool) (s : Sys W) {b : CrossoverBand F}
      → (parse_crossover_band c floats t values k mono s).0 ≡ ok b
      → b.identifier ≡ t
  unfolding parse_crossover_band
  identifier-parse t values k mono s h =
      let a1 = bind-ok _ _ s h in
      let a2 = bind-ok _ _ _ a1.second in
      let a3 = bind-ok _ _ _ a2.second in
      let a4 = bind-ok _ _ _ a3.second in
      let a5 = bind-ok _ _ _ a4.second in
      let a6 = bind-ok _ _ _ a5.second in
      let a7 = bind-ok _ _ _ a6.second in
      let a8 = bind-ok _ _ _ a7.second in
      let a9 = bind-ok _ _ _ a8.second in
      let b1 = bind-ok _ _ _ a9.second in
      let b2 = bind-ok _ _ _ b1.second in
      let b3 = bind-ok _ _ _ b2.second in ap (λ x. x.identifier) (returned _ b3.second)

  identifiers-parse :
      (ts : List Text) (values : Entries) (k : ℕ) (mono : Bool) (s : Sys W)
      {bs : List (CrossoverBand F)}
      → (parse_bands c floats ts values k mono s).0 ≡ ok bs
      → identifiers bs ≡ ts
  unfolding parse_bands
  identifiers-parse [] values k mono s h = ap identifiers (returned s h)
  identifiers-parse (t ∷ ts) values k mono s h =
      let a1 = bind-ok (parse_crossover_band c floats t values k mono) _ s h in
      let a2 = bind-ok (parse_bands c floats ts values k mono) _ _ a1.second in
      ap identifiers (returned _ a2.second)
      ∙ (ap (λ x. x ∷ identifiers a2.value) (identifier-parse t values k mono s a1.first)
          ∙ ap (λ x. t ∷ x) (identifiers-parse ts values k mono _ a2.first))

  pub record Complete (st : CrossoverState F) : Type 0 where
    pub counted : (1 ≤ st.num_bands) × (st.num_bands ≤ 3)
    pub identified :
        (t : Text)
        → text_in t (identifiers st.bands)
          ≡ text_in t (expected_identifiers st.num_bands st.mono_sub)

  read_bands-Complete :
      (values : Entries) (k : ℕ) (mono : Bool) (s : Sys W) {st : CrossoverState F}
      → (1 ≤ k) × (k ≤ 3)
      → (read_bands c floats values k mono s).0 ≡ ok st
      → Complete st
  unfolding read_bands
  read_bands-Complete values k mono s {st} counted h =
      let a1 = bind-ok (lift (collect_attributes (keys values) [])) _ s h in
      let a2 = bind-ok _ _ _ a1.second in
      let a3 = bind-ok _ _ _ a2.second in
      let a4 =
        bind-ok (parse_bands c floats (map (λ r. r.0) a1.value) values k mono) _ _ a3.second in
      subst Complete (sym (returned _ a4.second)) (record {
        counted = counted;
        identified = λ t.
            text_in-sort t a4.value
            ∙ (ap (text_in t) (identifiers-parse (map (λ r. r.0) a1.value) values k mono _ a4.first)
                ∙ same_texts-in _ _ (check_ok _ _ a2.first) t);
      })

  one_to_three : (k : ℕ) → (leb 1 k && leb k 3) ≡ true → (1 ≤ k) × (k ≤ 3)
  one_to_three k h = (ground (arith, h), ground (arith, h))

  -- A crossover that is returned has one to three bands, and bands for exactly the identifiers that its
  -- topology asks for: one for each band, and one for the mono subwoofer if there is one.
  pub crossover-Complete :
      (deadline : Option ℕ) (s : Sys W) (st : CrossoverState F)
      → (crossover c floats deadline s).0 ≡ ok st
      → Complete st
  unfolding crossover
  crossover-Complete deadline s st h =
      let a1 = bind-ok (client_ls c crossover_attributes_path deadline) _ s h in
      let a2 = bind-ok (client_ls c crossover_values_path deadline) _ _ a1.second in
      let a3 = bind-ok _ _ _ a2.second in
      let a4 = bind-ok _ _ _ a3.second in
      let a5 = bind-ok _ _ _ a4.second in
      let a6 = bind-ok _ _ _ a5.second in
      read_bands-Complete a2.value a4.value a5.value _ (one_to_three _ (check_ok _ _ a6.first))
        a6.second
