-- ===== src/Bridge/Recognition.antt =====
-- Which PA2 a connection is taken for (src/pa2bridge/mqtt_bridge.py, lines 1530 to 1687).
use native.Mathlib.Omega.{arith}
use pa2bridge.Base.{
  ℕ, Bool, true, false, not, ◌&&◌, ◌||◌, Option, none, some, ◌≡◌, refl, sym, ap, ◌∙◌, ◌⊎◌, inl, inr,
  if◌then◌else◌, leb, subst, ◌-◌, min,
}
use pa2bridge.Base.Text.{Text, text_eq, eq_of_text_eq}
use pa2bridge.Controller.Action.{Res, ok, err, Exn, Stateful, pure, raise, continue, ◌>>=◌, ◌>>◌}
use pa2bridge.Controller.Values.{DeviceIdentity}
use pa2bridge.Controller.Success.{bind-ok}
use pa2bridge.Bridge.State.{Surroundings, Settings, Peer, DeviceInfo, on_world, update, current}
use pa2bridge.Bridge.Identity.{
  device_info, accept_mac, accept_configured, persisted_mac, differs, option_eq, is_some,
  discover_local, discover_trusted, trusted_timeout, require_validation_before, clock, persist_mac,
  conflicting,
}

option_eq-some : (o : Option Text) (c : Text) → option_eq o (some c) ≡ true → o ≡ some c
option_eq-some none c h = ground (arith, h)
option_eq-some (some t) c h = ap some (eq_of_text_eq t c h)

module _ {S : Type 0} where
  ok_inj : {A : Type 0} {a b : A} (p : S) → (pure {S = S} a p).0 ≡ ok b → b ≡ a
  unfolding pure
  ok_inj p h = grind arith

  checks_passed :
      (a x r l t : Bool) (v mac : Option Text) (p : S)
      → ((if a
            then raise Exn.discovery_state_error
            else if not x && not r
            then raise Exn.discovery_state_error
            else if not x && not (l || t)
            then raise Exn.identity_unavailable
            else pure v)
          p).0
        ≡ ok mac
      → (mac ≡ v) × ((x ≡ true) ⊎ ((r ≡ true) × ((l ≡ true) ⊎ (t ≡ true))))
  unfolding raise
  checks_passed true x r l t v mac p h = ground (arith, h)
  checks_passed false true r l t v mac p h = (ok_inj p h, inl refl)
  checks_passed false false false l t v mac p h = ground (arith, h)
  checks_passed false false true false false v mac p h = ground (arith, h)
  checks_passed false false true true t v mac p h = (ok_inj p h, inr (refl, inl refl))
  checks_passed false false true false true v mac p h = (ok_inj p h, inr (refl, inr refl))

  refused_or :
      (a : Bool) (m : Stateful S (Option Text)) (e : Exn) (mac : Option Text) (p : S)
      → ((if a then raise e else m) p).0 ≡ ok mac
      → (a ≡ false) × ((m p).0 ≡ ok mac)
  unfolding raise
  refused_or true m e mac p h = ground (arith, h)
  refused_or false m e mac p h = (refl, h)

same_text : (s t : Text) → not (text_eq s t) ≡ false → t ≡ s
same_text s t h = sym (eq_of_text_eq s t (ground (arith, h)))

saved_agrees :
    (a : Bool) (o : Option Text) (s d : Text)
    → o ≡ some s
    → (a || differs o d) ≡ false
    → not (text_eq s d) ≡ false
saved_agrees a none s d e f = ground (arith, e)
saved_agrees a (some t) s d e f = ground (arith, e, f)

unsaved :
    (a : Bool) (o : Option (Text × Option Text)) (s : Text)
    → persisted_mac o ≡ some s
    → (a || is_some o) ≡ false
    → ⊥
unsaved a none s e f = ground (arith, e)
unsaved a (some x) s e f = ground (arith, f)

discovered_mac :
    {W : Type 0} (d : Text) (mac : Option Text) (p : Peer W)
    → ((update (λ c. record c { stable_mac_address = some d }) >> pure (some d)) p).0 ≡ ok mac
    → mac ≡ some d
unfolding update pure ◌>>=◌
discovered_mac d mac p h = grind arith

test_same :
    {W : Type 0} (t : Bool) (p : Peer W)
    → ((if t then raise Exn.discovery_state_error else pure tt) p).1.persisted_identity
      ≡ p.persisted_identity
unfolding raise pure
test_same true p = refl
test_same false p = refl

asked_same :
    {W A : Type 0} (t : Bool) (x : ℕ) (f : ℕ → W → Res A × W) (p : Peer W)
    → (continue
        ((if t then raise Exn.discovery_state_error else pure x) p).0
        (λ v. on_world (f v))
        ((if t then raise Exn.discovery_state_error else pure x) p).1).1.persisted_identity
      ≡ p.persisted_identity
unfolding raise pure
asked_same true x f p = refl
asked_same false x f p = refl

module _ {W F : Type 0} (n : Surroundings W F) (settings : Settings) where
  -- Accepted with the saved address `s`, or with a configured one that live data have.
  abbrev Accepted : Text → Option Text → Option Text → Option Text → Option Text → Type 0
  Accepted s configured l t mac =
      (mac ≡ some s)
      ⊎ ((settings.replace_saved_identity ≡ true)
          × ((c : Text) × ((configured ≡ some c)
                × ((mac ≡ some c) × ((l ≡ some c) ⊎ (t ≡ some c))))))

  accepted_configured :
      (s c : Text) (l t mac : Option Text) (p : Peer W)
      → (accept_configured n settings c (some s) l t p).0 ≡ ok mac
      → Accepted s (some c) l t mac
  accepted_configured s c l t mac p h =
      let (e, k) =
        checks_passed (differs t c) (text_eq s c) settings.replace_saved_identity
          (option_eq l (some c)) (option_eq t (some c)) (some c) mac p h in
      elim k [
        | inl x ↦ inl (e ∙ ap some (sym (eq_of_text_eq s c x)))
        | inr (r, inl x) ↦ inr (r, (c, (refl, (e, inl (option_eq-some l c x)))))
        | inr (r, inr x) ↦ inr (r, (c, (refl, (e, inr (option_eq-some t c x)))))
      ]

  accepted :
      (configured peer l t mac : Option Text) (b p : Peer W) (s : Text)
      → persisted_mac b.persisted_identity ≡ some s
      → (accept_mac n settings configured peer l t b p).0 ≡ ok mac
      → Accepted s configured l t mac
  unfolding update pure ◌>>=◌
  accepted (some c) peer l t mac b p s e h =
      accepted_configured s c l t mac p
        (subst (λ o. (accept_configured n settings c o l t p).0 ≡ ok mac) e h)
  accepted none peer l (some d) mac b p s e h =
      let (f, k) =
        refused_or
          (differs b.stable_mac_address d || differs (persisted_mac b.persisted_identity) d) _ _ mac
          p h in
      inl (discovered_mac d mac p k ∙ ap some (same_text s d (saved_agrees _ _ s d e f)))
  accepted none peer l none mac b p s e h =
      let (f, k) =
        refused_or (is_some b.stable_mac_address || is_some b.persisted_identity) _ _ mac p h in
      elim (unsaved _ b.persisted_identity s e f) [ ]

  -- The state in which the neighbour table is asked, and the one after its answer.
  abbrev validated : Option ℕ → Peer W → Peer W
  validated d b = (require_validation_before n settings d b).1

  abbrev asked : Option ℕ → Peer W → Peer W
  asked d b = (discover_local n settings (n.peer_ipv4 b.world) (validated d b)).1

  -- The neighbour table has this address for the peer that is connected.
  pub record FromNeighbours (d : Option ℕ) (b : Peer W) (c : Text) : Type 0 where
    pub peer : Text
    pub is_peer : n.peer_ipv4 b.world ≡ some peer
    pub answer : (n.local_mac peer (validated d b).world).0 ≡ ok (some c)

  -- Home Assistant, asked with the token of the settings and for the time that is left, has this
  -- address for the peer that is connected.
  pub record FromHomeAssistant (d : Option ℕ) (b : Peer W) (c : Text) : Type 0 where
    pub peer : Text
    pub is_peer : n.peer_ipv4 b.world ≡ some peer
    pub token : Text
    pub is_token : settings.home_assistant_token ≡ some token
    pub timeout : ℕ
    pub is_timeout : (trusted_timeout n settings d (asked d b)).0 ≡ ok timeout
    pub answer :
        (n.trusted_mac peer token timeout d (trusted_timeout n settings d (asked d b)).1.world).0
        ≡ ok (some c)

  local_source :
      (o l : Option Text) (c : Text) (d : Option ℕ) (b : Peer W)
      → n.peer_ipv4 b.world ≡ o
      → (discover_local n settings o (validated d b)).0 ≡ ok l
      → l ≡ some c
      → FromNeighbours d b c
  unfolding pure
  local_source none l c d b q h e = ground (arith, h, e)
  local_source (some peer) l c d b q h e = record { peer = peer; is_peer = q; answer = h ∙ ap ok e }

  trusted_result :
      (r : Res ℕ) (peer token : Text) (d : Option ℕ) (b : Peer W) (t : Option Text) (c : Text)
      → n.peer_ipv4 b.world ≡ some peer
      → settings.home_assistant_token ≡ some token
      → (trusted_timeout n settings d (asked d b)).0 ≡ r
      → (continue r
          (λ timeout. on_world (n.trusted_mac peer token timeout d))
          (trusted_timeout n settings d (asked d b)).1).0
        ≡ ok t
      → t ≡ some c
      → FromHomeAssistant d b c
  trusted_result (ok timeout) peer token d b t c q k g h e = record {
    peer = peer;
    is_peer = q;
    token = token;
    is_token = k;
    timeout = timeout;
    is_timeout = g;
    answer = h ∙ ap ok e;
  }
  trusted_result (err x) peer token d b t c q k g h e = ground (arith, h)

  trusted_source :
      (o u : Option Text) (d : Option ℕ) (b : Peer W) (t : Option Text) (c : Text)
      → n.peer_ipv4 b.world ≡ o
      → settings.home_assistant_token ≡ u
      → (discover_trusted n settings o u d (asked d b)).0 ≡ ok t
      → t ≡ some c
      → FromHomeAssistant d b c
  unfolding pure ◌>>=◌
  trusted_source none u d b t c q k h e = ground (arith, h, e)
  trusted_source (some peer) none d b t c q k h e = ground (arith, h, e)
  trusted_source (some peer) (some token) d b t c q k h e =
      trusted_result (trusted_timeout n settings d (asked d b)).0 peer token d b t c q k refl h e

  -- These leave the saved identity as it is.
  require-same :
      (d : Option ℕ) (p : Peer W)
      → (require_validation_before n settings d p).1.persisted_identity ≡ p.persisted_identity
  unfolding require_validation_before clock pure raise ◌>>=◌
  require-same none p = refl
  require-same (some d) p = test_same (leb d (n.client.monotonic p.world).0) _

  local-same :
      (peer : Option Text) (p : Peer W)
      → (discover_local n settings peer p).1.persisted_identity ≡ p.persisted_identity
  unfolding pure
  local-same none p = refl
  local-same (some peer) p = refl

  trusted-same :
      (peer token : Option Text) (d : Option ℕ) (p : Peer W)
      → (discover_trusted n settings peer token d p).1.persisted_identity ≡ p.persisted_identity
  unfolding pure clock raise ◌>>=◌
  trusted-same none token d p = refl
  trusted-same (some peer) none d p = refl
  trusted-same (some peer) (some token) none p = refl
  trusted-same (some peer) (some token) (some d) p =
      asked_same (leb d (n.client.monotonic p.world).0)
        (min 3000 (d - (n.client.monotonic p.world).0)) _ _

  conflict_same :
      (t : Bool) (mac : Option Text) (p : Peer W) {v : Unit {0}}
      → ((if t then raise Exn.discovery_state_error else pure tt) p).0 ≡ ok v
      → ((if t then raise Exn.discovery_state_error else pure tt) p).1 ≡ p
  unfolding raise pure
  conflict_same true mac p h = refl
  conflict_same false mac p h = refl

  conclude :
      (d : Option ℕ) (b : Peer W) (info : DeviceInfo) (s : Text) (l t mac : Option Text)
      → Accepted s settings.configured_mac l t mac
      → info.mac_address ≡ mac
      → ((c : Text) → l ≡ some c → FromNeighbours d b c)
      → ((c : Text) → t ≡ some c → FromHomeAssistant d b c)
      → (info.mac_address ≡ some s)
        ⊎ ((settings.replace_saved_identity ≡ true)
            × ((c : Text) × ((settings.configured_mac ≡ some c)
                  × ((info.mac_address ≡ some c)
                      × (FromNeighbours d b c ⊎ FromHomeAssistant d b c)))))
  conclude d b info s l t mac (inl x) e hl ht = inl (e ∙ x)
  conclude d b info s l t mac (inr (r, (c, (g, (m, inl x))))) e hl ht =
      inr (r, (c, (g, (e ∙ m, inl (hl c x)))))
  conclude d b info s l t mac (inr (r, (c, (g, (m, inr x))))) e hl ht =
      inr (r, (c, (g, (e ∙ m, inr (ht c x)))))

  -- A connection that is accepted while the MAC address of a PA2 is saved is taken for that PA2; or the
  -- operator has configured another address and asked for the replacement of the saved one, and the
  -- neighbour table, or Home Assistant asked with the configured token, has in this validation
  -- reported the configured address for the peer that is connected.
  pub device_info-Recognised :
      (identity : DeviceIdentity) (d : Option ℕ) (b : Peer W) (info : DeviceInfo) (s : Text)
      → (device_info n settings identity d b).0 ≡ ok info
      → persisted_mac b.persisted_identity ≡ some s
      → (info.mac_address ≡ some s)
        ⊎ ((settings.replace_saved_identity ≡ true)
            × ((c : Text) × ((settings.configured_mac ≡ some c)
                  × ((info.mac_address ≡ some c)
                      × (FromNeighbours d b c ⊎ FromHomeAssistant d b c)))))
  unfolding device_info current ◌>>=◌
  device_info-Recognised identity d b info s h e =
      let r = bind-ok (require_validation_before n settings d) _ b h in
      let l = bind-ok (discover_local n settings (n.peer_ipv4 b.world)) _ _ r.second in
      let t =
        bind-ok (discover_trusted n settings (n.peer_ipv4 b.world) settings.home_assistant_token d)
          _ _ l.second in
      let k =
        bind-ok
          (if conflicting n settings l.value t.value
            then raise Exn.discovery_state_error
            else pure tt)
          _ _ t.second in
      let p1 = (require_validation_before n settings d b).1 in
      let p2 = (discover_local n settings (n.peer_ipv4 b.world) p1).1 in
      let p3 =
        (discover_trusted n settings (n.peer_ipv4 b.world) settings.home_assistant_token d p2).1 in
      let p4 =
        ((if conflicting n settings l.value t.value
            then raise Exn.discovery_state_error
            else pure tt)
          p3).1 in
      let m =
        bind-ok
          (accept_mac n settings settings.configured_mac (n.peer_ipv4 b.world) l.value t.value p4) _
          p4 k.second in
      let q = bind-ok (persist_mac n settings (n.peer_ipv4 b.world) m.value p4) _ _ m.second in
      let same =
        ap (λ p. p.persisted_identity)
          (conflict_same (conflicting n settings l.value t.value) none p3 k.first)
        ∙ (trusted-same (n.peer_ipv4 b.world) settings.home_assistant_token d p2
            ∙ (local-same (n.peer_ipv4 b.world) p1 ∙ require-same d b)) in
      conclude d b info s l.value t.value m.value
        (accepted settings.configured_mac (n.peer_ipv4 b.world) l.value t.value m.value p4 p4 s
          (ap persisted_mac same ∙ e) m.first)
        (ap (λ i. i.mac_address) (ok_inj _ q.second))
        (λ c x. local_source (n.peer_ipv4 b.world) l.value c d b refl l.first x)
        (λ c x.
          trusted_source (n.peer_ipv4 b.world) settings.home_assistant_token d b t.value c refl refl
            t.first x)
