-- ===== src/ConfigHub/Histories.antt =====
-- internal/confighub/hub.go: what every history of refreshes and charges keeps of the keys.
use tokenlive_standalone.Prelude.{
  ℕ, ◌+◌, ◌%◌, String, true, false, Option, none, some, List, [], ◌∷◌, ◌==◌, ◌≡◌, ◌≢◌, refl, sym,
  inl, inr, ap, ◌∙◌, subst, arith, eq_iff, Bool-cases, All, eqb, length, ◌-◌,
}
use tokenlive_standalone.ConfigHub.{
  Gateway, Snapshot, Answer, nil_source, failed, loaded_nil, loaded_snapshot, Item, Keys, Hub,
  two_64, unlimited, get_key, put_key, index_keys, snapshot_unchanged, decoded, applied,
  apply_snapshot, remember_snapshot, refreshed, refresh, charged, deduct_credits,
}
use tokenlive_standalone.ConfigHub.Provider.{new_hub}

module _ (g : Gateway) where
  -- No entry but this one has the name.
  abbrev pub NotAmong : String → Keys g → Type 0
  NotAmong k m = All (λ e. e.0 ≢ k) m

  -- Every key stands once, under its own name, which is not empty.
  abbrev pub AreKeyed : Keys g → Type 0
  AreKeyed [] = Unit
  AreKeyed ((k, x) ∷ m) = (k ≢ "") × ((x.api_key ≡ k) × (NotAmong k m × AreKeyed m))

  NotAmong-put_key :
      (j k : String) (x : Item g) (m : Keys g) → k ≢ j → NotAmong j m → NotAmong j (put_key g k x m)
  unfolding put_key
  NotAmong-put_key j k x [] ne n = (ne, tt)
  NotAmong-put_key j k x ((i, y) ∷ m) ne n = elim (Bool-cases (i == k)) [
    | inl e ↦ rw e (ne, n.1)
    | inr e ↦ rw e (n.0, NotAmong-put_key j k x m ne n.1)
  ]

  AreKeyed-put_key :
      (k : String) (x : Item g) (m : Keys g)
      → k ≢ ""
      → x.api_key ≡ k
      → AreKeyed m
      → AreKeyed (put_key g k x m)
  unfolding put_key
  AreKeyed-put_key k x [] named own a = (named, (own, (tt, tt)))
  AreKeyed-put_key k x ((i, y) ∷ m) named own a = elim (Bool-cases (i == k)) [
    | inl e ↦
        let same : i ≡ k = (eq_iff i k).0 e in
        rw e (named, (own, (subst (λ s. NotAmong s m) same a.1.1.0, a.1.1.1)))
    | inr e ↦
        let ne : k ≢ i = λ q. absurd (ground (arith, e, q, eq_iff i k)) in
        rw e (
          a.0,
          (a.1.0, (NotAmong-put_key i k x m ne a.1.1.0, AreKeyed-put_key k x m named own a.1.1.1)),
        )
  ]

  AreKeyed-index_keys :
      (m : Keys g) (xs : List (Item g)) → AreKeyed m → AreKeyed (index_keys g m xs)
  unfolding index_keys
  AreKeyed-index_keys m [] a = a
  AreKeyed-index_keys m (x ∷ xs) a = elim (Bool-cases (x.api_key == "")) [
    | inl e ↦ rw e (AreKeyed-index_keys m xs a)
    | inr e ↦
        let named : x.api_key ≢ "" = λ q. absurd (ground (arith, e, q, eq_iff x.api_key "")) in
        rw e (
          AreKeyed-index_keys (put_key g x.api_key x m) xs
            (AreKeyed-put_key x.api_key x m named refl a))
  ]

  found_own :
      (k : String) (x : Item g) (m : Keys g)
      → AreKeyed m
      → get_key g k m ≡ some x
      → (k ≢ "") × (x.api_key ≡ k)
  unfolding get_key
  found_own k x [] a e = absurd (cc e)
  found_own k x ((i, y) ∷ m) a e = elim (Bool-cases (i == k)) [
    | inl q ↦
        let same : i ≡ k = (eq_iff i k).0 q in
        let item : y ≡ x = same_some (rw q at e) in
        (λ n. a.0 (same ∙ n), ap (λ z. z.api_key) (sym item) ∙ (a.1.0 ∙ same))
    | inr q ↦ found_own k x m a.1.1.1 (rw q at e)
  ]
    where
      same_some : {u v : Item g} → some u ≡ some v → u ≡ v
      same_some {u = u} p = ap (λ o. elim o [ none ↦ u | some z ↦ z ]) p

  -- The histories of a hub, from a new one.
  pub data Reach : Hub g → Type 0 where
    begun : Reach (new_hub g)
    refreshes :
        {h : Hub g}
        → Reach h
        → (kind : String) (answer : Answer) → Reach (refresh g h kind answer).0
    charges : {h : Hub g} → Reach h → (k : String) (n : ℕ) → Reach (deduct_credits g h k n).0

  pub record IsConsistent (h : Hub g) : Type 0 where
    pub keyed : AreKeyed h.api_keys
    pub counted : h.version ≡ length h.reloads % two_64
    pub unloaded : h.loaded ≡ false → (h.config ≡ none) × (h.api_keys ≡ []) × (h.reloads ≡ [])
    pub configured : h.loaded ≡ true → (c : g.Config) × (h.config ≡ some c)

  IsConsistent-applied :
      (h : Hub g) (kind : String) (s : Snapshot) (c : Option g.Config) (p : Option g.Policies)
      (l : Option (List (Item g)))
      → IsConsistent h
      → IsConsistent (refreshed g kind s (applied g h c p l)).0
  unfolding remember_snapshot
  IsConsistent-applied h kind s none p l i = i
  IsConsistent-applied h kind s (some c) none l i = i
  IsConsistent-applied h kind s (some c) (some p) none i = i
  IsConsistent-applied h kind s (some c) (some p) (some l) i = record {
    keyed = AreKeyed-index_keys [] l tt;
    counted = omega (arith, i.counted);
    unloaded = λ e. absurd (cc e);
    configured = λ e. (c, refl);
  }

  IsConsistent-refresh :
      (h : Hub g) (kind : String) (answer : Answer)
      → IsConsistent h
      → IsConsistent (refresh g h kind answer).0
  unfolding refresh apply_snapshot
  IsConsistent-refresh h kind nil_source i = i
  IsConsistent-refresh h kind (failed e) i = i
  IsConsistent-refresh h kind loaded_nil i = i
  IsConsistent-refresh h kind (loaded_snapshot s) i = elim (Bool-cases (snapshot_unchanged g h s)) [
    | inl e ↦ rw e i
    | inr e ↦ rw e (
        IsConsistent-applied h kind s (decoded g g.zero_config g.decode_config s.config_json)
          (decoded g g.no_policies g.decode_policies s.policies_json)
          (decoded g [] g.decode_keys s.api_keys_json) i)
  ]

  IsConsistent-charged :
      (h : Hub g) (k : String) (n : ℕ) (o : Option (Item g))
      → get_key g k h.api_keys ≡ o
      → IsConsistent h
      → IsConsistent (charged g h k n o).0
  unfolding get_key
  IsConsistent-charged h k n none e i = i
  IsConsistent-charged h k n (some x) e i = elim (Bool-cases (eqb x.credits unlimited)) [
    | inl u ↦ rw u i
    | inr u ↦
        let (named, own) = found_own k x h.api_keys i.keyed e in
        let y = record x { credits = (x.credits + two_64 - n) % two_64 } in
        rw u (record {
          keyed = AreKeyed-put_key k y h.api_keys named own i.keyed;
          counted = i.counted;
          unloaded = λ q. absurd (cc (e, ap (get_key g k) (i.unloaded q).1, no_key));
          configured = i.configured;
        })
  ]
    where
      no_key : get_key g k [] ≡ none
      no_key = refl

  -- After any history of refreshes and charges from a new hub, every cached key stands under its
  -- own name, which is not empty, the version is the number of reloads modulo 2^64, a hub that
  -- never loaded has no configuration, keys or reloads, and a loaded one has a configuration.
  pub Reach-IsConsistent : {h : Hub g} → Reach h → IsConsistent h
  unfolding deduct_credits
  Reach-IsConsistent begun = record {
    keyed = tt;
    counted = omega arith;
    unloaded = λ e. (refl, refl, refl);
    configured = λ e. absurd (cc e);
  }
  Reach-IsConsistent (refreshes {h} r kind answer) =
      IsConsistent-refresh h kind answer (Reach-IsConsistent r)
  Reach-IsConsistent (charges {h} r k n) =
      IsConsistent-charged h k n (get_key g k h.api_keys) refl (Reach-IsConsistent r)
