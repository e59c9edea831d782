-- ===== src/ConfigHub/Refresh.antt =====
-- internal/confighub/hub.go: what `Refresh` leaves behind, on each of its outcomes.
use tokenlive_standalone.Prelude.{
  ◌+◌, ◌%◌, String, true, false, Option, none, some, List, [], ◌∷◌, ◌==◌, ◌≡◌, refl, ◌⊎◌, inl, inr,
  ap, ◌∙◌, subst, arith, eq_iff, eq_refl, if◌then◌else◌, Bool-cases,
}
use tokenlive_standalone.ConfigHub.{
  Gateway, Snapshot, HubError, Answer, nil_source, failed, loaded_nil, loaded_snapshot, two_64,
  Item, Keys, Hub, get_key, put_key, index_keys, snapshot_unchanged, decoded, applied,
  apply_snapshot, remember_snapshot, refreshed, refresh, get_api_key, found,
}

module _ (g : Gateway) where
  pub get_key-put_key :
      (j k : String) (x : Item g) (m : Keys g)
      → get_key g j (put_key g k x m) ≡ (if k == j then some x else get_key g j m)
  unfolding get_key put_key
  get_key-put_key j k x [] = refl
  get_key-put_key j k x ((i, y) ∷ m) =
      ground (arith, eq_iff i k, eq_iff i j, eq_iff k j, get_key-put_key j k x m)

  -- The item that a list of decoded keys gives a name: the last one that carries it.
  unfoldable pub last_item : String → List (Item g) → Option (Item g) → Option (Item g)
  last_item k [] found = found
  last_item k (x ∷ xs) found = last_item k xs (if x.api_key == k then some x else found)

  index_keys_from :
      (k : String) (m : Keys g) (xs : List (Item g))
      → (k == "") ≡ false
      → get_key g k (index_keys g m xs) ≡ last_item k xs (get_key g k m)
  unfolding index_keys last_item
  index_keys_from k m [] named = refl
  index_keys_from k m (x ∷ xs) named = elim (Bool-cases (x.api_key == "")) [
    | inl e ↦ rw e (
        index_keys_from k m xs named
        ∙ ap (last_item k xs)
            (ground (arith, e, named, eq_iff x.api_key "", eq_iff x.api_key k, eq_iff k "")))
    | inr e ↦ rw e (
        index_keys_from k (put_key g x.api_key x m) xs named
        ∙ ap (last_item k xs) (get_key-put_key k x.api_key x m))
  ]

  -- What a refresh promises of its result. An error leaves the hub as it was. Without one, the hub
  -- has the snapshot; either it is the old hub, or the snapshot is a new one, the version has moved
  -- and `OnReload` was called once, with the kind.
  abbrev pub IsRefreshed : Hub g → String → Answer → Hub g × Option HubError → Type 0
  IsRefreshed h kind answer (h', some e) = h' ≡ h
  IsRefreshed h kind nil_source (h', none) = ⊥
  IsRefreshed h kind (failed e) (h', none) = ⊥
  IsRefreshed h kind loaded_nil (h', none) = ⊥
  IsRefreshed h kind (loaded_snapshot s) (h', none) =
      (snapshot_unchanged g h' s ≡ true)
      × ((h' ≡ h)
          ⊎ ((snapshot_unchanged g h s ≡ false)
              × (h'.version ≡ (h.version + 1) % two_64)
              × (h'.reloads ≡ kind ∷ h.reloads)
              × (h'.notified ≡ (if h.has_handler then kind ∷ h.notified else h.notified))))

  remembered :
      (h h' : Hub g) (kind : String) (s : Snapshot)
      → snapshot_unchanged g h s ≡ false
      → h'.version ≡ h.version
      → h'.reloads ≡ h.reloads
      → (h'.has_handler ≡ h.has_handler) × (h'.notified ≡ h.notified)
      → IsRefreshed h kind (loaded_snapshot s) (refreshed g kind s (h', none))
  unfolding remember_snapshot snapshot_unchanged
  remembered h h' kind s new v r (b, l) = (
    ground (arith, eq_refl s.config_json, eq_refl s.policies_json, eq_refl s.api_keys_json),
    inr (
      new,
      ap (λ n. (n + 1) % two_64) v,
      ap (λ l. kind ∷ l) r,
      ap (λ c. if c then kind ∷ h'.notified else h'.notified) b
          ∙ ap (λ n. if h.has_handler then kind ∷ n else n) l,
    ),
  )

  applied-IsRefreshed :
      (h : Hub g) (kind : String) (s : Snapshot)
      → snapshot_unchanged g h s ≡ false
      → (c : Option g.Config) (p : Option g.Policies) (l : Option (List (Item g)))
      → IsRefreshed h kind (loaded_snapshot s) (refreshed g kind s (applied g h c p l))
  applied-IsRefreshed h kind s new none p l = refl
  applied-IsRefreshed h kind s new (some c) none l = refl
  applied-IsRefreshed h kind s new (some c) (some p) none = refl
  applied-IsRefreshed h kind s new (some c) (some p) (some l) =
      remembered h (record h { config = some c; policies = p; api_keys = index_keys g [] l }) kind s
        new refl refl (refl, refl)

  -- Whatever the source answers, an error leaves the hub exactly as it was; without an error the
  -- source gave a snapshot, the hub counts it as unchanged from then on, and either the hub is the
  -- same one, or the snapshot was new, the version is one more (modulo 2^64), and `OnReload` ran
  -- once, with the kind, if it is set, and otherwise not at all.
  pub refresh-IsRefreshed :
      (h : Hub g) (kind : String) (answer : Answer)
      → IsRefreshed h kind answer (refresh g h kind answer)
  unfolding refresh apply_snapshot
  refresh-IsRefreshed h kind nil_source = refl
  refresh-IsRefreshed h kind (failed e) = refl
  refresh-IsRefreshed h kind loaded_nil = refl
  refresh-IsRefreshed h kind (loaded_snapshot s) = elim (Bool-cases (snapshot_unchanged g h s)) [
    | inl e ↦ rw e (e, inl refl)
    | inr e ↦ rw e (
        applied-IsRefreshed h kind s e (decoded g g.zero_config g.decode_config s.config_json)
          (decoded g g.no_policies g.decode_policies s.policies_json)
          (decoded g [] g.decode_keys s.api_keys_json))
  ]

  pub refresh-unchanged :
      (h : Hub g) (kind : String) (s : Snapshot)
      → snapshot_unchanged g h s ≡ true
      → refresh g h kind (loaded_snapshot s) ≡ (h, none)
  unfolding refresh
  refresh-unchanged h kind s same = rw same refl

  -- After a refresh that reports no error, a second one that finds the same snapshot, of any kind,
  -- changes nothing and reports no error.
  pub refresh-refresh :
      (h h' : Hub g) (kind later : String) (s : Snapshot)
      → refresh g h kind (loaded_snapshot s) ≡ (h', none)
      → refresh g h' later (loaded_snapshot s) ≡ (h', none)
  refresh-refresh h h' kind later s took =
      let r : IsRefreshed h kind (loaded_snapshot s) (h', none) =
        subst (IsRefreshed h kind (loaded_snapshot s)) took
          (refresh-IsRefreshed h kind (loaded_snapshot s)) in
      refresh-unchanged h' later s r.0

  -- After a refresh with a new snapshot whose three blobs decode, a name that is not empty is
  -- answered with the last of the decoded keys that carries it, and with an error if none does.
  pub get_api_key-refresh :
      (h : Hub g) (kind k : String) (s : Snapshot) (c : g.Config) (p : g.Policies)
      (keys : List (Item g))
      → snapshot_unchanged g h s ≡ false
      → decoded g g.zero_config g.decode_config s.config_json ≡ some c
      → decoded g g.no_policies g.decode_policies s.policies_json ≡ some p
      → decoded g [] g.decode_keys s.api_keys_json ≡ some keys
      → (k == "") ≡ false
      → get_api_key g (refresh g h kind (loaded_snapshot s)).0 k ≡ found g (last_item k keys none)
  unfolding refresh apply_snapshot get_api_key remember_snapshot get_key
  get_api_key-refresh h kind k s c p keys new is_c is_p is_keys named =
      rw new
        (rw is_c (rw is_p (rw is_keys (rw named (ap (found g) (index_keys_from k [] keys named))))))
