-- ===== src/Assemble/Stale.antt =====
-- internal/assemble/assemble.go: what the gateway is told of one snapshot, when several changes
-- find it.
use tokenlive_standalone.Prelude.{
  String, Bool, true, false, List, [], ◌∷◌, ◌++◌, Option, none, some, ◌≡◌, refl, sym, ap, ◌∙◌,
  subst, inl, inr, arith, ltb, length, if◌then◌else◌, map,
}
use tokenlive_standalone.ConfigHub.{
  Gateway, Snapshot, loaded_snapshot, Hub, snapshot_unchanged, refresh,
}
use tokenlive_standalone.ConfigHub.Refresh.{IsRefreshed, refresh-IsRefreshed, refresh-unchanged}
use tokenlive_standalone.Assemble.{on_reload}
use tokenlive_standalone.Assemble.App.{
  Sizes, App, sizes_of, reloaded, refresh_app, Event, config_changed, ticked, run_events,
}

module _ (g : Gateway) (z : Sizes g) where
  -- A change of a kind, or a tick, that finds the snapshot.
  abbrev pub finds : Snapshot → Option String → Event g z
  finds s (some kind) = config_changed kind (loaded_snapshot s)
  finds s none = ticked (loaded_snapshot s)

  found_again :
      (a : App g z) (kind : String) (s : Snapshot)
      → snapshot_unchanged g a.hub s ≡ true
      → refresh_app g z a kind (loaded_snapshot s) ≡ a
  unfolding refresh_app
  found_again a kind s same =
      let none_new : ltb (length a.hub.reloads) (length a.hub.reloads) ≡ false = ground arith in
      ap (λ r. reloaded g z a kind r.0) (refresh-unchanged g a.hub kind s same)
      ∙ kept (ltb (length a.hub.reloads) (length a.hub.reloads)) none_new
    where
      kept :
          (b : Bool)
          → b ≡ false
          → record a {
            hub = a.hub;
            calls =
                if b
                then a.calls ++ on_reload a.has_gateway (sizes_of g z a.hub.config) kind
                else a.calls;
          }
            ≡ a
      kept true e = absurd (cc e)
      kept false e = refl

  found_by_all :
      (a : App g z) (s : Snapshot) (later : List (Option String))
      → snapshot_unchanged g a.hub s ≡ true
      → run_events g z a (map (finds s) later) ≡ a
  unfolding run_events
  found_by_all a s [] same = refl
  found_by_all a s (none ∷ later) same =
      ap (λ b. run_events g z b (map (finds s) later)) (found_again a "all" s same)
      ∙ found_by_all a s later same
  found_by_all a s (some kind ∷ later) same =
      ap (λ b. run_events g z b (map (finds s) later)) (changed (a.has_gateway))
      ∙ found_by_all a s later same
    where
      changed : (b : Bool) → (if b then refresh_app g z a kind (loaded_snapshot s) else a) ≡ a
      changed true = found_again a kind s same
      changed false = refl

  abbrev pub TookOver : Hub g → String → Snapshot → Hub g → Type 0
  TookOver h kind s h' =
      (snapshot_unchanged g h s ≡ false) × (refresh g h kind (loaded_snapshot s) ≡ (h', none))

  -- What a refresh with a new snapshot means for the instance.
  first_found :
      (a : App g z) (kind : String) (s : Snapshot) (h : Hub g)
      → a.has_gateway ≡ true
      → TookOver a.hub kind s h
      → (refresh_app g z a kind (loaded_snapshot s)
          ≡ record a { hub = h; calls = a.calls ++ on_reload true (sizes_of g z h.config) kind })
        × (snapshot_unchanged g h s ≡ true)
  unfolding refresh_app
  first_found a kind s h gate (new, took) =
      let r : IsRefreshed g a.hub kind (loaded_snapshot s) (h, none) =
        subst (IsRefreshed g a.hub kind (loaded_snapshot s)) took
          (refresh-IsRefreshed g a.hub kind (loaded_snapshot s)) in
      elim r.1 [
        | inl e ↦ absurd (same_hub e r.0)
        | inr (n, v, reloads, _) ↦
            let longer : ltb (length a.hub.reloads) (length h.reloads) ≡ true =
              ap (λ l. ltb (length a.hub.reloads) (length l)) reloads ∙ ground arith in
            (ap (λ x. reloaded g z a kind x.0) took ∙ told _ a.has_gateway longer gate, r.0)
      ]
    where
      told :
          (b c : Bool)
          → b ≡ true
          → c ≡ true
          → record a {
            hub = h;
            calls = if b then a.calls ++ on_reload c (sizes_of g z h.config) kind else a.calls;
          }
            ≡ record a { hub = h; calls = a.calls ++ on_reload true (sizes_of g z h.config) kind }
      told true true p q = refl
      told true false p q = absurd (cc q)
      told false c p q = absurd (cc p)

      same_hub : h ≡ a.hub → snapshot_unchanged g h s ≡ true → ⊥
      same_hub e t = cc (sym (ap (λ x. snapshot_unchanged g x s) e) ∙ t, new)

-- If a change of some kind is the first to find a snapshot that the hub takes over, the gateway is
-- told what that kind calls for, and nothing more by any later change or tick that finds it.
module _ (g : Gateway) (z : Sizes g) where
  -- If there is a gateway and a change of some kind is the first to find a snapshot that the hub
  -- takes over, the gateway is called as that kind says, and not again by any later change or tick
  -- that finds the same snapshot, whatever its kind is.
  pub run_events-first_kind :
      (a : App g z) (kind : String) (s : Snapshot) (h : Hub g) (later : List (Option String))
      → a.has_gateway ≡ true
      → TookOver g z a.hub kind s h
      → (run_events g z a (config_changed kind (loaded_snapshot s) ∷ map (finds g z s) later)).calls
        ≡ a.calls ++ on_reload true (sizes_of g z h.config) kind
  unfolding run_events
  run_events-first_kind a kind s h later gate took =
      let (first, same) = first_found g z a kind s h gate took in
      let b = record a {
        hub = h;
        calls = a.calls ++ on_reload true (sizes_of g z h.config) kind;
      } in
      ap
        (λ x.
          (run_events g z (if x then refresh_app g z a kind (loaded_snapshot s) else a)
            (map (finds g z s) later)).calls)
        gate
      ∙ (ap (λ x. (run_events g z x (map (finds g z s) later)).calls) first
          ∙ ap (λ x. x.calls) (found_by_all g z b s later same))
