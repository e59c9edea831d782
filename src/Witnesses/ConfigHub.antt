-- ===== src/Witnesses/ConfigHub.antt =====
-- A hub that loads a snapshot of two keys and charges one of them.
use tokenlive_standalone.Prelude.{
  ℕ, ◌≡◌, refl, String, true, false, none, some, List, [], ◌∷◌, ◌==◌, if◌then◌else◌, inl, arith,
}
use tokenlive_standalone.ConfigHub.{
  ApiKeyItem, Gateway, Snapshot, loaded_snapshot, Hub, get_key, put_key, index_keys,
  snapshot_unchanged, apply_snapshot, remember_snapshot, refresh, get_api_key, found,
  deduct_credits, unlimited,
}
use tokenlive_standalone.ConfigHub.Refresh.{
  last_item, IsRefreshed, refresh-IsRefreshed, get_api_key-refresh,
}
use tokenlive_standalone.ConfigHub.Credits.{charged_item, answer_of, deduct_credits_lem}
use tokenlive_standalone.ConfigHub.Provider.{new_hub}
use tokenlive_standalone.ConfigHub.Histories.{
  begun, refreshes, charges, IsConsistent, Reach-IsConsistent,
}
use tokenlive_standalone.ConfigHub.Overdrawn.{deduct_credits-overdrawn}

abbrev key_named : String → ℕ → ApiKeyItem (Unit {0})
key_named k n = record { api_key = k; credits = n; rest = tt }

abbrev two_keys : List (ApiKeyItem (Unit {0}))
two_keys = key_named "k1" 10 ∷ key_named "" 5 ∷ key_named "k1" 30 ∷ []

abbrev pub a_gateway : Gateway
a_gateway = record {
  Config = String;
  Policies = String;
  Rest = Unit {0};
  zero_config = "";
  no_policies = "";
  decode_config = λ s. some s;
  decode_policies = λ s. some s;
  decode_keys = λ s. some two_keys;
}

abbrev pub a_snapshot : Snapshot
a_snapshot = record { config_json = "{}"; policies_json = ""; api_keys_json = "[...]" }

abbrev pub loaded_hub : Hub a_gateway
loaded_hub = record {
  config = some "{}";
  policies = "";
  api_keys = ("k1", key_named "k1" 30) ∷ [];
  version = 1;
  last_config_json = "{}";
  last_policies_json = "";
  last_api_keys_json = "[...]";
  loaded = true;
  reloads = "all" ∷ [];
  has_handler = false;
  notified = [];
}

pub took_over :
    refresh a_gateway (new_hub a_gateway) "policies" (loaded_snapshot a_snapshot)
    ≡ (record loaded_hub { reloads = "policies" ∷ [] }, none)
unfolding refresh apply_snapshot remember_snapshot snapshot_unchanged index_keys put_key
took_over = refl

pub is_new : snapshot_unchanged a_gateway (new_hub a_gateway) a_snapshot ≡ false
unfolding snapshot_unchanged
is_new = refl

refresh-IsRefreshed_example :
    IsRefreshed a_gateway
      (new_hub a_gateway)
      "all"
      (loaded_snapshot a_snapshot)
      (refresh a_gateway (new_hub a_gateway) "all" (loaded_snapshot a_snapshot))
refresh-IsRefreshed_example =
    refresh-IsRefreshed a_gateway (new_hub a_gateway) "all" (loaded_snapshot a_snapshot)

get_api_key-refresh_example :
    get_api_key a_gateway
      (refresh a_gateway (new_hub a_gateway) "all" (loaded_snapshot a_snapshot)).0
      "k1"
    ≡ found a_gateway (last_item a_gateway "k1" two_keys none)
get_api_key-refresh_example =
    get_api_key-refresh a_gateway (new_hub a_gateway) "all" "k1" a_snapshot "{}" "" two_keys is_new
      refl refl refl refl

deduct_credits_lem_example :
    (get_key a_gateway "k1" (deduct_credits a_gateway loaded_hub "k1" 4).0.api_keys ≡ (
      if "k1" == "k1"
      then charged_item a_gateway 4 (get_key a_gateway "k1" loaded_hub.api_keys)
      else get_key a_gateway "k1" loaded_hub.api_keys))
    × ((deduct_credits a_gateway loaded_hub "k1" 4).1
        ≡ answer_of a_gateway 4 (get_key a_gateway "k1" loaded_hub.api_keys))
deduct_credits_lem_example = deduct_credits_lem a_gateway loaded_hub "k1" "k1" 4

Reach-IsConsistent_example :
    IsConsistent a_gateway
      (deduct_credits a_gateway
        (refresh a_gateway (new_hub a_gateway) "all" (loaded_snapshot a_snapshot)).0
        "k1"
        4).0
Reach-IsConsistent_example =
    Reach-IsConsistent a_gateway
      (charges (refreshes begun "all" (loaded_snapshot a_snapshot)) "k1" 4)

deduct_credits-overdrawn_example :
    ((deduct_credits a_gateway loaded_hub "k1" 31).1 ≡ inl unlimited)
    × ((deduct_credits a_gateway (deduct_credits a_gateway loaded_hub "k1" 31).0 "k1" 1000).1
        ≡ inl unlimited)
unfolding get_key
deduct_credits-overdrawn_example =
    deduct_credits-overdrawn a_gateway loaded_hub "k1" (key_named "k1" 30) 1000 refl (omega arith)
