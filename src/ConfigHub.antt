-- ===== src/ConfigHub.antt =====
-- internal/confighub/hub.go: the in-process cache of the gateway's configuration, policies and API
-- keys. The types of the gateway's package and their JSON decoders are the parameter `Gateway`;
-- bytes are texts, and an absent blob is the empty one, as `bytes.Equal` and `len` see them.
use tokenlive_standalone.Prelude.{
  ℕ, ◌+◌, ◌-◌, ◌%◌, ◌^◌, String, Bool, true, false, not, ◌&&◌, Option, none, some, List, [], ◌∷◌,
  ◌==◌, eqb, if◌then◌else◌, ◌⊎◌, inl, inr,
}
pub mod Refresh
pub mod Credits
pub mod Provider
pub mod Overdrawn
pub mod Histories

-- `HTTPApiKeyItem`: the two fields that the hub reads, and the rest of it.
pub record ApiKeyItem (R : Type 0) : Type 0 where
  pub api_key : String
  pub credits : ℕ  -- int64, as its pattern of 64 bits
  pub rest : R

pub record Gateway : Type 1 where
  pub Config : Type 0
  pub Policies : Type 0
  pub Rest : Type 0
  pub zero_config : Config
  pub no_policies : Policies
  pub decode_config : String → Option Config
  pub decode_policies : String → Option Policies
  pub decode_keys : String → Option (List (ApiKeyItem Rest))

pub record Snapshot : Type 0 where
  pub config_json : String
  pub policies_json : String
  pub api_keys_json : String

pub data HubError : Type 0 where
  no_source nil_snapshot bad_config bad_policies bad_keys : HubError
  not_loaded empty_key key_not_found : HubError
  load_failed : String → HubError

-- What `LoadGatewaySnapshot` answers; `nil_source` is a hub with no source.
pub data Answer : Type 0 where
  nil_source : Answer
  failed : String → Answer
  loaded_nil : Answer
  loaded_snapshot : Snapshot → Answer

abbrev pub two_64 : ℕ
two_64 = 2 ^ 64

-- -1 as an int64.
abbrev pub unlimited : ℕ
unlimited = two_64 - 1

module _ (g : Gateway) where
  abbrev pub Item : Type 0
  Item = ApiKeyItem g.Rest

  abbrev pub Keys : Type 0
  Keys = List (String × Item)

  pub record Hub : Type 0 where
    pub config : Option g.Config
    pub policies : g.Policies
    pub api_keys : Keys
    pub version : ℕ  -- uint64
    pub last_config_json : String
    pub last_policies_json : String
    pub last_api_keys_json : String
    pub loaded : Bool
    pub reloads : List String  -- the kinds of the refreshes that took a snapshot over, the last one first
    pub has_handler : Bool  -- whether `OnReload` is set
    pub notified : List String  -- the kinds that `OnReload` was called with, the last one first

  unfoldable pub get_key : String → Keys → Option Item
  get_key k [] = none
  get_key k ((j, x) ∷ m) = if j == k then some x else get_key k m

  unfoldable pub put_key : String → Item → Keys → Keys
  put_key k x [] = (k, x) ∷ []
  put_key k x ((j, y) ∷ m) = if j == k then (k, x) ∷ m else (j, y) ∷ put_key k x m

  -- The loop over the decoded keys: one without a name is left out, and a later one replaces.
  unfoldable pub index_keys : Keys → List Item → Keys
  unfolding put_key
  index_keys m [] = m
  index_keys m (x ∷ xs) = index_keys (if not (x.api_key == "") then put_key x.api_key x m else m) xs

  unfoldable pub snapshot_unchanged : Hub → Snapshot → Bool
  snapshot_unchanged h s =
      if not h.loaded
      then false
      else h.last_config_json == s.config_json
        && (h.last_policies_json == s.policies_json && h.last_api_keys_json == s.api_keys_json)

  -- An empty blob is not decoded.
  abbrev pub decoded : {A : Type 0} → A → (String → Option A) → String → Option A
  decoded zero_value decode s = if s == "" then some zero_value else decode s

  abbrev pub applied :
      Hub → Option g.Config → Option g.Policies → Option (List Item) → Hub × Option HubError
  applied h none p k = (h, some bad_config)
  applied h (some c) none k = (h, some bad_policies)
  applied h (some c) (some p) none = (h, some bad_keys)
  applied h (some c) (some p) (some k) =
      (record h { config = some c; policies = p; api_keys = index_keys [] k }, none)

  unfoldable pub apply_snapshot : Hub → Snapshot → Hub × Option HubError
  apply_snapshot h s =
      applied h (decoded g.zero_config g.decode_config s.config_json)
        (decoded g.no_policies g.decode_policies s.policies_json)
        (decoded [] g.decode_keys s.api_keys_json)

  unfoldable pub remember_snapshot : Hub → Snapshot → Hub
  remember_snapshot h s = record h {
    last_config_json = s.config_json;
    last_policies_json = s.policies_json;
    last_api_keys_json = s.api_keys_json;
    loaded = true;
  }

  abbrev pub refreshed : String → Snapshot → Hub × Option HubError → Hub × Option HubError
  refreshed kind s (h, some e) = (h, some e)
  refreshed kind s (h, none) =
      let h' = remember_snapshot h s in
      (
        record h' {
          version = (h'.version + 1) % two_64;
          reloads = kind ∷ h'.reloads;
          notified = if h'.has_handler then kind ∷ h'.notified else h'.notified;
        },
        none,
      )

  unfoldable pub refresh : Hub → String → Answer → Hub × Option HubError
  refresh h kind nil_source = (h, some no_source)
  refresh h kind (failed e) = (h, some (load_failed e))
  refresh h kind loaded_nil = (h, some nil_snapshot)
  refresh h kind (loaded_snapshot s) =
      if snapshot_unchanged h s then (h, none) else refreshed kind s (apply_snapshot h s)

  abbrev pub found : Option Item → Item ⊎ HubError
  found none = inr key_not_found
  found (some x) = inl x

  -- The provider's `GetApiKey`.
  unfoldable pub get_api_key : Hub → String → Item ⊎ HubError
  get_api_key h k = if k == "" then inr empty_key else found (get_key k h.api_keys)

  abbrev pub or_not_loaded : Option g.Config → g.Config ⊎ HubError
  or_not_loaded none = inr not_loaded
  or_not_loaded (some c) = inl c

  -- The provider's `GetConfig`.
  unfoldable pub get_config : Hub → g.Config ⊎ HubError
  get_config h = or_not_loaded h.config

  abbrev pub charged : Hub → String → ℕ → Option Item → Hub × (ℕ ⊎ HubError)
  charged h k n none = (h, inr key_not_found)
  charged h k n (some x) =
      if eqb x.credits unlimited
      then (h, inl unlimited)
      else (let left = (x.credits + two_64 - n) % two_64 in
          (record h { api_keys = put_key k (record x { credits = left }) h.api_keys }, inl left))

  -- The provider's `DeductCredits`; the item is changed where the map points to it.
  unfoldable pub deduct_credits : Hub → String → ℕ → Hub × (ℕ ⊎ HubError)
  deduct_credits h k n = charged h k n (get_key k h.api_keys)
