-- ===== src/Portainer/EndpointProvider.antt =====
-- app/portainer/services/endpointProvider.js: the selected endpoint, in memory and in the
-- browser's storage. The id of the page's URL is an argument.
pub mod Reload
use ui_for_docker.Prelude.{
  ℕ, ◌≡◌, ◌≢◌, Bool, true, false, not, Option, none, some, List, [], ◌∷◌, nat_eq, if◌then◌else◌,
}
use ui_for_docker.Portainer.Storage.{
  BrowserStorage, Item, endpoint_id, endpoint_public_url, offline_mode, endpoints, store_item,
  get_item, clean_endpoint_data,
}

-- A property of `endpoint`
pub data Slot (V : Type 0) : Type 0 where
  undefined null : Slot V
  holds : V → Slot V

pub record Endpoint (V : Type 0) : Type 0 where
  pub id : Slot V
  pub public_url : Slot V
  pub offline_mode : Slot V

-- The service's variable and the storage
pub record Session (V S : Type 0) : Type 0 where
  pub endpoint : Endpoint V
  pub store : S

module _ {V : Type 0} where
  abbrev pub empty_endpoint : Endpoint V
  empty_endpoint = record { id = undefined; public_url = undefined; offline_mode = undefined }

  unfoldable pub slot_of : Option V → Slot V
  slot_of none = null
  slot_of (some value) = holds value

  -- `if (x === undefined) x = …`
  unfoldable pub read_slot : Slot V → Option V → Slot V
  read_slot undefined stored = slot_of stored
  read_slot null stored = null
  read_slot (holds value) stored = holds value

  unfoldable pub value_or : Slot V → Option V → Option V
  value_or undefined default = default
  value_or null default = default
  value_or (holds value) default = some value

  -- `if (stored) x = stored`
  unfoldable pub initial_slot : (V → Bool) → Slot V → Option V → Slot V
  initial_slot is_truthy slot none = slot
  initial_slot is_truthy slot (some value) = if is_truthy value then holds value else slot

  unfoldable pub slot_truthy : (V → Bool) → Slot V → Bool
  slot_truthy is_truthy undefined = false
  slot_truthy is_truthy null = false
  slot_truthy is_truthy (holds value) = is_truthy value

module _ (storage : BrowserStorage) (is_truthy : storage.Value → Bool)
    (flag : Bool → storage.Value) where
  unfoldable pub initialize :
      Session storage.Value storage.Store → Session storage.Value storage.Store
  unfolding initial_slot
  initialize s = record s {
    endpoint = record {
      id = initial_slot is_truthy s.endpoint.id (get_item storage endpoint_id s.store);
      public_url =
          initial_slot is_truthy s.endpoint.public_url
            (get_item storage endpoint_public_url s.store);
      offline_mode =
          initial_slot is_truthy s.endpoint.offline_mode (get_item storage offline_mode s.store);
    };
  }

  unfoldable pub clean : Session storage.Value storage.Store → Session storage.Value storage.Store
  clean s = record { endpoint = empty_endpoint; store = clean_endpoint_data storage s.store }

  -- `endpointID`: what is returned, and the session, where a stored id is now in memory.
  unfoldable pub get_endpoint_id :
      Option storage.Value
      → Session storage.Value storage.Store
      → Option storage.Value × Session storage.Value storage.Store
  unfolding read_slot value_or
  get_endpoint_id url_id s =
      let slot = read_slot s.endpoint.id (get_item storage endpoint_id s.store) in
      (value_or slot url_id, record s { endpoint = record s.endpoint { id = slot } })

  unfoldable pub set_endpoint_id :
      storage.Value → Session storage.Value storage.Store → Session storage.Value storage.Store
  set_endpoint_id id s = record {
    endpoint = record s.endpoint { id = holds id };
    store = store_item storage endpoint_id id s.store;
  }

  unfoldable pub get_endpoint_public_url :
      Session storage.Value storage.Store → Slot storage.Value × Session storage.Value storage.Store
  unfolding read_slot
  get_endpoint_public_url s =
      let slot = read_slot s.endpoint.public_url (get_item storage endpoint_public_url s.store) in
      (slot, record s { endpoint = record s.endpoint { public_url = slot } })

  unfoldable pub set_endpoint_public_url :
      storage.Value → Session storage.Value storage.Store → Session storage.Value storage.Store
  set_endpoint_public_url url s = record {
    endpoint = record s.endpoint { public_url = holds url };
    store = store_item storage endpoint_public_url url s.store;
  }

  unfoldable pub get_offline_mode : Session storage.Value storage.Store → Slot storage.Value
  get_offline_mode s = s.endpoint.offline_mode

  unfoldable pub set_offline_mode :
      storage.Value → Session storage.Value storage.Store → Session storage.Value storage.Store
  set_offline_mode is_offline s = record {
    endpoint = record s.endpoint { offline_mode = holds is_offline };
    store = store_item storage offline_mode is_offline s.store;
  }

  -- A status that is not 1 is offline.
  unfoldable pub set_offline_mode_from_status :
      ℕ → Session storage.Value storage.Store → Session storage.Value storage.Store
  unfolding set_offline_mode
  set_offline_mode_from_status status s = set_offline_mode (flag (not (nat_eq status 1))) s

  unfoldable pub set_endpoints :
      storage.Value → Session storage.Value storage.Store → Session storage.Value storage.Store
  set_endpoints list s = record s { store = store_item storage endpoints list s.store }
