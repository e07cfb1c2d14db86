-- ===== src/Portainer/Storage.antt =====
-- app/portainer/services/localStorage.js over the browser's storage, which is a parameter: the
-- service of a third-party package with `set`, `get`, `remove` and `clearAll`. An item that is not stored is
-- read as null, here none.
pub mod Keys
pub mod Replay
use ui_for_docker.Prelude.{
  ℕ, ◌≡◌, ◌≢◌, Bool, true, false, Option, none, some, List, [], ◌∷◌, ◌++◌, Text, codes,
}

-- What a page stores, by the function that stores it; those with a text have it at the end of
-- their key.
pub data Item : Type 0 where
  endpoint_id endpoint_public_url login_state_uuid offline_mode endpoints endpoint_state : Item
  application_state ui_state jwt job_image toolbar_toggle logout_reason : Item
  kubernetes_summary_toggle : Item
  pagination_limit data_table_order data_table_text_filters data_table_filters : Text → Item
  data_table_settings data_table_expanded_items data_table_selected_items : Text → Item
  swarm_visualizer_settings column_visibility_settings active_tab : Text → Item

unfoldable pub key_of : Item → Text
key_of endpoint_id = codes "ENDPOINT_ID"
key_of endpoint_public_url = codes "ENDPOINT_PUBLIC_URL"
key_of login_state_uuid = codes "LOGIN_STATE_UUID"
key_of offline_mode = codes "ENDPOINT_OFFLINE_MODE"
key_of endpoints = codes "ENDPOINTS_DATA"
key_of endpoint_state = codes "ENDPOINT_STATE"
key_of application_state = codes "APPLICATION_STATE"
key_of ui_state = codes "UI_STATE"
key_of jwt = codes "JWT"
key_of job_image = codes "job_image"
key_of toolbar_toggle = codes "toolbar_toggle"
key_of logout_reason = codes "logout_reason"
key_of kubernetes_summary_toggle = codes "kubernetes_summary_expanded"
key_of (pagination_limit key) = codes "datatable_pagination_" ++ key
key_of (data_table_order key) = codes "datatable_order_" ++ key
key_of (data_table_text_filters key) = codes "datatable_text_filter_" ++ key
key_of (data_table_filters key) = codes "datatable_filters_" ++ key
key_of (data_table_settings key) = codes "datatable_settings_" ++ key
key_of (data_table_expanded_items key) = codes "datatable_expandeditems_" ++ key
key_of (data_table_selected_items key) = codes "datatable_selecteditems_" ++ key
key_of (swarm_visualizer_settings key) = codes "swarmvisualizer_" ++ key
key_of (column_visibility_settings key) = codes "col_visibility_" ++ key
key_of (active_tab key) = codes "active_tab_" ++ key

-- The browser's storage, with the laws that its package documents.
pub record BrowserStorage : Type 1 where
  pub Store : Type 0
  pub Value : Type 0
  pub get : Text → Store → Option Value
  pub set : Text → Value → Store → Store
  pub remove : Text → Store → Store
  pub clear_all : Store → Store
  pub get-set : (k : Text) (v : Value) (s : Store) → get k (set k v s) ≡ some v
  pub get-set_other : (k j : Text) (v : Value) (s : Store) → k ≢ j → get j (set k v s) ≡ get j s
  pub get-remove : (k : Text) (s : Store) → get k (remove k s) ≡ none
  pub get-remove_other : (k j : Text) (s : Store) → k ≢ j → get j (remove k s) ≡ get j s
  pub get-clear_all : (k : Text) (s : Store) → get k (clear_all s) ≡ none

module _ (storage : BrowserStorage) where
  unfoldable pub store_item : Item → storage.Value → storage.Store → storage.Store
  store_item item value store = storage.set (key_of item) value store

  unfoldable pub get_item : Item → storage.Store → Option storage.Value
  get_item item store = storage.get (key_of item) store

  unfoldable pub remove_items : List Item → storage.Store → storage.Store
  remove_items [] store = store
  remove_items (item ∷ items) store = remove_items items (storage.remove (key_of item) store)

  unfoldable pub clean_auth_data : storage.Store → storage.Store
  unfolding remove_items
  clean_auth_data store = remove_items (jwt ∷ application_state ∷ login_state_uuid ∷ []) store

  unfoldable pub clean_endpoint_data : storage.Store → storage.Store
  unfolding remove_items
  clean_endpoint_data store =
      remove_items
        (endpoint_id ∷ endpoint_public_url ∷ offline_mode ∷ endpoints ∷ endpoint_state ∷ []) store

  unfoldable pub delete_jwt : storage.Store → storage.Store
  delete_jwt store = storage.remove (key_of jwt) store

  unfoldable pub clean_logout_reason : storage.Store → storage.Store
  clean_logout_reason store = storage.remove (key_of logout_reason) store

  unfoldable pub clean : storage.Store → storage.Store
  clean store = storage.clear_all store

  -- `getActiveTab`, where `first` is the value 0
  unfoldable pub get_active_tab : storage.Value → Text → storage.Store → storage.Value
  unfolding get_item
  get_active_tab first key store = elim (get_item (active_tab key) store) [
    | none ↦ first
    | some tab ↦ tab
  ]
