-- ===== src/Portainer/Storage/Keys.antt =====
-- No two items share a key of the storage.
use ui_for_docker.Prelude.{
  ◌≡◌, refl, sym, ap, ◌∙◌, Option, none, some, List, [], ◌∷◌, Text, after_prefix, if◌then◌else◌,
  ◌==◌, eq_list, eq_nat, list_eq,
}
use ui_for_docker.Portainer.Storage.{
  Item, endpoint_id, endpoint_public_url, login_state_uuid, offline_mode, endpoints, endpoint_state,
  application_state, ui_state, jwt, job_image, toolbar_toggle, logout_reason,
  kubernetes_summary_toggle, pagination_limit, data_table_order, data_table_text_filters,
  data_table_filters, data_table_settings, data_table_expanded_items, data_table_selected_items,
  swarm_visualizer_settings, column_visibility_settings, active_tab, key_of,
}

abbrev fixed_items : List Item
fixed_items =
    endpoint_id ∷ endpoint_public_url ∷ login_state_uuid ∷ offline_mode ∷ endpoints ∷ endpoint_state
    ∷ application_state ∷ ui_state ∷ jwt ∷ job_image ∷ toolbar_toggle ∷ logout_reason
    ∷ kubernetes_summary_toggle ∷ []

abbrev keyed_items : List (Text → Item)
keyed_items =
    pagination_limit ∷ data_table_order ∷ data_table_text_filters ∷ data_table_filters
    ∷ data_table_settings ∷ data_table_expanded_items ∷ data_table_selected_items
    ∷ swarm_visualizer_settings ∷ column_visibility_settings ∷ active_tab ∷ []

-- The item of a key, if it is one.
fixed_item : List Item → Text → Option Item
unfolding key_of
fixed_item [] text = none
fixed_item (item ∷ items) text = if key_of item == text then some item else fixed_item items text

keyed_item : List (Text → Item) → Text → Option Item
unfolding key_of
keyed_item [] text = fixed_item fixed_items text
keyed_item (item ∷ items) text = elim (after_prefix (key_of (item [])) text) [
  | some key ↦ some (item key)
  | none ↦ keyed_item items text
]

item_of-key_of : (item : Item) → keyed_item keyed_items (key_of item) ≡ some item
unfolding keyed_item fixed_item key_of after_prefix list_eq
item_of-key_of endpoint_id = refl
item_of-key_of endpoint_public_url = refl
item_of-key_of login_state_uuid = refl
item_of-key_of offline_mode = refl
item_of-key_of endpoints = refl
item_of-key_of endpoint_state = refl
item_of-key_of application_state = refl
item_of-key_of ui_state = refl
item_of-key_of jwt = refl
item_of-key_of job_image = refl
item_of-key_of toolbar_toggle = refl
item_of-key_of logout_reason = refl
item_of-key_of kubernetes_summary_toggle = refl
item_of-key_of (pagination_limit key) = refl
item_of-key_of (data_table_order key) = refl
item_of-key_of (data_table_text_filters key) = refl
item_of-key_of (data_table_filters key) = refl
item_of-key_of (data_table_settings key) = refl
item_of-key_of (data_table_expanded_items key) = refl
item_of-key_of (data_table_selected_items key) = refl
item_of-key_of (swarm_visualizer_settings key) = refl
item_of-key_of (column_visibility_settings key) = refl
item_of-key_of (active_tab key) = refl

some_injective : {A : Type 0} (x y : A) → some x ≡ some y → x ≡ y
some_injective x y e = cc

-- Different items have different keys, whatever the keys of the tables are.
pub key_of-injective : (item other : Item) → key_of item ≡ key_of other → item ≡ other
key_of-injective item other e =
    some_injective item other
      (sym (item_of-key_of item) ∙ ap (keyed_item keyed_items) e ∙ item_of-key_of other)
