-- ===== src/Portainer/Storage/Replay.antt =====
-- The local storage as a map from items to values.
use mathlib.Core.Path.{subst}
use ui_for_docker.Prelude.{
  ◌≡◌, refl, ap, ◌∙◌, Option, none, some, List, [], ◌∷◌, if◌then◌else◌, ◌==◌, ==_iff, Eq, eq_list,
  eq_nat, includes, Bool-cases, inl, inr, arith,
}
use ui_for_docker.Portainer.Storage.{
  BrowserStorage, Item, jwt, application_state, login_state_uuid, endpoint_id, endpoint_public_url,
  offline_mode, endpoints, endpoint_state, logout_reason, key_of, store_item, get_item,
  remove_items, clean_auth_data, clean_endpoint_data, delete_jwt, clean_logout_reason, clean,
}
use ui_for_docker.Portainer.Storage.Keys.{key_of-injective}

instance abbrev pub eq_item : Eq Item
eq_item = record {
  same = λ item other. key_of item == key_of other;
  same_iff = λ item other. (
    (λ e. key_of-injective item other ((==_iff (key_of item) (key_of other)).0 e)),
    (λ e. (==_iff (key_of item) (key_of other)).1 (ap key_of e)),
  );
}

-- What the service is asked to change.
pub data Operation (V : Type 0) : Type 0 where
  store : Item → V → Operation V
  clean_auth clean_endpoint delete_token clean_reason clean_all : Operation V

abbrev auth_items : List Item
auth_items = jwt ∷ application_state ∷ login_state_uuid ∷ []

abbrev endpoint_items : List Item
endpoint_items = endpoint_id ∷ endpoint_public_url ∷ offline_mode ∷ endpoints ∷ endpoint_state ∷ []

module _ {V : Type 0} where
  -- A map after an operation: an item is stored, or some are forgotten.
  unfoldable pub apply : Operation V → (Item → Option V) → Item → Option V
  unfolding includes
  apply (store item value) items other = if item == other then some value else items other
  apply clean_auth items other = if includes auth_items other then none else items other
  apply clean_endpoint items other = if includes endpoint_items other then none else items other
  apply delete_token items other = if jwt == other then none else items other
  apply clean_reason items other = if logout_reason == other then none else items other
  apply clean_all items other = none

  unfoldable pub replay : List (Operation V) → (Item → Option V) → Item → Option V
  unfolding apply
  replay [] items = items
  replay (operation ∷ operations) items = replay operations (apply operation items)

module _ (storage : BrowserStorage) where
  unfoldable pub perform : Operation storage.Value → storage.Store → storage.Store
  unfolding store_item clean_auth_data clean_endpoint_data delete_jwt clean_logout_reason clean
  perform (store item value) s = store_item storage item value s
  perform clean_auth s = clean_auth_data storage s
  perform clean_endpoint s = clean_endpoint_data storage s
  perform delete_token s = delete_jwt storage s
  perform clean_reason s = clean_logout_reason storage s
  perform clean_all s = clean storage s

  unfoldable pub perform_all : List (Operation storage.Value) → storage.Store → storage.Store
  unfolding perform
  perform_all [] s = s
  perform_all (operation ∷ operations) s = perform_all operations (perform operation s)

  pub get-stored :
      (item other : Item) (value : storage.Value) (s : storage.Store)
      → get_item storage other (store_item storage item value s)
        ≡ (if item == other then some value else get_item storage other s)
  unfolding get_item store_item
  get-stored item other value s = elim (Bool-cases (key_of item == key_of other)) [
    | inl e ↦ rw e (
        subst (λ k. storage.get k (storage.set (key_of item) value s) ≡ some value)
          ((==_iff (key_of item) (key_of other)).0 e) (storage.get-set (key_of item) value s))
    | inr e ↦ rw e (
        storage.get-set_other (key_of item) (key_of other) value s
          (λ p. cc ((==_iff (key_of item) (key_of other)).1 p, e)))
  ]

  pub get-removed :
      (item other : Item) (s : storage.Store)
      → storage.get (key_of other) (storage.remove (key_of item) s)
        ≡ (if item == other then none else storage.get (key_of other) s)
  get-removed item other s = elim (Bool-cases (key_of item == key_of other)) [
    | inl e ↦ rw e (
        subst (λ k. storage.get k (storage.remove (key_of item) s) ≡ none)
          ((==_iff (key_of item) (key_of other)).0 e) (storage.get-remove (key_of item) s))
    | inr e ↦ rw e (
        storage.get-remove_other (key_of item) (key_of other) s
          (λ p. cc ((==_iff (key_of item) (key_of other)).1 p, e)))
  ]

  pub get-remove_items :
      (items : List Item) (other : Item) (s : storage.Store)
      → get_item storage other (remove_items storage items s)
        ≡ (if includes items other then none else get_item storage other s)
  unfolding get_item remove_items includes
  get-remove_items [] other s = refl
  get-remove_items (item ∷ items) other s = ground (
    arith,
    get-remove_items items other (storage.remove (key_of item) s),
    get-removed item other s,
  )

  get-perform :
      (operation : Operation storage.Value) (s : storage.Store) (item : Item)
      → get_item storage item (perform operation s)
        ≡ apply operation (λ other. get_item storage other s) item
  unfolding get_item perform apply clean_auth_data clean_endpoint_data delete_jwt
      clean_logout_reason clean
  get-perform (store item value) s other = get-stored item other value s
  get-perform clean_auth s other = get-remove_items auth_items other s
  get-perform clean_endpoint s other = get-remove_items endpoint_items other s
  get-perform delete_token s other = get-removed jwt other s
  get-perform clean_reason s other = get-removed logout_reason other s
  get-perform clean_all s other = storage.get-clear_all (key_of other) s

  apply-same :
      (operation : Operation storage.Value) (items others : Item → Option storage.Value)
      → ((item : Item) → items item ≡ others item)
      → (item : Item) → apply operation items item ≡ apply operation others item
  unfolding apply
  apply-same (store item value) items others h other = ground (arith, h other)
  apply-same clean_auth items others h other = ground (arith, h other)
  apply-same clean_endpoint items others h other = ground (arith, h other)
  apply-same delete_token items others h other = ground (arith, h other)
  apply-same clean_reason items others h other = ground (arith, h other)
  apply-same clean_all items others h other = refl

  replay-same :
      (operations : List (Operation storage.Value)) (items others : Item → Option storage.Value)
      → ((item : Item) → items item ≡ others item)
      → (item : Item) → replay operations items item ≡ replay operations others item
  unfolding replay
  replay-same [] items others h item = h item
  replay-same (operation ∷ operations) items others h item =
      replay-same operations (apply operation items) (apply operation others)
        (apply-same operation items others h) item

  -- After any sequence of operations, an item has the value that the map of items has for it after
  -- the same sequence, whatever the keys of the storage are.
  pub get-perform_all :
      (operations : List (Operation storage.Value)) (s : storage.Store) (item : Item)
      → get_item storage item (perform_all operations s)
        ≡ replay operations (λ other. get_item storage other s) item
  unfolding perform_all replay
  get-perform_all [] s item = refl
  get-perform_all (operation ∷ operations) s item =
      get-perform_all operations (perform operation s) item
      ∙ replay-same operations (λ other. get_item storage other (perform operation s))
          (apply operation (λ other. get_item storage other s)) (get-perform operation s) item
