-- ===== src/Portainer/EndpointProvider/Reload.antt =====
-- The endpoint that is selected is the same after the page is loaded again.
use mathlib.Core.Path.{subst}
use ui_for_docker.Prelude.{
  ℕ, Text, ◌==◌, ==_iff, eq_list, eq_nat, Bool-cases, inl, inr, ◌≡◌, ◌≢◌, refl, sym, ap, ◌∙◌, Bool,
  false, not, Option, none, some, List, [], ◌∷◌, arith, nat_eq,
}
use ui_for_docker.Portainer.Storage.{
  BrowserStorage, Item, endpoint_id, endpoint_public_url, offline_mode, endpoints, endpoint_state,
  store_item, get_item, remove_items, clean_endpoint_data, key_of,
}
use ui_for_docker.Portainer.Storage.Keys.{key_of-injective}
use ui_for_docker.Portainer.EndpointProvider.{
  Slot, undefined, null, holds, Session, empty_endpoint, slot_of, read_slot, value_or, initial_slot,
  slot_truthy, initialize, clean, get_endpoint_id, set_endpoint_id, get_endpoint_public_url,
  set_endpoint_public_url, get_offline_mode, set_offline_mode, set_offline_mode_from_status,
}

module _ {V : Type 0} where
  -- What is in memory is what is stored, or it is read from there.
  abbrev pub IsBacked : Slot V → Option V → Type 0
  IsBacked slot stored = read_slot slot stored ≡ slot_of stored

  pub stored_truthy : (V → Bool) → Option V → Bool
  stored_truthy is_truthy none = false
  stored_truthy is_truthy (some value) = is_truthy value

  initial_slot-IsBacked :
      (is_truthy : V → Bool) (stored : Option V)
      → IsBacked (initial_slot is_truthy undefined stored) stored
  unfolding read_slot slot_of initial_slot
  initial_slot-IsBacked is_truthy none = refl
  initial_slot-IsBacked is_truthy (some value) = ground arith

  read_slot-IsBacked :
      (slot : Slot V) (stored : Option V)
      → IsBacked slot stored
      → IsBacked (read_slot slot stored) stored
  unfolding read_slot slot_of
  read_slot-IsBacked undefined none h = refl
  read_slot-IsBacked undefined (some value) h = refl
  read_slot-IsBacked null stored h = h
  read_slot-IsBacked (holds value) stored h = h

  initial_slot-stored_truthy :
      (is_truthy : V → Bool) (stored : Option V)
      → slot_truthy is_truthy (initial_slot is_truthy undefined stored)
        ≡ stored_truthy is_truthy stored
  unfolding slot_truthy initial_slot stored_truthy
  initial_slot-stored_truthy is_truthy none = refl
  initial_slot-stored_truthy is_truthy (some value) = ground arith

module _ (storage : BrowserStorage) (is_truthy : storage.Value → Bool)
    (flag : Bool → storage.Value) where
  abbrev State : Type 0
  State = Session storage.Value storage.Store

  -- What the page calls, and what else it stores.
  pub data Step
      : Session storage.Value storage.Store → Session storage.Value storage.Store → Type 0 where
    cleaned : {s : State} → Step s (clean storage is_truthy flag s)
    id_read :
        {s : State} (url_id : Option storage.Value)
        → Step s (get_endpoint_id storage is_truthy flag url_id s).1
    id_set : {s : State} (id : storage.Value) → Step s (set_endpoint_id storage is_truthy flag id s)
    url_read : {s : State} → Step s (get_endpoint_public_url storage is_truthy flag s).1
    url_set :
        {s : State} (url : storage.Value)
        → Step s (set_endpoint_public_url storage is_truthy flag url s)
    offline_set :
        {s : State} (v : storage.Value) → Step s (set_offline_mode storage is_truthy flag v s)
    status_set :
        {s : State} (n : ℕ) → Step s (set_offline_mode_from_status storage is_truthy flag n s)
    other_stored :
        {s : State} (item : Item) (v : storage.Value)
        → item ≢ endpoint_id
        → item ≢ endpoint_public_url
        → item ≢ offline_mode
        → Step s (record s { store = store_item storage item v s.store })

  -- From a page that was just loaded
  pub data Reach : State → Type 0 where
    loaded :
        (store : storage.Store)
        → Reach (
            initialize storage is_truthy flag (record { endpoint = empty_endpoint; store = store }))
    next : {s t : State} → Reach s → Step s t → Reach t

  IsSynchronized : State → Type 0
  IsSynchronized s =
      IsBacked s.endpoint.id (get_item storage endpoint_id s.store)
      × IsBacked s.endpoint.public_url (get_item storage endpoint_public_url s.store)
      × (slot_truthy is_truthy s.endpoint.offline_mode
          ≡ stored_truthy is_truthy (get_item storage offline_mode s.store))

  get-remove_none :
      (k j : Text) (s : storage.Store)
      → storage.get j s ≡ none
      → storage.get j (storage.remove k s) ≡ none
  get-remove_none k j s h = elim (Bool-cases (k == j)) [
    | inl e ↦
        subst (λ i. storage.get i (storage.remove k s) ≡ none) ((==_iff k j).0 e)
          (storage.get-remove k s)
    | inr e ↦ storage.get-remove_other k j s (λ p. cc ((==_iff k j).1 p, e)) ∙ h
  ]

  get-remove_items :
      (item : Item) (items : List Item) (s : storage.Store)
      → get_item storage item s ≡ none
      → get_item storage item (remove_items storage items s) ≡ none
  unfolding get_item remove_items
  get-remove_items item [] s h = h
  get-remove_items item (i ∷ items) s h =
      get-remove_items item items (storage.remove (key_of i) s)
        (get-remove_none (key_of i) (key_of item) s h)

  get-cleaned_id :
      (s : storage.Store) → get_item storage endpoint_id (clean_endpoint_data storage s) ≡ none
  unfolding clean_endpoint_data remove_items get_item
  get-cleaned_id s =
      get-remove_items endpoint_id
        (endpoint_public_url ∷ offline_mode ∷ endpoints ∷ endpoint_state ∷ []) _
        (storage.get-remove (key_of endpoint_id) s)

  get-cleaned_url :
      (s : storage.Store)
      → get_item storage endpoint_public_url (clean_endpoint_data storage s) ≡ none
  unfolding clean_endpoint_data remove_items get_item
  get-cleaned_url s =
      get-remove_items endpoint_public_url (offline_mode ∷ endpoints ∷ endpoint_state ∷ []) _
        (storage.get-remove (key_of endpoint_public_url) (storage.remove (key_of endpoint_id) s))

  get-cleaned_offline :
      (s : storage.Store) → get_item storage offline_mode (clean_endpoint_data storage s) ≡ none
  unfolding clean_endpoint_data remove_items get_item
  get-cleaned_offline s = get-remove_items offline_mode (endpoints ∷ endpoint_state ∷ []) _ (
      storage.get-remove (key_of offline_mode)
        (storage.remove (key_of endpoint_public_url) (storage.remove (key_of endpoint_id) s)))

  get-stored :
      (item : Item) (v : storage.Value) (s : storage.Store)
      → get_item storage item (store_item storage item v s) ≡ some v
  unfolding get_item store_item
  get-stored item v s = storage.get-set (key_of item) v s

  get-stored_other :
      (item other : Item) (v : storage.Value) (s : storage.Store)
      → item ≢ other
      → get_item storage other (store_item storage item v s) ≡ get_item storage other s
  unfolding get_item store_item
  get-stored_other item other v s h =
      storage.get-set_other (key_of item) (key_of other) v s
        (λ e. h (key_of-injective item other e))

  loaded-IsSynchronized :
      (store : storage.Store)
      → IsSynchronized
          (initialize storage is_truthy flag (record { endpoint = empty_endpoint; store = store }))
  unfolding IsSynchronized initialize
  loaded-IsSynchronized store = (
    initial_slot-IsBacked is_truthy (get_item storage endpoint_id store),
    initial_slot-IsBacked is_truthy (get_item storage endpoint_public_url store),
    initial_slot-stored_truthy is_truthy (get_item storage offline_mode store),
  )

  -- A value that is held and stored.
  held-IsBacked :
      (v : storage.Value) (stored : Option storage.Value)
      → stored ≡ some v
      → IsBacked (holds v) stored
  unfolding read_slot slot_of
  held-IsBacked v stored e = ap slot_of (sym e)

  kept-IsBacked :
      (slot : Slot storage.Value) (item other : Item) (v : storage.Value) (store : storage.Store)
      → item ≢ other
      → IsBacked slot (get_item storage other store)
      → IsBacked slot (get_item storage other (store_item storage item v store))
  kept-IsBacked slot item other v store h b =
      subst (IsBacked slot) (sym (get-stored_other item other v store h)) b

  kept-truthy :
      (slot : Slot storage.Value) (item : Item) (v : storage.Value) (store : storage.Store)
      → item ≢ offline_mode
      → slot_truthy is_truthy slot ≡ stored_truthy is_truthy (get_item storage offline_mode store)
      → slot_truthy is_truthy slot
        ≡ stored_truthy is_truthy (get_item storage offline_mode (store_item storage item v store))
  kept-truthy slot item v store h o =
      o ∙ ap (stored_truthy is_truthy) (sym (get-stored_other item offline_mode v store h))

  offline_set-IsSynchronized :
      (v : storage.Value) (s : State)
      → IsSynchronized s
      → IsSynchronized (set_offline_mode storage is_truthy flag v s)
  unfolding IsSynchronized set_offline_mode slot_truthy stored_truthy
  offline_set-IsSynchronized v s (i, u, o) = (
    kept-IsBacked s.endpoint.id offline_mode endpoint_id v s.store (λ e. cc e) i,
    kept-IsBacked s.endpoint.public_url offline_mode endpoint_public_url v s.store (λ e. cc e) u,
    sym (ap (stored_truthy is_truthy) (get-stored offline_mode v s.store)),
  )

  Step-IsSynchronized : {s t : State} → Step s t → IsSynchronized s → IsSynchronized t
  unfolding IsSynchronized clean get_endpoint_id set_endpoint_id get_endpoint_public_url
      set_endpoint_public_url set_offline_mode set_offline_mode_from_status slot_truthy
      stored_truthy
  Step-IsSynchronized (cleaned {s = s}) h =
      (refl, refl, sym (ap (stored_truthy is_truthy) (get-cleaned_offline s.store)))
  Step-IsSynchronized (id_read {s = s} url_id) (i, u, o) = (read_slot-IsBacked _ _ i, u, o)
  Step-IsSynchronized (id_set {s = s} id) (i, u, o) = (
    held-IsBacked id _ (get-stored endpoint_id id s.store),
    kept-IsBacked s.endpoint.public_url endpoint_id endpoint_public_url id s.store (λ e. cc e) u,
    kept-truthy s.endpoint.offline_mode endpoint_id id s.store (λ e. cc e) o,
  )
  Step-IsSynchronized (url_read {s = s}) (i, u, o) = (i, read_slot-IsBacked _ _ u, o)
  Step-IsSynchronized (url_set {s = s} url) (i, u, o) = (
    kept-IsBacked s.endpoint.id endpoint_public_url endpoint_id url s.store (λ e. cc e) i,
    held-IsBacked url _ (get-stored endpoint_public_url url s.store),
    kept-truthy s.endpoint.offline_mode endpoint_public_url url s.store (λ e. cc e) o,
  )
  Step-IsSynchronized (offline_set {s = s} v) h = offline_set-IsSynchronized v s h
  Step-IsSynchronized (status_set {s = s} n) h =
      offline_set-IsSynchronized (flag (not (nat_eq n 1))) s h
  Step-IsSynchronized (other_stored {s = s} item v p q r) (i, u, o) = (
    subst (IsBacked s.endpoint.id) (sym (get-stored_other item endpoint_id v s.store p)) i,
    subst (IsBacked s.endpoint.public_url)
        (sym (get-stored_other item endpoint_public_url v s.store q)) u,
    o ∙ ap (stored_truthy is_truthy) (sym (get-stored_other item offline_mode v s.store r)),
  )

  Reach-IsSynchronized : {s : State} → Reach s → IsSynchronized s
  Reach-IsSynchronized (loaded store) = loaded-IsSynchronized store
  Reach-IsSynchronized (next r st) = Step-IsSynchronized st (Reach-IsSynchronized r)

  -- The page as it is when it is loaded again over the same storage.
  pub reload : Session storage.Value storage.Store → Session storage.Value storage.Store
  reload s =
      initialize storage is_truthy flag (record { endpoint = empty_endpoint; store = s.store })

  -- In every state that a page reaches, whatever it has called, loading it again leaves the id of
  -- the endpoint, its public URL and whether it is offline as they were.
  pub reload-Reach :
      {s : State} (url_id : Option storage.Value)
      → Reach s
      → ((get_endpoint_id storage is_truthy flag url_id (reload s)).0
          ≡ (get_endpoint_id storage is_truthy flag url_id s).0)
        × ((get_endpoint_public_url storage is_truthy flag (reload s)).0
            ≡ (get_endpoint_public_url storage is_truthy flag s).0)
        × (slot_truthy is_truthy (get_offline_mode storage is_truthy flag (reload s))
            ≡ slot_truthy is_truthy (get_offline_mode storage is_truthy flag s))
  unfolding reload get_endpoint_id get_endpoint_public_url get_offline_mode IsSynchronized
      initialize
  reload-Reach {s} url_id r =
      let (i, u, o) = Reach-IsSynchronized r in
      let (j, w, q) = loaded-IsSynchronized s.store in
      (ap (λ slot. value_or slot url_id) (j ∙ sym i), w ∙ sym u, q ∙ sym o)

  -- After `clean` the endpoint is that of the URL, and its public URL is null, also once the page
  -- is loaded again.
  pub clean-reload :
      (s : State) (url_id : Option storage.Value)
      → ((get_endpoint_id storage is_truthy flag url_id (clean storage is_truthy flag s)).0
          ≡ url_id)
        × ((get_endpoint_id storage is_truthy flag url_id
              (reload (clean storage is_truthy flag s))).0
            ≡ url_id)
        × ((get_endpoint_public_url storage is_truthy flag
              (reload (clean storage is_truthy flag s))).0
            ≡ null)
  unfolding reload get_endpoint_id get_endpoint_public_url clean initialize initial_slot read_slot
      slot_of value_or
  clean-reload s url_id = ground (arith, get-cleaned_id s.store, get-cleaned_url s.store)
