-- ===== src/Portainer/StateManager/Cache.antt =====
-- The state of the application agrees with what is stored of it.
use ui_for_docker.Prelude.{
  ℕ, ◌-◌, ◌≤◌, ◌≡◌, ◌≢◌, refl, ap, ◌∙◌, Bool, true, Option, none, some, Text, eq_list, eq_nat,
  Option-cases, inl, inr, arith, list_eq,
}
use ui_for_docker.Portainer.Storage.{
  BrowserStorage, Item, application_state, ui_state, store_item, get_item, key_of,
}
use ui_for_docker.Portainer.Storage.Replay.{eq_item, get-stored}
use ui_for_docker.Portainer.StateManager.{
  VersionStatus, Application, Settings, Codecs, Manager, application_cache_validity,
  set_application, set_ui, set_version_info, dismiss_information_panel,
  dismiss_important_information, update_logo, update_snapshot_interval,
  update_enable_edge_compute_features, update_enable_telemetry, load_application_state, cached,
  restore, initialize, initialize_from,
}

module _ (storage : BrowserStorage) {E : Type 0} (codecs : Codecs storage.Value E)
    (no_endpoint : E) where
  abbrev State : Type 0
  State = Manager storage.Value storage.Store E

  -- What a page asks of the service once it is initialized.
  pub data Step
      : Manager storage.Value storage.Store E → Manager storage.Value storage.Store E → Type 0 where
    version_info :
        {s : State} (v : VersionStatus) → Step s (set_version_info storage codecs no_endpoint v s)
    panel :
        {s : State} (id : Text) → Step s (dismiss_information_panel storage codecs no_endpoint id s)
    information :
        {s : State} (hash : Text)
        → Step s (dismiss_important_information storage codecs no_endpoint hash s)
    logo : {s : State} (url : Text) → Step s (update_logo storage codecs no_endpoint url s)
    interval :
        {s : State} (i : Text) → Step s (update_snapshot_interval storage codecs no_endpoint i s)
    edge :
        {s : State} (b : Bool)
        → Step s (update_enable_edge_compute_features storage codecs no_endpoint b s)
    telemetry :
        {s : State} (b : Bool) → Step s (update_enable_telemetry storage codecs no_endpoint b s)

  -- From a state that was initialized without an error
  pub data Reach : Manager storage.Value storage.Store E → Type 0 where
    initialized :
        (now : ℕ) (answer : Option (Text × Settings)) (s : State)
        → (initialize storage codecs no_endpoint now answer s).0 ≡ true
        → Reach (initialize storage codecs no_endpoint now answer s).1
    next : {s t : State} → Reach s → Step s t → Reach t

  IsStored : Application → storage.Store → Type 0
  IsStored application store =
      (value : storage.Value) × (get_item storage application_state store ≡ some value)
      × (codecs.application.decode value ≡ application)

  get_item-store_self :
      (item : Item) (value : storage.Value) (store : storage.Store)
      → get_item storage item (store_item storage item value store) ≡ some value
  unfolding get_item store_item
  get_item-store_self item value store = storage.get-set (key_of item) value store

  get_item-store_other :
      (value : storage.Value) (store : storage.Store)
      → get_item storage application_state (store_item storage ui_state value store)
        ≡ get_item storage application_state store
  unfolding get_item store_item key_of list_eq
  get_item-store_other value store = get-stored storage ui_state application_state value store

  cached-fresh :
      (now validity : ℕ) (store : storage.Store) (value : storage.Value) (a : Application)
      → get_item storage application_state store ≡ some value
      → codecs.application.decode value ≡ a
      → a.validity ≡ some validity
      → validity ≢ 0
      → now - validity ≤ application_cache_validity
      → cached storage codecs no_endpoint now store ≡ some a
  unfolding cached
  cached-fresh now validity store value a g d v n b = ground (arith, g, d, v, n, b)

  application-IsStored :
      (a : Application) (store : storage.Store)
      → IsStored a (store_item storage application_state (codecs.application.encode a) store)
  unfolding IsStored
  application-IsStored a store = (
    codecs.application.encode a,
    get_item-store_self application_state (codecs.application.encode a) store,
    codecs.application.decode-encode a,
  )

  beside_ui-IsStored :
      (a : Application) (value : storage.Value) (store : storage.Store)
      → IsStored a store
      → IsStored a (store_item storage ui_state value store)
  unfolding IsStored
  beside_ui-IsStored a ui store (value, e, d) = (value, get_item-store_other ui store ∙ e, d)

  -- What `cached` found is what is stored.
  cached-IsStored :
      (now : ℕ) (store : storage.Store) (a : Application)
      → cached storage codecs no_endpoint now store ≡ some a
      → IsStored a store
  unfolding cached IsStored
  cached-IsStored now store a h = elim (Option-cases (get_item storage application_state store)) [
    | inl e ↦ absurd (ground (arith, h, e))
    | inr (value, e) ↦ (value, e, ground (arith, h, e))
  ]

  load-IsStored :
      (now : ℕ) (answer : Option (Text × Settings)) (s : State)
      → (load_application_state storage codecs no_endpoint now answer s).0 ≡ true
      → let t = (load_application_state storage codecs no_endpoint now answer s).1 in
        IsStored t.application t.store
  unfolding load_application_state set_application
  load-IsStored now none s h = absurd (cc h)
  load-IsStored now (some (version, settings)) s h = application-IsStored _ _

  or_loaded-IsStored :
      (now : ℕ) (answer : Option (Text × Settings)) (s : State) (found : Option Application)
      → cached storage codecs no_endpoint now s.store ≡ found
      → (initialize_from storage codecs no_endpoint now answer found s).0 ≡ true
      → let t = (initialize_from storage codecs no_endpoint now answer found s).1 in
        IsStored t.application t.store
  unfolding initialize_from restore
  or_loaded-IsStored now answer s none e h =
      load-IsStored now answer (restore storage codecs no_endpoint s) h
  or_loaded-IsStored now answer s (some a) e h = cached-IsStored now s.store a e

  Step-IsStored :
      {s t : State} → Step s t → IsStored s.application s.store → IsStored t.application t.store
  unfolding set_version_info dismiss_information_panel dismiss_important_information update_logo
      update_snapshot_interval update_enable_edge_compute_features update_enable_telemetry
      set_application set_ui
  Step-IsStored (version_info v) h = application-IsStored _ _
  Step-IsStored (panel id) h = beside_ui-IsStored _ _ _ h
  Step-IsStored (information hash) h = beside_ui-IsStored _ _ _ h
  Step-IsStored (logo url) h = application-IsStored _ _
  Step-IsStored (interval i) h = application-IsStored _ _
  Step-IsStored (edge b) h = application-IsStored _ _
  Step-IsStored (telemetry b) h = application-IsStored _ _

  Reach-IsStored : {s : State} → Reach s → IsStored s.application s.store
  unfolding initialize
  Reach-IsStored (initialized now answer s h) =
      or_loaded-IsStored now answer s (cached storage codecs no_endpoint now s.store) refl h
  Reach-IsStored (next r st) = Step-IsStored st (Reach-IsStored r)

  -- Whatever was changed on a page, another page over the same storage has the same state of the
  -- application without an answer of the server, if the state has a validity that is not 0 and is
  -- at most an hour old.
  pub initialize-Reach :
      {s : State} (now validity : ℕ) (answer : Option (Text × Settings)) (t : State)
      → Reach s
      → t.store ≡ s.store
      → s.application.validity ≡ some validity
      → validity ≢ 0
      → now - validity ≤ application_cache_validity
      → ((initialize storage codecs no_endpoint now answer t).0 ≡ true)
        × ((initialize storage codecs no_endpoint now answer t).1.application ≡ s.application)
  unfolding initialize initialize_from IsStored
  initialize-Reach {s} now validity answer t r e v n b =
      let (value, g, d) = Reach-IsStored r in
      let found =
        cached-fresh now validity t.store value s.application
          (ap (get_item storage application_state) e ∙ g) d v n b in
      (
        ap (λ o. (initialize_from storage codecs no_endpoint now answer o t).0) found,
        ap (λ o. (initialize_from storage codecs no_endpoint now answer o t).1.application) found,
      )
