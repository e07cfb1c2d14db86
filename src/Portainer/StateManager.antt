-- ===== src/Portainer/StateManager.antt =====
-- app/portainer/services/stateManager.js: the state of the application, of the endpoint and of the
-- user interface, and what of it is kept in the browser's storage. The requests to the server are
-- arguments: their answers, or the error.
pub mod Cache
use ui_for_docker.Prelude.{
  ℕ, ◌-◌, Bool, true, false, not, Option, none, some, List, [], ◌∷◌, ◌≡◌, Text, ltb, nat_eq,
  if◌then◌else◌, ◌==◌, eq_list, eq_nat,
}
use ui_for_docker.Prelude.Dict.{Dict, insert}
use ui_for_docker.Portainer.Storage.{
  BrowserStorage, application_state, endpoint_state, ui_state, store_item, get_item,
}

-- What the server says of newer versions (app/portainer/models/status.js).
pub record VersionStatus : Type 0 where
  pub update_available : Bool
  pub latest_version : Text

-- `state.application`: a property may be undefined, all of them in `{}`.
pub record Application : Type 0 where
  pub version : Option Text
  pub version_status : Option VersionStatus
  pub enable_telemetry : Option Bool
  pub logo : Option Text
  pub snapshot_interval : Option Text
  pub enable_edge_compute_features : Option Bool
  pub validity : Option ℕ

-- `state.UI`
pub record UserInterface : Type 0 where
  pub dismissed_info_panels : Dict Text Bool
  pub dismissed_info_hash : Text

pub record Settings : Type 0 where
  pub enable_telemetry : Bool
  pub logo_url : Text
  pub snapshot_interval : Text
  pub enable_edge_compute_features : Bool

-- How a value of the service is kept in the storage: what was written is read back.
pub record Codec (V A : Type 0) : Type 0 where
  pub encode : A → V
  pub decode : V → A
  pub decode-encode : (a : A) → decode (encode a) ≡ a

pub record Codecs (V E : Type 0) : Type 0 where
  pub application : Codec V Application
  pub endpoint : Codec V E
  pub ui : Codec V UserInterface

-- `state`, the storage, and what Matomo was told of opting out. E is the type of endpoints.
pub record Manager (V S E : Type 0) : Type 0 where
  pub loading : Bool
  pub application : Application
  pub endpoint : E
  pub ui : UserInterface
  pub opt_out : Option Bool
  pub store : S

abbrev pub no_application : Application
no_application = record {
  version = none;
  version_status = none;
  enable_telemetry = none;
  logo = none;
  snapshot_interval = none;
  enable_edge_compute_features = none;
  validity = none;
}

-- `APPLICATION_CACHE_VALIDITY`, in seconds
abbrev pub application_cache_validity : ℕ
application_cache_validity = 3600

-- A property that is undefined is falsy.
unfoldable pub is_set : Option Bool → Bool
is_set none = false
is_set (some b) = b

module _ (storage : BrowserStorage) {E : Type 0} (codecs : Codecs storage.Value E)
    (no_endpoint : E) where
  unfoldable pub set_application :
      Application → Manager storage.Value storage.Store E → Manager storage.Value storage.Store E
  unfolding store_item
  set_application application s = record s {
    application = application;
    store = store_item storage application_state (codecs.application.encode application) s.store;
  }

  unfoldable pub set_ui :
      UserInterface → Manager storage.Value storage.Store E → Manager storage.Value storage.Store E
  unfolding store_item
  set_ui ui s = record s {
    ui = ui;
    store = store_item storage ui_state (codecs.ui.encode ui) s.store;
  }

  unfoldable pub set_version_info :
      VersionStatus → Manager storage.Value storage.Store E → Manager storage.Value storage.Store E
  unfolding set_application
  set_version_info version_info s =
      set_application (record s.application { version_status = some version_info }) s

  unfoldable pub dismiss_information_panel :
      Text → Manager storage.Value storage.Store E → Manager storage.Value storage.Store E
  unfolding set_ui insert
  dismiss_information_panel id s =
      set_ui (record s.ui { dismissed_info_panels = insert id true s.ui.dismissed_info_panels }) s

  unfoldable pub dismiss_important_information :
      Text → Manager storage.Value storage.Store E → Manager storage.Value storage.Store E
  unfolding set_ui
  dismiss_important_information hash s = set_ui (record s.ui { dismissed_info_hash = hash }) s

  unfoldable pub clean :
      Manager storage.Value storage.Store E → Manager storage.Value storage.Store E
  clean s = record s { endpoint = no_endpoint; application = no_application }

  unfoldable pub update_logo :
      Text → Manager storage.Value storage.Store E → Manager storage.Value storage.Store E
  unfolding set_application
  update_logo logo_url s = set_application (record s.application { logo = some logo_url }) s

  unfoldable pub update_snapshot_interval :
      Text → Manager storage.Value storage.Store E → Manager storage.Value storage.Store E
  unfolding set_application
  update_snapshot_interval interval s =
      set_application (record s.application { snapshot_interval = some interval }) s

  unfoldable pub update_enable_edge_compute_features :
      Bool → Manager storage.Value storage.Store E → Manager storage.Value storage.Store E
  unfolding set_application
  update_enable_edge_compute_features enabled s =
      set_application (record s.application { enable_edge_compute_features = some enabled }) s

  unfoldable pub update_enable_telemetry :
      Bool → Manager storage.Value storage.Store E → Manager storage.Value storage.Store E
  unfolding set_application
  update_enable_telemetry enabled s =
      set_application (record s.application { enable_telemetry = some enabled })
        (record s { opt_out = some (not enabled) })

  -- The status of the server is its version. `now` is the time of the clock, in seconds.
  unfoldable pub assign_state_from_status_and_settings :
      ℕ → Text → Settings → Application → Application
  assign_state_from_status_and_settings now version settings application = record application {
    version = some version;
    enable_telemetry = some settings.enable_telemetry;
    logo = some settings.logo_url;
    snapshot_interval = some settings.snapshot_interval;
    enable_edge_compute_features = some settings.enable_edge_compute_features;
    validity = some now;
  }

  -- Whether the promise is resolved, and the state. No answer stands for a failed request.
  unfoldable pub load_application_state :
      ℕ
      → Option (Text × Settings)
      → Manager storage.Value storage.Store E
      → Bool × Manager storage.Value storage.Store E
  unfolding assign_state_from_status_and_settings set_application
  load_application_state now none s = (false, record s { loading = false })
  load_application_state now (some (version, settings)) s =
      let application = assign_state_from_status_and_settings now version settings s.application in
      (
        true,
        record (set_application application
            (record s { opt_out = some (not settings.enable_telemetry) })) { loading = false },
      )

  -- The state of the application that is stored and was read from the server less than an hour ago.
  unfoldable pub cached : ℕ → storage.Store → Option Application
  unfolding get_item
  cached now store = elim (get_item storage application_state store) [
    | none ↦ none
    | some value ↦
        let application = codecs.application.decode value in
        elim application.validity [
          | none ↦ none
          | some validity ↦
              if nat_eq validity 0
              then none
              else if ltb application_cache_validity (now - validity)
              then none
              else some application
        ]
  ]

  unfoldable pub stored_or : {A : Type 0} → Codec storage.Value A → A → Option storage.Value → A
  stored_or codec default none = default
  stored_or codec default (some value) = codec.decode value

  unfoldable pub restore :
      Manager storage.Value storage.Store E → Manager storage.Value storage.Store E
  unfolding stored_or get_item
  restore s = record s {
    ui = stored_or codecs.ui s.ui (get_item storage ui_state s.store);
    endpoint = stored_or codecs.endpoint s.endpoint (get_item storage endpoint_state s.store);
  }

  -- The rest of `initialize`, with the state that may be used.
  unfoldable pub initialize_from :
      ℕ
      → Option (Text × Settings)
      → Option Application
      → Manager storage.Value storage.Store E
      → Bool × Manager storage.Value storage.Store E
  unfolding restore load_application_state is_set
  initialize_from now answer none s = load_application_state now answer (restore s)
  initialize_from now answer (some application) s = (
    true,
    record (restore s) {
      application = application;
      loading = false;
      opt_out = some (not (is_set application.enable_telemetry));
    },
  )

  unfoldable pub initialize :
      ℕ
      → Option (Text × Settings)
      → Manager storage.Value storage.Store E
      → Bool × Manager storage.Value storage.Store E
  unfolding cached initialize_from
  initialize now answer s = initialize_from now answer (cached now s.store) s
