-- ===== src/Tests/Logins.antt =====
-- The state manager and logins at concrete inputs. The browser's storage keeps its values as they
-- are.
use ui_for_docker.Prelude.{
  ◌≡◌, ◌≢◌, refl, Bool, true, false, Option, none, some, [], Text, codes, arith, eq_list, eq_nat,
  ==_iff, ==_self,
}
use ui_for_docker.Prelude.Dict.{
  Dict, lookup, insert, remove, lookup-insert, lookup-remove, lookup-insert_self,
}
use ui_for_docker.Portainer.Storage.{BrowserStorage, get_item}
use ui_for_docker.Portainer.EndpointProvider.{empty_endpoint}
use ui_for_docker.Portainer.StateManager.{
  Application, UserInterface, Settings, Codec, Codecs, Manager, no_application, update_logo,
  initialize, initialize_from, cached, restore, load_application_state, set_application,
  assign_state_from_status_and_settings,
}
use ui_for_docker.Portainer.StateManager.Cache.{initialized, next, logo, initialize-Reach}
use ui_for_docker.Portainer.Authentication.{Token, no_user, World, is_filled, login, init, logout}
use ui_for_docker.Portainer.Authentication.Sessions.{IsForgotten, logout-IsForgotten, init-login}

-- What is stored: a value of one of the kinds.
data Stored : Type 0 where
  flag : Bool → Stored
  text : Text → Stored
  ui : UserInterface → Stored
  application : Application → Stored

lookup-insert_other :
    (k j : Text) (v : Stored) (s : Dict Text Stored) → k ≢ j → lookup j (insert k v s) ≡ lookup j s
lookup-insert_other k j v s h = ground (arith, lookup-insert k j v s, ==_iff k j, h)

lookup-remove_self : (k : Text) (s : Dict Text Stored) → lookup k (remove k s) ≡ none
lookup-remove_self k s = ground (arith, lookup-remove k k s, ==_self k)

lookup-remove_other :
    (k j : Text) (s : Dict Text Stored) → k ≢ j → lookup j (remove k s) ≡ lookup j s
lookup-remove_other k j s h = ground (arith, lookup-remove k j s, ==_iff k j, h)

abbrev empty_store : Dict Text Stored
empty_store = []

lookup-empty : (k : Text) → lookup k empty_store ≡ none
unfolding lookup
lookup-empty k = refl

abbrev storage : BrowserStorage
storage = record {
  Store = Dict Text Stored;
  Value = Stored;
  get = lookup;
  set = insert;
  remove = remove;
  clear_all = λ s. [];
  get-set = lookup-insert_self;
  get-set_other = lookup-insert_other;
  get-remove = lookup-remove_self;
  get-remove_other = lookup-remove_other;
  get-clear_all = λ k s. lookup-empty k;
}

abbrev no_ui : UserInterface
no_ui = record { dismissed_info_panels = []; dismissed_info_hash = [] }

abbrev read_text : Stored → Text
read_text (text s) = s
read_text _ = []

abbrev read_ui : Stored → UserInterface
read_ui (ui u) = u
read_ui _ = no_ui

abbrev read_application : Stored → Application
read_application (application a) = a
read_application _ = no_application

abbrev texts : Codec Stored Text
texts = record { encode = text; decode = read_text; decode-encode = λ s. refl }

-- The type of endpoints is that of texts.
abbrev codecs : Codecs Stored Text
codecs = record {
  application = record {
    encode = application;
    decode = read_application;
    decode-encode = λ a. refl;
  };
  endpoint = texts;
  ui = record { encode = ui; decode = read_ui; decode-encode = λ u. refl };
}

abbrev settings : Settings
settings = record {
  enable_telemetry = true;
  logo_url = [];
  snapshot_interval = codes "5m";
  enable_edge_compute_features = false;
}

abbrev fresh : Manager Stored (Dict Text Stored) Text
fresh = record {
  loading = true;
  application = no_application;
  endpoint = [];
  ui = no_ui;
  opt_out = none;
  store = [];
}

abbrev answer : Option (Text × Settings)
answer = some (codes "2.6", settings)

abbrev page : Manager Stored (Dict Text Stored) Text
page = (initialize storage codecs [] 100000 answer fresh).1

abbrev edited : Manager Stored (Dict Text Stored) Text
edited = update_logo storage codecs [] (codes "logo.png") page

-- Another page over the same storage, five minutes later, without an answer
abbrev other_page : Manager Stored (Dict Text Stored) Text
other_page = record fresh { store = edited.store }

initialize-Reach_example :
    ((initialize storage codecs [] 100300 none other_page).0 ≡ true)
    × ((initialize storage codecs [] 100300 none other_page).1.application ≡ edited.application)
unfolding initialize initialize_from cached load_application_state restore set_application
    update_logo assign_state_from_status_and_settings get_item lookup
initialize-Reach_example =
    initialize-Reach storage codecs [] 100300 100000 none other_page
      (next (initialized 100000 answer fresh refl) (logo (codes "logo.png"))) refl refl
      (λ e. omega arith) (omega arith)

abbrev token : Text
token = codes "jwt"

abbrev payload : Token
payload = record { username = codes "admin"; id = 1; role = 1 }

abbrev decode_token : Text → Option Token
decode_token s = some payload

abbrev nobody : World Stored (Dict Text Stored) Text
nobody = record { user = no_user; manager = fresh; endpoint = empty_endpoint; session_store = [] }

abbrev truthy : Stored → Bool
truthy value = true

abbrev logged_in : World Stored (Dict Text Stored) Text
logged_in =
    (login storage codecs [] texts truthy flag decode_token (λ s. false) (some token) nobody).1

logout-IsForgotten_example :
    IsForgotten storage codecs [] texts truthy flag decode_token
      (λ s. false)
      logged_in
      (codes "a")
      (logout storage codecs [] texts truthy flag decode_token (λ s. false) true true logged_in).1
logout-IsForgotten_example =
    logout-IsForgotten storage codecs [] texts truthy flag decode_token (λ s. false) true true
      logged_in (codes "a") refl

abbrev next_page : World Stored (Dict Text Stored) Text
next_page = record nobody { manager = record fresh { store = logged_in.manager.store } }

init-login_example :
    ((login storage codecs [] texts truthy flag decode_token (λ s. false) (some token) nobody).0
      ≡ true)
    × ((init storage codecs [] texts truthy flag decode_token (λ s. false) next_page).0 ≡ true)
    × ((init storage codecs [] texts truthy flag decode_token (λ s. false) next_page).1.user
        ≡ logged_in.user)
    × (logged_in.user.role ≡ some 1)
unfolding is_filled
init-login_example =
    init-login storage codecs [] texts truthy flag decode_token (λ s. false) token payload nobody
      next_page refl refl refl
