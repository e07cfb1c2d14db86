-- ===== src/Portainer/Authentication.antt =====
-- app/portainer/services/authentication.js, with app/portainer/services/session-storage.js: the user
-- who is logged in, over the state manager, the selected endpoint and the storages of the browser.
-- The requests to the server are arguments: their answers, or none where they fail. So are the
-- third-party functions on tokens: `decodeToken`, which throws on what is no token, and
-- `isTokenExpired`.
pub mod Sessions
use ui_for_docker.Prelude.{
  ℕ, Bool, true, false, not, ◌&&◌, Option, none, some, List, [], ◌∷◌, Text, codes, ◌++◌, nat_eq,
  if◌then◌else◌, eq_list, eq_nat,
}
use ui_for_docker.Prelude.Dict.{Dict, lookup, insert}
use ui_for_docker.Portainer.Storage.{
  BrowserStorage, jwt, login_state_uuid, store_item, get_item, clean_auth_data,
}
use ui_for_docker.Portainer.StateManager.{Codec, Codecs, Manager, clean}
use ui_for_docker.Portainer.EndpointProvider.{Endpoint, clean as clean_endpoint}

pub record Token : Type 0 where
  pub username : Text
  pub id : ℕ
  pub role : ℕ

-- `user`: its properties are undefined in `{}`.
pub record User : Type 0 where
  pub username : Option Text
  pub id : Option ℕ
  pub role : Option ℕ

abbrev pub no_user : User
no_user = record { username = none; id = none; role = none }

-- What the service works on. `session_store` is the browser's storage of one session.
pub record World (V S E : Type 0) : Type 0 where
  pub user : User
  pub manager : Manager V S E
  pub endpoint : Endpoint V
  pub session_store : Dict Text Text

unfoldable pub is_filled : Text → Bool
is_filled [] = false
is_filled (c ∷ s) = true

-- The text filter of a table, which datatableService.js keeps for the session, as JSON.
unfoldable pub set_data_table_text_filters : Text → Text → Dict Text Text → Dict Text Text
unfolding insert
set_data_table_text_filters key filters session_store =
    insert (codes "datatable_text_filter_" ++ key) filters session_store

unfoldable pub get_data_table_text_filters : Text → Dict Text Text → Option Text
unfolding lookup
get_data_table_text_filters key session_store =
    lookup (codes "datatable_text_filter_" ++ key) session_store

module _ (storage : BrowserStorage) {E : Type 0} (codecs : Codecs storage.Value E) (no_endpoint : E)
    (texts : Codec storage.Value Text) (is_truthy : storage.Value → Bool)
    (flag : Bool → storage.Value) (decode_token : Text → Option Token)
    (is_token_expired : Text → Bool) where
  unfoldable pub with_store :
      storage.Store → World storage.Value storage.Store E → World storage.Value storage.Store E
  with_store store w = record w { manager = record w.manager { store = store } }

  -- `setUser`: whether it does not throw, and the state. The token is stored before it is decoded.
  unfoldable pub set_user :
      Text → World storage.Value storage.Store E → Bool × World storage.Value storage.Store E
  unfolding store_item with_store
  set_user token w =
      let stored = with_store (store_item storage jwt (texts.encode token) w.manager.store) w in
      elim (decode_token token) [
        | none ↦ (false, stored)
        | some payload ↦ (
          true,
          record stored {
            user = record {
              username = some payload.username;
              id = some payload.id;
              role = some payload.role;
            };
          },
        )
      ]

  -- `login` and `OAuthLogin`, with the token of the answer.
  unfoldable pub login :
      Option Text → World storage.Value storage.Store E → Bool × World storage.Value storage.Store E
  unfolding set_user
  login none w = (false, w)
  login (some token) w = set_user token w

  unfoldable pub get_jwt : World storage.Value storage.Store E → Text
  unfolding get_item
  get_jwt w = elim (get_item storage jwt w.manager.store) [
    | none ↦ []
    | some value ↦ texts.decode value
  ]

  -- Whether a user is logged in; a token that cannot be decoded is none.
  unfoldable pub init :
      World storage.Value storage.Store E → Bool × World storage.Value storage.Store E
  unfolding get_jwt set_user is_filled
  init w = let set = set_user (get_jwt w) w in if is_filled (get_jwt w) then set else (false, w)

  unfoldable pub is_authenticated : World storage.Value storage.Store E → Bool
  unfolding get_jwt is_filled
  is_authenticated w = is_filled (get_jwt w) && not (is_token_expired (get_jwt w))

  unfoldable pub is_admin : World storage.Value storage.Store E → Bool
  is_admin w = elim w.user.role [ none ↦ false | some role ↦ nat_eq role 1 ]

  -- What `logout` does behind the request: the storages and the states of the other services.
  unfoldable pub forget : World storage.Value storage.Store E → World storage.Value storage.Store E
  unfolding clean clean_endpoint clean_auth_data store_item
  forget w =
      let session =
        clean_endpoint storage is_truthy flag
          (record { endpoint = w.endpoint; store = w.manager.store }) in
      let store =
        store_item storage login_state_uuid (texts.encode [])
          (clean_auth_data storage session.store) in
      record {
        user = w.user;
        manager = record (clean storage codecs no_endpoint w.manager) { store = store };
        endpoint = session.endpoint;
        session_store = [];
      }

  -- `answered` is whether the request succeeds, if one is made.
  unfoldable pub logout :
      Bool → Bool → World storage.Value storage.Store E → Bool × World storage.Value storage.Store E
  unfolding forget
  logout perform_api_logout answered w =
      if perform_api_logout && not answered then (false, w) else (true, forget w)
