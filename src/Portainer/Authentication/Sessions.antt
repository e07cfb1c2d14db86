-- ===== src/Portainer/Authentication/Sessions.antt =====
-- What a login and a logout leave behind.
use mathlib.Core.Path.{subst}
use ui_for_docker.Prelude.{
  ◌≡◌, refl, sym, ap, ◌∙◌, Bool, true, false, not, ◌&&◌, Option, none, some, List, [], ◌∷◌, Text,
  if◌then◌else◌, eq_list, eq_nat, list_eq, includes, arith,
}
use ui_for_docker.Prelude.Dict.{lookup}
use ui_for_docker.Portainer.Storage.{
  BrowserStorage, Item, jwt, application_state, login_state_uuid, endpoint_id, endpoint_public_url,
  offline_mode, endpoints, endpoint_state, data_table_order, store_item, get_item, key_of,
}
use ui_for_docker.Portainer.Storage.Replay.{
  Operation, store, clean_auth, clean_endpoint, eq_item, apply, replay, perform, perform_all,
  get-perform_all,
}
use ui_for_docker.Portainer.StateManager.{Codec, Codecs, no_application, clean}
use ui_for_docker.Portainer.EndpointProvider.{empty_endpoint, clean as clean_provider}
use ui_for_docker.Portainer.Authentication.{
  Token, User, World, is_filled, with_store, set_user, login, get_jwt, init, is_authenticated,
  is_admin, forget, logout, get_data_table_text_filters,
}

module _ (storage : BrowserStorage) {E : Type 0} (codecs : Codecs storage.Value E) (no_endpoint : E)
    (texts : Codec storage.Value Text) (is_truthy : storage.Value → Bool)
    (flag : Bool → storage.Value) (decode_token : Text → Option Token)
    (is_token_expired : Text → Bool) where
  abbrev State : Type 0
  State = World storage.Value storage.Store E

  abbrev forgotten : State → State
  forgotten = forget storage codecs no_endpoint texts is_truthy flag decode_token is_token_expired

  -- What a logout asks of the local storage.
  abbrev logout_operations : List (Operation storage.Value)
  logout_operations = clean_endpoint ∷ clean_auth ∷ store login_state_uuid (texts.encode []) ∷ []

  -- The local storage after a logout, item by item.
  pub get_item-forget :
      (w : State) (item : Item)
      → get_item storage item (forgotten w).manager.store
        ≡ replay logout_operations (λ other. get_item storage other w.manager.store) item
  unfolding forget clean_provider perform_all perform
  get_item-forget w item = get-perform_all storage logout_operations w.manager.store item

  forget-jwt : (w : State) → get_item storage jwt (forgotten w).manager.store ≡ none
  unfolding replay apply includes key_of list_eq
  forget-jwt w = get_item-forget w jwt

  abbrev pub IsForgotten : State → Text → State → Type 0
  IsForgotten w table t =
      (is_authenticated storage codecs no_endpoint texts is_truthy flag decode_token
          is_token_expired t
        ≡ false)
      × ((init storage codecs no_endpoint texts is_truthy flag decode_token is_token_expired t).0
          ≡ false)
      × (t.manager.application ≡ no_application)
      × (get_item storage application_state t.manager.store ≡ none)
      × (t.manager.endpoint ≡ no_endpoint)
      × (t.endpoint ≡ empty_endpoint)
      × (get_item storage endpoint_id t.manager.store ≡ none)
      × (get_item storage endpoint_public_url t.manager.store ≡ none)
      × (get_item storage offline_mode t.manager.store ≡ none)
      × (get_item storage endpoints t.manager.store ≡ none)
      × (get_item storage endpoint_state t.manager.store ≡ none)
      × (get_data_table_text_filters table t.session_store ≡ none)
      × (get_item storage (data_table_order table) t.manager.store
          ≡ get_item storage (data_table_order table) w.manager.store)

  no_jwt-get_jwt :
      (t : State)
      → get_item storage jwt t.manager.store ≡ none
      → get_jwt storage codecs no_endpoint texts is_truthy flag decode_token is_token_expired t ≡ []
  unfolding get_jwt
  no_jwt-get_jwt t e = ground (arith, e)

  no_jwt-is_authenticated :
      (t : State)
      → get_item storage jwt t.manager.store ≡ none
      → is_authenticated storage codecs no_endpoint texts is_truthy flag decode_token
          is_token_expired t
        ≡ false
  unfolding is_authenticated is_filled
  no_jwt-is_authenticated t e = rw (no_jwt-get_jwt t e) refl

  no_jwt-init :
      (t : State)
      → get_item storage jwt t.manager.store ≡ none
      → (init storage codecs no_endpoint texts is_truthy flag decode_token is_token_expired t).0
        ≡ false
  unfolding init is_filled
  no_jwt-init t e = rw (init, no_jwt-get_jwt t e) refl

  forget-IsForgotten : (w : State) (table : Text) → IsForgotten w table (forgotten w)
  unfolding forget clean clean_provider get_data_table_text_filters lookup replay apply includes
      key_of list_eq
  forget-IsForgotten w table = (
    no_jwt-is_authenticated (forgotten w) (forget-jwt w),
    no_jwt-init (forgotten w) (forget-jwt w),
    refl,
    get_item-forget w application_state,
    refl,
    refl,
    get_item-forget w endpoint_id,
    get_item-forget w endpoint_public_url,
    get_item-forget w offline_mode,
    get_item-forget w endpoints,
    get_item-forget w endpoint_state,
    refl,
    get_item-forget w (data_table_order table),
  )

  abbrev outcome : State → Bool → Bool × State
  outcome w refused = if refused then (false, w) else (true, forgotten w)

  -- After a logout whose request, if one is made, succeeds, nobody is authenticated, and a page that
  -- is loaded then has no user. The state manager has neither the state of the application nor that
  -- of the endpoint, the endpoint provider has no endpoint, and the local storage has none of the
  -- state of the application and the id, public URL, offline mode, list and state of endpoints. No
  -- table has a text filter, and the order of every table is kept.
  pub logout-IsForgotten :
      (perform_api_logout answered : Bool) (w : State) (table : Text)
      → (perform_api_logout && not answered) ≡ false
      → IsForgotten w table
          (logout storage codecs no_endpoint texts is_truthy flag decode_token is_token_expired
            perform_api_logout answered w).1
  unfolding logout
  logout-IsForgotten perform_api_logout answered w table h =
      subst (IsForgotten w table) (sym (ap (λ refused. (outcome w refused).1) h))
        (forget-IsForgotten w table)

  -- A logout does not take the role from memory: who was an administrator still is one for the page.
  pub logout-is_admin :
      (perform_api_logout answered : Bool) (w : State)
      → is_admin storage codecs no_endpoint texts is_truthy flag decode_token is_token_expired
          (logout storage codecs no_endpoint texts is_truthy flag decode_token is_token_expired
            perform_api_logout answered w).1
        ≡ is_admin storage codecs no_endpoint texts is_truthy flag decode_token is_token_expired w
  unfolding logout is_admin forget
  logout-is_admin true true w = refl
  logout-is_admin true false w = refl
  logout-is_admin false answered w = refl

  abbrev user_of : Token → User
  user_of payload = record {
    username = some payload.username;
    id = some payload.id;
    role = some payload.role;
  }

  set_user-decoded :
      (token : Text) (payload : Token) (w : State)
      → decode_token token ≡ some payload
      → let set =
          set_user storage codecs no_endpoint texts is_truthy flag decode_token is_token_expired
            token w in
        (set.0 ≡ true)
        × (set.1.user ≡ user_of payload)
        × (set.1.manager.store ≡ store_item storage jwt (texts.encode token) w.manager.store)
  unfolding set_user with_store
  set_user-decoded token payload w d = rw (set_user, d) (refl, refl, refl)

  stored-get_jwt :
      (token : Text) (page : State) (before : storage.Store)
      → page.manager.store ≡ store_item storage jwt (texts.encode token) before
      → get_jwt storage codecs no_endpoint texts is_truthy flag decode_token is_token_expired page
        ≡ token
  unfolding get_jwt get_item store_item
  stored-get_jwt token page before e =
      rw (get_jwt, e, storage.get-set (key_of jwt) (texts.encode token) before)
        (texts.decode-encode token)

  init-set_user :
      (token : Text) (page : State)
      → get_jwt storage codecs no_endpoint texts is_truthy flag decode_token is_token_expired page
        ≡ token
      → is_filled token ≡ true
      → init storage codecs no_endpoint texts is_truthy flag decode_token is_token_expired page
        ≡ set_user storage codecs no_endpoint texts is_truthy flag decode_token is_token_expired
            token page
  unfolding init
  init-set_user token page e f = rw (init, e, f) refl

  -- The user of a login whose token is not empty and can be decoded is the one that a page has when
  -- it is loaded over the same storage, and the role is that of the token.
  pub init-login :
      (token : Text) (payload : Token) (w page : State)
      → is_filled token ≡ true
      → decode_token token ≡ some payload
      → page.manager.store
        ≡ (login storage codecs no_endpoint texts is_truthy flag decode_token is_token_expired
            (some token)
            w).1.manager.store
      → let logged_in =
          login storage codecs no_endpoint texts is_truthy flag decode_token is_token_expired
            (some token)
            w in
        let found =
          init storage codecs no_endpoint texts is_truthy flag decode_token is_token_expired page in
        (logged_in.0 ≡ true)
        × (found.0 ≡ true)
        × (found.1.user ≡ logged_in.1.user)
        × (logged_in.1.user.role ≡ some payload.role)
  unfolding login
  init-login token payload w page f d e =
      let (resolved, user, kept) = set_user-decoded token payload w d in
      let (found, same, more) = set_user-decoded token payload page d in
      rw (init-set_user token page (stored-get_jwt token page w.manager.store (e ∙ kept)) f)
        (resolved, found, same ∙ sym user, ap (λ u. u.role) user)
