-- ===== src/Tests/Sessions.antt =====
-- The session of a page, resource controls and environment variables at concrete inputs. The
-- browser's storage is a dictionary of numbers.
use ui_for_docker.Prelude.{
  ℕ, ◌≡◌, ◌≢◌, refl, none, some, List, [], ◌∷◌, all, arith, Text, codes, Bool, true, false, not,
  nat_eq, All, inl, eq_list, eq_nat, ==_iff, ==_self, if◌then◌else◌,
}
use ui_for_docker.Prelude.Dict.{
  Dict, lookup, insert, remove, lookup-insert, lookup-remove, lookup-insert_self,
}
use ui_for_docker.Prelude.Decimal.{is_space, is_line_break}
use ui_for_docker.Portainer.Storage.{BrowserStorage, data_table_order, jwt, get_item}
use ui_for_docker.Portainer.Storage.Replay.{store, clean_auth, perform_all, replay, get-perform_all}
use ui_for_docker.Portainer.EndpointProvider.{
  Session, empty_endpoint, slot_truthy, initialize, get_endpoint_id, set_endpoint_id,
  get_endpoint_public_url, get_offline_mode,
}
use ui_for_docker.Portainer.EndpointProvider.Reload.{id_set, loaded, next, reload, reload-Reach}
use ui_for_docker.Portainer.ResourceControl.{
  restricted, ResourceControl, FormData, determine_ownership, control_of, form_ownership,
  form_data_to_ownership_parameters,
}
use ui_for_docker.Portainer.ResourceControl.Shown.{IsShared, form_data-determine_ownership}
use ui_for_docker.Prelude.Trim.{trim_end, trim_end_step}
use ui_for_docker.Portainer.EnvFile.{
  Variable, is_letter, is_alphanumeric, is_key_unit, ends_key, is_key, parse_dot_env_file,
  convert_to_array_of_strings,
}
use ui_for_docker.Portainer.EnvFile.RoundTrip.{IsVariable}
use ui_for_docker.Portainer.EnvFile.Files.{file_of, parse_dot_env_file-file_of}

lookup-insert_other :
    (k j : Text) (v : ℕ) (s : Dict Text ℕ) → k ≢ j → lookup j (insert k v s) ≡ lookup j s
lookup-insert_other k j v s h = ground (arith, lookup-insert k j v s, ==_iff k j, h)

lookup-remove_self : (k : Text) (s : Dict Text ℕ) → lookup k (remove k s) ≡ none
lookup-remove_self k s = ground (arith, lookup-remove k k s, ==_self k)

lookup-remove_other : (k j : Text) (s : Dict Text ℕ) → k ≢ j → lookup j (remove k s) ≡ lookup j s
lookup-remove_other k j s h = ground (arith, lookup-remove k j s, ==_iff k j, h)

abbrev empty_store : Dict Text ℕ
empty_store = []

lookup-empty : (k : Text) → lookup k empty_store ≡ none
unfolding lookup
lookup-empty k = refl

abbrev dictionary_storage : BrowserStorage
dictionary_storage = record {
  Store = Dict Text ℕ;
  Value = ℕ;
  get = lookup;
  set = insert;
  remove = remove;
  clear_all = λ store. [];
  get-set = lookup-insert_self;
  get-set_other = lookup-insert_other;
  get-remove = lookup-remove_self;
  get-remove_other = lookup-remove_other;
  get-clear_all = λ k store. lookup-empty k;
}

abbrev is_truthy : ℕ → Bool
is_truthy n = not (nat_eq n 0)

abbrev flag : Bool → ℕ
flag b = if b then 1 else 0

abbrev fresh_page : Session ℕ (Dict Text ℕ)
fresh_page =
    initialize dictionary_storage is_truthy flag (record { endpoint = empty_endpoint; store = [] })

abbrev chosen_page : Session ℕ (Dict Text ℕ)
chosen_page = set_endpoint_id dictionary_storage is_truthy flag 5 fresh_page

reload-Reach_example :
    ((get_endpoint_id dictionary_storage is_truthy flag none
        (reload dictionary_storage is_truthy flag chosen_page)).0
      ≡ (get_endpoint_id dictionary_storage is_truthy flag none chosen_page).0)
    × ((get_endpoint_public_url dictionary_storage is_truthy flag
          (reload dictionary_storage is_truthy flag chosen_page)).0
        ≡ (get_endpoint_public_url dictionary_storage is_truthy flag chosen_page).0)
    × (slot_truthy is_truthy (
          get_offline_mode dictionary_storage is_truthy flag
            (reload dictionary_storage is_truthy flag chosen_page))
        ≡ slot_truthy is_truthy (get_offline_mode dictionary_storage is_truthy flag chosen_page))
reload-Reach_example =
    reload-Reach dictionary_storage is_truthy flag none (next (loaded []) (id_set 5))

abbrev shared_form : FormData
shared_form = record {
  access_control_enabled = true;
  ownership = restricted;
  authorized_users = 2 ∷ 3 ∷ [];
  authorized_teams = [];
}

shared_form-IsShared : IsShared (form_ownership shared_form) (2 ∷ 3 ∷ []) []
unfolding IsShared
shared_form-IsShared h = inl (omega arith)

form_data-determine_ownership_example :
    determine_ownership (control_of (form_data_to_ownership_parameters 1 shared_form []))
    ≡ form_ownership shared_form
form_data-determine_ownership_example =
    form_data-determine_ownership 1 shared_form [] shared_form-IsShared

abbrev private_control : ResourceControl
private_control = record { public = false; user_accesses = 4 ∷ []; team_accesses = [] }

abbrev two_variables : List Variable
two_variables =
    record { name = codes "MODE"; value = some (codes "a b") }
    ∷ record { name = codes "x-1"; value = none }
    ∷ []

two_variables-IsVariable : All IsVariable two_variables
unfolding is_key ends_key is_key_unit is_alphanumeric is_letter trim_end trim_end_step is_space all
    is_line_break
two_variables-IsVariable = ((refl, (refl, refl)), ((refl, tt), tt))

parse_dot_env_file-file_of_example :
    parse_dot_env_file (file_of (convert_to_array_of_strings two_variables)) ≡ two_variables
parse_dot_env_file-file_of_example =
    parse_dot_env_file-file_of two_variables two_variables-IsVariable

get-perform_all_example :
    get_item dictionary_storage (data_table_order (codes "a")) (
      perform_all dictionary_storage
        (store jwt 5 ∷ store (data_table_order (codes "a")) 7 ∷ clean_auth ∷ [])
        [])
    ≡ replay
        (store jwt 5 ∷ store (data_table_order (codes "a")) 7 ∷ clean_auth ∷ [])
        (λ other. get_item dictionary_storage other [])
        (data_table_order (codes "a"))
get-perform_all_example =
    get-perform_all dictionary_storage
      (store jwt 5 ∷ store (data_table_order (codes "a")) 7 ∷ clean_auth ∷ []) []
      (data_table_order (codes "a"))
