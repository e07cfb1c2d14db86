-- ===== src/Portainer/ResourceControl.antt =====
-- Who may use a resource: app/portainer/helpers/resourceControlHelper.js and the models in
-- app/portainer/models/resourceControl. Users and teams are their ids.
pub mod Shown
use ui_for_docker.Prelude.{
  ℕ, Bool, true, false, ◌&&◌, ◌||◌, not, Option, none, some, List, [], ◌∷◌, map, find, length, ltb,
  nat_eq, if◌then◌else◌,
}

pub data Ownership : Type 0 where
  public private restricted administrators : Ownership

-- What the API sends.
pub record ResourceControl : Type 0 where
  pub public : Bool
  pub user_accesses : List ℕ
  pub team_accesses : List ℕ

-- ResourceControlOwnershipParameters
pub record OwnershipParameters : Type 0 where
  pub administrators_only : Bool
  pub public : Bool
  pub users : List ℕ
  pub teams : List ℕ
  pub sub_resource_ids : List ℕ

-- AccessControlFormData
pub record FormData : Type 0 where
  pub access_control_enabled : Bool
  pub ownership : Ownership
  pub authorized_users : List ℕ
  pub authorized_teams : List ℕ

-- AccessControlPanelData
pub record PanelData : Type 0 where
  pub ownership : Ownership
  pub ownership_users : List ℕ
  pub ownership_teams : List ℕ

unfoldable pub determine_ownership : ResourceControl → Ownership
determine_ownership rc =
    if rc.public
    then public
    else if nat_eq (length rc.user_accesses) 1 && nat_eq (length rc.team_accesses) 0
    then private
    else if ltb 1 (length rc.user_accesses) || ltb 0 (length rc.team_accesses)
    then restricted
    else administrators

unfoldable pub parameters_for : Ownership → ℕ → List ℕ → List ℕ → List ℕ → OwnershipParameters
parameters_for public user_id users teams sub = record {
  administrators_only = false;
  public = true;
  users = [];
  teams = [];
  sub_resource_ids = sub;
}
parameters_for private user_id users teams sub = record {
  administrators_only = false;
  public = false;
  users = user_id ∷ [];
  teams = [];
  sub_resource_ids = sub;
}
parameters_for restricted user_id users teams sub = record {
  administrators_only = false;
  public = false;
  users = users;
  teams = teams;
  sub_resource_ids = sub;
}
parameters_for administrators user_id users teams sub = record {
  administrators_only = true;
  public = false;
  users = [];
  teams = [];
  sub_resource_ids = sub;
}

-- `RCViewModelToOwnershipParameters`; a resource without a control is the administrators'.
unfoldable pub view_model_to_ownership_parameters : ℕ → Option ResourceControl → OwnershipParameters
unfolding parameters_for determine_ownership
view_model_to_ownership_parameters user_id none = record {
  administrators_only = true;
  public = false;
  users = [];
  teams = [];
  sub_resource_ids = [];
}
view_model_to_ownership_parameters user_id (some rc) =
    parameters_for (determine_ownership rc) user_id rc.user_accesses rc.team_accesses []

-- `formValues.Ownership`, which is public where the access control is switched off.
unfoldable pub form_ownership : FormData → Ownership
form_ownership form = if form.access_control_enabled then form.ownership else public

-- `RCFormDataToOwnershipParameters`
unfoldable pub form_data_to_ownership_parameters : ℕ → FormData → List ℕ → OwnershipParameters
unfolding form_ownership parameters_for
form_data_to_ownership_parameters user_id form sub =
    parameters_for (form_ownership form) user_id form.authorized_users form.authorized_teams sub

unfoldable pub is_public : Ownership → Bool
is_public public = true
is_public private = false
is_public restricted = false
is_public administrators = false

unfoldable pub is_administrators : Ownership → Bool
is_administrators public = false
is_administrators private = false
is_administrators restricted = false
is_administrators administrators = true

-- `RCPanelDataToOwnershipParameters`
unfoldable pub panel_data_to_ownership_parameters : PanelData → OwnershipParameters
unfolding is_public is_administrators
panel_data_to_ownership_parameters panel =
    let nobody = is_public panel.ownership || is_administrators panel.ownership in
    record {
      administrators_only = is_administrators panel.ownership;
      public = is_public panel.ownership;
      users = (if nobody then [] else panel.ownership_users);
      teams = (if nobody then [] else panel.ownership_teams);
      sub_resource_ids = [];
    }

-- ResourceControlCreatePayload and ResourceControlUpdatePayload, as the API then sends them back
unfoldable pub control_of : OwnershipParameters → ResourceControl
control_of p = record { public = p.public; user_accesses = p.users; team_accesses = p.teams }

pub record User : Type 0 where
  pub id : ℕ
  pub name : ℕ

unfoldable pub with_found : Option User → List User → List User
with_found none users = users
with_found (some user) users = user ∷ users

-- `retrieveAuthorizedUsers`, and `retrieveAuthorizedTeams` for teams
unfoldable pub retrieve_authorized : List ℕ → List User → List User
unfolding with_found
retrieve_authorized [] users = []
retrieve_authorized (id ∷ accesses) users =
    with_found (find (λ user. nat_eq user.id id) users) (retrieve_authorized accesses users)

pub record Membership : Type 0 where
  pub team_id : ℕ
  pub role : ℕ

unfoldable pub is_some_access : Option ℕ → Bool
is_some_access none = false
is_some_access (some id) = true

-- The loop ends at the first membership that leads a team with access.
unfoldable pub is_leader_of_any_restricted_teams : List Membership → ResourceControl → Bool
unfolding is_some_access
is_leader_of_any_restricted_teams [] rc = false
is_leader_of_any_restricted_teams (m ∷ memberships) rc =
    let rest = is_leader_of_any_restricted_teams memberships rc in
    if is_some_access (find (λ id. nat_eq id m.team_id) rc.team_accesses) && nat_eq m.role 1
    then true
    else rest
