-- ===== src/Portainer/ResourceControl/Shown.antt =====
-- The ownership that a form or a panel chooses against the one that is shown of the result.
use ui_for_docker.Prelude.{ℕ, ◌<◌, ◌≡◌, ◌⊎◌, refl, some, List, [], length, arith, eq_nat}
use ui_for_docker.Portainer.ResourceControl.{
  Ownership, public, private, restricted, administrators, ResourceControl, FormData,
  determine_ownership, parameters_for, view_model_to_ownership_parameters, form_ownership,
  form_data_to_ownership_parameters, control_of,
}

-- A restricted resource is shared: by two users or by a team.
unfoldable pub IsShared : Ownership → List ℕ → List ℕ → Type 0
IsShared ownership users teams = ownership ≡ restricted → (1 < length users) ⊎ (0 < length teams)

ownership-parameters_for :
    (ownership : Ownership) (user_id : ℕ) (users teams sub : List ℕ)
    → IsShared ownership users teams
    → determine_ownership (control_of (parameters_for ownership user_id users teams sub))
      ≡ ownership
unfolding determine_ownership control_of parameters_for IsShared
ownership-parameters_for public user_id users teams sub h = refl
ownership-parameters_for private user_id users teams sub h = refl
ownership-parameters_for restricted user_id users teams sub h = ground (arith, h refl)
ownership-parameters_for administrators user_id users teams sub h = refl

-- The ownership that a form chooses is the one that is shown of the resource afterwards, if a
-- restricted one names two users or a team.
pub form_data-determine_ownership :
    (user_id : ℕ) (form : FormData) (sub : List ℕ)
    → IsShared (form_ownership form) form.authorized_users form.authorized_teams
    → determine_ownership (control_of (form_data_to_ownership_parameters user_id form sub))
      ≡ form_ownership form
unfolding form_data_to_ownership_parameters
form_data-determine_ownership user_id form sub h =
    ownership-parameters_for (form_ownership form) user_id form.authorized_users
      form.authorized_teams sub h

determine_ownership-IsShared :
    (rc : ResourceControl) → IsShared (determine_ownership rc) rc.user_accesses rc.team_accesses
unfolding determine_ownership IsShared
determine_ownership-IsShared rc = ground arith

-- A resource that is made with the control of another is shown with the same ownership, whoever
-- makes it.
pub view_model-determine_ownership :
    (user_id : ℕ) (rc : ResourceControl)
    → determine_ownership (control_of (view_model_to_ownership_parameters user_id (some rc)))
      ≡ determine_ownership rc
unfolding view_model_to_ownership_parameters
view_model-determine_ownership user_id rc =
    ownership-parameters_for (determine_ownership rc) user_id rc.user_accesses rc.team_accesses []
      (determine_ownership-IsShared rc)
