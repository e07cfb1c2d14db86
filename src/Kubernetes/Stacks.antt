-- ===== src/Kubernetes/Stacks.antt =====
-- `stacksFromApplications` of app/kubernetes/helpers/stackHelper.js.
pub mod Laws
use ui_for_docker.Prelude.{
  ℕ, String, ◌≡◌, Bool, true, false, ◌&&◌, ◌||◌, Option, none, some, List, [], ◌∷◌, ◌++◌,
  if◌then◌else◌, ◌==◌, eq_string,
}

-- What the function reads of an application, and a number that tells applications apart.
pub record Application : Type 0 where
  pub stack_name : String
  pub resource_pool : String
  pub id : ℕ

pub record Stack : Type 0 where
  pub name : String
  pub resource_pool : String
  pub applications : List Application

unfoldable pub is_stack_of : Application → Stack → Bool
is_stack_of app stack = stack.name == app.stack_name && stack.resource_pool == app.resource_pool

-- `_.find(acc, …)`, a new stack at the end if there is none, and `stack.Applications.push(app)`:
-- the stack that is found is changed where it stands.
unfoldable pub push_application : Application → List Stack → List Stack
push_application app [] =
    record { name = app.stack_name; resource_pool = app.resource_pool; applications = app ∷ [] }
    ∷ []
push_application app (stack ∷ stacks) =
    let rest = push_application app stacks in
    if is_stack_of app stack
    then record stack { applications = stack.applications ++ app ∷ [] } ∷ stacks
    else stack ∷ rest

stacks_from : List Application → List Stack → List Stack
stacks_from [] stacks = stacks
stacks_from (app ∷ apps) stacks =
    stacks_from apps (if app.stack_name == "-" then stacks else push_application app stacks)

unfoldable pub stacks_from_applications : List Application → List Stack
unfolding stacks_from
stacks_from_applications apps = stacks_from apps []
