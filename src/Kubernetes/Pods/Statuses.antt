-- ===== src/Kubernetes/Pods/Statuses.antt =====
-- The status of a pod against those of its containers.
use ui_for_docker.Prelude.{
  String, ◌≡◌, ◌≢◌, refl, Bool, true, not, Option, none, some, List, [], ◌∷◌, map, keep, find, any,
  All, All-append, length, nat_eq, arith, ◌==◌, eq_string,
}
use ui_for_docker.Kubernetes.Pods.{
  State, ContainerStatus, Status, waiting, running, terminated, ApiContainer, ApiPod, Container,
  is_running, is_waiting, compute_status, status_of_state, status_of_found,
  compute_container_status, app_container, init_container, compute_containers, api_to_model,
}

keep-length :
    (p : ContainerStatus → Bool) (statuses : List ContainerStatus)
    → nat_eq (length (keep p statuses)) 0 ≡ not (any p statuses)
unfolding keep any
keep-length p [] = refl
keep-length p (s ∷ statuses) = ground (arith, keep-length p statuses)

find-any :
    (p q : ContainerStatus → Bool) (statuses : List ContainerStatus) (s : ContainerStatus)
    → find p statuses ≡ some s
    → q s ≡ true
    → any q statuses ≡ true
unfolding find any
find-any p q [] s e h = cc
find-any p q (t ∷ statuses) s e h = ground (arith, find-any p q statuses s)

waiting_state : (state : State) → status_of_state state ≡ waiting → state.waiting ≡ true
unfolding status_of_state
waiting_state state h = ground arith

running_state : (state : State) → status_of_state state ≡ running → state.running ≡ true
unfolding status_of_state
running_state state h = ground arith

any_waiting :
    (statuses : List ContainerStatus)
    → any is_waiting statuses ≡ true
    → compute_status statuses ≡ waiting
unfolding compute_status
any_waiting statuses h = ground (arith, keep-length is_waiting statuses)

any_running :
    (statuses : List ContainerStatus)
    → any is_running statuses ≡ true
    → compute_status statuses ≢ terminated
unfolding compute_status
any_running statuses h = ground (arith, keep-length is_running statuses)

found_waiting :
    (o : Option ContainerStatus)
    → status_of_found o ≡ waiting
    → (s : ContainerStatus) × (o ≡ some s) × (is_waiting s ≡ true)
unfolding status_of_found is_waiting
found_waiting none h = cc
found_waiting (some s) h = (s, refl, waiting_state s.state h)

found_running :
    (o : Option ContainerStatus)
    → status_of_found o ≡ running
    → (s : ContainerStatus) × (o ≡ some s) × (is_running s ≡ true)
unfolding status_of_found is_running
found_running none h = cc
found_running (some s) h = (s, refl, running_state s.state h)

-- A container that is shown as waiting is reported as waiting, so its pod is.
container-waiting :
    (statuses : List ContainerStatus) (name : String)
    → compute_container_status statuses name ≡ waiting
    → compute_status statuses ≡ waiting
unfolding compute_container_status
container-waiting statuses name h =
    let (s, found, w) = found_waiting (find (λ s. s.name == name) statuses) h in
    any_waiting statuses (find-any (λ s. s.name == name) is_waiting statuses s found w)

container-running :
    (statuses : List ContainerStatus) (name : String)
    → compute_container_status statuses name ≡ running
    → compute_status statuses ≢ terminated
unfolding compute_container_status
container-running statuses name h =
    let (s, found, r) = found_running (find (λ s. s.name == name) statuses) h in
    any_running statuses (find-any (λ s. s.name == name) is_running statuses s found r)

-- What the status of a container says of its pod's.
abbrev pub Agrees : Status → Container → Type 0
Agrees status container =
    (container.status ≡ waiting → status ≡ waiting)
    × (container.status ≡ running → status ≢ terminated)

map-Agrees :
    (f : ApiContainer → Container) (status : Status) (items : List ApiContainer)
    → ((item : ApiContainer) → Agrees status (f item))
    → All (Agrees status) (map f items)
map-Agrees f status [] h = tt
map-Agrees f status (item ∷ items) h = (h item, map-Agrees f status items h)

-- A pod with a container that waits is waiting, and a pod with a container that runs is not
-- terminated, for the containers and the init containers of the pod.
pub api_to_model-Agrees :
    (pod : ApiPod) → All (Agrees (api_to_model pod).status) (api_to_model pod).containers
unfolding api_to_model compute_containers app_container init_container
api_to_model-Agrees pod =
    All-append (Agrees (compute_status pod.container_statuses))
      (map (app_container pod) pod.containers) (map (init_container pod) pod.init_containers)
      (map-Agrees (app_container pod) _ pod.containers (λ item. (
        container-waiting pod.container_statuses item.name,
        container-running pod.container_statuses item.name,
      )))
      (map-Agrees (init_container pod) _ pod.init_containers (λ item. (
        container-waiting pod.container_statuses item.name,
        container-running pod.container_statuses item.name,
      )))
