-- ===== src/Kubernetes/Pods.antt =====
-- Pods and their containers (app/kubernetes/pod/converter.js). Left out of the records are the
-- affinity of a pod and what is copied from the API as it is: the node selector, and the limits,
-- requests, mounts and environment of a container.
pub mod Statuses
use ui_for_docker.Prelude.{
  ℕ, ◌+◌, String, Bool, true, false, not, Option, none, some, List, [], ◌∷◌, ◌++◌, map, keep, find,
  length, nat_eq, if◌then◌else◌, ◌==◌, eq_string,
}
use ui_for_docker.Prelude.Dict.{Dict}

-- `state` of a container: whether it has `running`, and whether it has `waiting`
pub record State : Type 0 where
  pub running : Bool
  pub waiting : Bool

pub record ContainerStatus : Type 0 where
  pub name : String
  pub state : State
  pub restart_count : ℕ

pub data Status : Type 0 where
  waiting running terminated : Status

pub data ContainerType : Type 0 where
  app init : ContainerType

-- A container of the `spec`
pub record ApiContainer : Type 0 where
  pub name : String
  pub image : String
  pub image_pull_policy : Option String

pub record Toleration : Type 0 where
  pub key : String
  pub operator : String
  pub value : String
  pub toleration_seconds : Option ℕ
  pub effect : String

pub record ApiPod : Type 0 where
  pub uid : String
  pub name : String
  pub namespace : String
  pub node_name : String
  pub start_time : String
  pub containers : List ApiContainer
  pub init_containers : List ApiContainer
  pub container_statuses : List ContainerStatus
  pub labels : Dict String String
  pub tolerations : List Toleration

-- KubernetesPodContainer
pub record Container : Type 0 where
  pub type : ContainerType
  pub pod_name : String
  pub name : String
  pub image : String
  pub image_pull_policy : Option String
  pub node : String
  pub creation_date : String
  pub status : Status

-- KubernetesPod
pub record Pod : Type 0 where
  pub id : String
  pub name : String
  pub namespace : String
  pub images : List String
  pub status : Status
  pub restarts : ℕ
  pub node : String
  pub creation_date : String
  pub containers : List Container
  pub labels : Dict String String
  pub tolerations : List Toleration

unfoldable pub is_running : ContainerStatus → Bool
is_running s = s.state.running

unfoldable pub is_waiting : ContainerStatus → Bool
is_waiting s = s.state.waiting

unfoldable pub compute_status : List ContainerStatus → Status
unfolding is_running is_waiting
compute_status statuses =
    if not (nat_eq (length (keep is_waiting statuses)) 0)
    then waiting
    else if nat_eq (length (keep is_running statuses)) 0
    then terminated
    else running

unfoldable pub status_of_state : State → Status
status_of_state state =
    if state.waiting then waiting else if not state.running then terminated else running

unfoldable pub status_of_found : Option ContainerStatus → Status
unfolding status_of_state
status_of_found none = terminated
status_of_found (some s) = status_of_state s.state

unfoldable pub compute_container_status : List ContainerStatus → String → Status
unfolding status_of_found
compute_container_status statuses name = status_of_found (find (λ s. s.name == name) statuses)

unfoldable pub app_container : ApiPod → ApiContainer → Container
unfolding compute_container_status
app_container pod item = record {
  type = app;
  pod_name = pod.name;
  name = item.name;
  image = item.image;
  image_pull_policy = item.image_pull_policy;
  node = pod.node_name;
  creation_date = pod.start_time;
  status = compute_container_status pod.container_statuses item.name;
}

-- The pull policy of an init container is not copied.
unfoldable pub init_container : ApiPod → ApiContainer → Container
unfolding compute_container_status
init_container pod item = record {
  type = init;
  pod_name = pod.name;
  name = item.name;
  image = item.image;
  image_pull_policy = none;
  node = pod.node_name;
  creation_date = pod.start_time;
  status = compute_container_status pod.container_statuses item.name;
}

unfoldable pub compute_containers : ApiPod → List Container
unfolding app_container init_container
compute_containers pod =
    map (app_container pod) pod.containers ++ map (init_container pod) pod.init_containers

unfoldable pub sum_restarts : List ContainerStatus → ℕ
sum_restarts [] = 0
sum_restarts (s ∷ statuses) = s.restart_count + sum_restarts statuses

unfoldable pub api_to_model : ApiPod → Pod
unfolding compute_status compute_containers sum_restarts
api_to_model pod = record {
  id = pod.uid;
  name = pod.name;
  namespace = pod.namespace;
  images = map (λ c. c.image) pod.containers;
  status = compute_status pod.container_statuses;
  restarts = sum_restarts pod.container_statuses;
  node = pod.node_name;
  creation_date = pod.start_time;
  containers = compute_containers pod;
  labels = pod.labels;
  tolerations = pod.tolerations;
}
