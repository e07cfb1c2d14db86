-- ===== src/Kubernetes/Applications/Folders.antt =====
-- The persisted folders of an application and the claims of its volumes
-- (app/kubernetes/helpers/application/index.js, app/kubernetes/converters/persistentVolumeClaim.js).
-- The UUID that a claim is named by is an argument, one for each folder.
pub mod Sizes
use ui_for_docker.Prelude.{
  ℕ, suc, ◌-◌, Bool, true, false, not, ◌&&◌, Option, none, some, List, [], ◌∷◌, ◌++◌, map, keep,
  find, any, length, drop, Text, codes, starts_with, includes, if◌then◌else◌, ◌==◌, eq_list, eq_nat,
  eq_option,
}
use ui_for_docker.Prelude.Dict.{Dict, lookup}
use ui_for_docker.Prelude.Decimal.{Number, parse_int, show_number}

-- KubernetesStorageClass
pub record StorageClass : Type 0 where
  pub name : Text
  pub access_modes : List Text

-- KubernetesPersistentVolumeClaim
pub record PersistentVolumeClaim : Type 0 where
  pub id : Text
  pub name : Text
  pub previous_name : Text
  pub namespace : Text
  pub storage : Text
  pub storage_class : Option StorageClass
  pub creation_date : Text
  pub application_owner : Text
  pub application_name : Text
  pub mount_path : Text

-- KubernetesApplicationPersistedFolder
pub record PersistedFolder : Type 0 where
  pub mount_path : Text
  pub persistent_volume_claim_name : Text

-- KubernetesApplicationPersistedFolderFormValue; the size of a new one is what was typed.
pub record FolderFormValue : Type 0 where
  pub persistent_volume_claim_name : Text
  pub needs_deletion : Bool
  pub container_path : Text
  pub size : Number
  pub size_unit : Text
  pub storage_class : Option StorageClass
  pub existing_volume : Option PersistentVolumeClaim

-- What the form of an application has for its claims.
pub record FormValues : Type 0 where
  pub name : Text
  pub namespace : Text
  pub application_owner : Text
  pub persisted_folders : List FolderFormValue

-- A claim of the API
pub record ApiClaim : Type 0 where
  pub uid : Text
  pub name : Text
  pub namespace : Text
  pub creation_timestamp : Text
  pub storage : Text
  pub storage_class_name : Text
  pub labels : Option (Dict Text Text)

abbrev pub owner_label : Text
owner_label = codes "io.portainer.kubernetes.application.owner"

abbrev pub name_label : Text
name_label = codes "io.portainer.kubernetes.application.name"

-- A label that is missing is undefined, here the empty text.
unfoldable pub label_at : Text → Option (Dict Text Text) → Text
unfolding lookup
label_at key none = []
label_at key (some labels) = elim (lookup key labels) [ none ↦ [] | some value ↦ value ]

unfoldable pub api_to_persistent_volume_claim : ApiClaim → List StorageClass → PersistentVolumeClaim
unfolding label_at find
api_to_persistent_volume_claim claim storage_classes = record {
  id = claim.uid;
  name = claim.name;
  previous_name = [];
  namespace = claim.namespace;
  storage = claim.storage ++ codes "B";
  storage_class = find (λ item. item.name == claim.storage_class_name) storage_classes;
  creation_date = claim.creation_timestamp;
  application_owner = label_at owner_label claim.labels;
  application_name = label_at name_label claim.labels;
  mount_path = [];
}

-- `text.slice(-2)`
unfoldable pub last_two : Text → Text
last_two s = drop (length s - 2) s

-- The form value of a folder; none where no claim is found, whose property the code reads.
unfoldable pub folder_form_value :
    PersistedFolder → Option PersistentVolumeClaim → Option FolderFormValue
unfolding parse_int last_two
folder_form_value folder none = none
folder_form_value folder (some pvc) = some (record {
  persistent_volume_claim_name = folder.persistent_volume_claim_name;
  needs_deletion = false;
  container_path = folder.mount_path;
  size = parse_int pvc.storage;
  size_unit = last_two pvc.storage;
  storage_class = pvc.storage_class;
  existing_volume = none;
})

unfoldable pub claim_of :
    PersistedFolder → List PersistentVolumeClaim → Option PersistentVolumeClaim
unfolding find starts_with
claim_of folder claims =
    find (λ item. starts_with item.name folder.persistent_volume_claim_name) claims

unfoldable pub cons_folder :
    Option FolderFormValue → Option (List FolderFormValue) → Option (List FolderFormValue)
cons_folder none rest = none
cons_folder (some folder) none = none
cons_folder (some folder) (some rest) = some (folder ∷ rest)

unfoldable pub generate_persisted_folders_form_values_from_persisted_folders :
    List PersistedFolder → List PersistentVolumeClaim → Option (List FolderFormValue)
unfolding folder_form_value claim_of cons_folder
generate_persisted_folders_form_values_from_persisted_folders [] claims = some []
generate_persisted_folders_form_values_from_persisted_folders (folder ∷ folders) claims =
    cons_folder (folder_form_value folder (claim_of folder claims))
      (generate_persisted_folders_form_values_from_persisted_folders folders claims)

-- `text.charAt(0)`
unfoldable pub char_at_0 : Text → Text
char_at_0 [] = []
char_at_0 (c ∷ s) = c ∷ []

unfoldable pub claim_name : Text → Text → Text → Text
claim_name form_name uuid [] = form_name ++ b'-' ∷ uuid
claim_name form_name uuid (c ∷ s) = c ∷ s

-- The claim of a folder, where `uuid` is the name that the constructor gives.
unfoldable pub volume_claim : FormValues → Text → FolderFormValue → PersistentVolumeClaim
unfolding char_at_0 claim_name show_number
volume_claim form uuid item = elim item.existing_volume [
  | some existant_pvc ↦ record {
    id = existant_pvc.id;
    name = existant_pvc.name;
    previous_name = item.persistent_volume_claim_name;
    namespace = form.namespace;
    storage = char_at_0 existant_pvc.storage;
    storage_class = existant_pvc.storage_class;
    creation_date = existant_pvc.creation_date;
    application_owner = form.application_owner;
    application_name = form.name;
    mount_path = item.container_path;
  }
  | none ↦ record {
    id = [];
    name = claim_name form.name uuid item.persistent_volume_claim_name;
    previous_name = item.persistent_volume_claim_name;
    namespace = form.namespace;
    storage = show_number item.size ++ char_at_0 item.size_unit;
    storage_class = item.storage_class;
    creation_date = [];
    application_owner = form.application_owner;
    application_name = form.name;
    mount_path = item.container_path;
  }
]

unfoldable pub volume_claims :
    FormValues → (ℕ → Text) → ℕ → List FolderFormValue → List PersistentVolumeClaim
unfolding volume_claim
volume_claims form uuids made [] = []
volume_claims form uuids made (item ∷ items) =
    volume_claim form (uuids made) item ∷ volume_claims form uuids (suc made) items

unfoldable pub application_form_values_to_volume_claims :
    (ℕ → Text) → FormValues → List PersistentVolumeClaim
unfolding volume_claims keep
application_form_values_to_volume_claims uuids form =
    volume_claims form uuids 0 (keep (λ item. not item.needs_deletion) form.persisted_folders)

-- KubernetesPersistentVolumClaimCreatePayload
pub record ClaimPayload : Type 0 where
  pub name : Text
  pub namespace : Text
  pub storage : Text
  pub storage_class_name : Text
  pub app : Text
  pub owner : Text
  pub application : Text

unfoldable pub class_name : Option StorageClass → Text
class_name none = []
class_name (some storage_class) = storage_class.name

unfoldable pub create_payload : PersistentVolumeClaim → ClaimPayload
unfolding class_name
create_payload pvc = record {
  name = pvc.name;
  namespace = pvc.namespace;
  storage = pvc.storage;
  storage_class_name = class_name pvc.storage_class;
  app = pvc.application_name;
  owner = pvc.application_owner;
  application = pvc.application_name;
}

-- A mount, or a volume with the name of its claim.
unfoldable pub claim_mount : PersistentVolumeClaim → Text × Text
claim_mount item = (item.name, item.mount_path)

unfoldable pub claim_volume : PersistentVolumeClaim → Text × Text
claim_volume item = (item.name, item.name)

-- The mounts, with their paths, and the volumes, with their claims, which replace those of the
-- application.
unfoldable pub generate_volumes_from_persistent_volum_claims :
    List PersistentVolumeClaim → List (Text × Text) × List (Text × Text)
unfolding claim_mount claim_volume
generate_volumes_from_persistent_volum_claims claims =
    (map claim_mount claims, map claim_volume claims)
