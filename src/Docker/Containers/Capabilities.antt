-- ===== src/Docker/Containers/Capabilities.antt =====
-- The Linux capabilities of a container (app/docker/models/containerCapabilities.js): what
-- `loadFromContainerCapabilities` puts into the form, and what `prepareCapabilities` sends for it.
-- The descriptions are left out.
pub mod Duplicated
use ui_for_docker.Prelude.{
  ℕ, Bool, true, false, not, ◌&&◌, ◌||◌, Option, none, some, List, [], ◌∷◌, ◌++◌, map, keep, any,
  Text, codes, String, if◌then◌else◌, ◌==◌, eq_list, eq_nat, ltb, nat_eq,
}

pub record Capability : Type 0 where
  pub capability : Text
  pub allowed : Bool

-- `a < b` for texts
unfoldable pub text_less : Text → Text → Bool
text_less s [] = false
text_less [] (d ∷ t) = true
text_less (c ∷ s) (d ∷ t) = ltb c d || (nat_eq c d && text_less s t)

-- The sorting of capabilities, by insertion
unfoldable pub insert_capability : Capability → List Capability → List Capability
unfolding text_less
insert_capability cap [] = cap ∷ []
insert_capability cap (other ∷ caps) =
    let rest = insert_capability cap caps in
    if text_less cap.capability other.capability then cap ∷ other ∷ caps else other ∷ rest

unfoldable pub sort_capabilities : List Capability → List Capability
unfolding insert_capability
sort_capabilities [] = []
sort_capabilities (cap ∷ caps) = insert_capability cap (sort_capabilities caps)

unfoldable pub capability_of : Bool → Text → Capability
capability_of allowed capability = record { capability = capability; allowed = allowed }

abbrev pub allowed_by_default : List String
allowed_by_default =
    "SETPCAP" ∷ "MKNOD" ∷ "AUDIT_WRITE" ∷ "CHOWN" ∷ "NET_RAW" ∷ "DAC_OVERRIDE" ∷ "FOWNER" ∷ "FSETID"
    ∷ "KILL" ∷ "SETGID" ∷ "SETUID" ∷ "NET_BIND_SERVICE" ∷ "SYS_CHROOT" ∷ "SETFCAP" ∷ []

abbrev pub denied_by_default : List String
denied_by_default =
    "SYS_MODULE" ∷ "SYS_RAWIO" ∷ "SYS_PACCT" ∷ "SYS_ADMIN" ∷ "SYS_NICE" ∷ "SYS_RESOURCE"
    ∷ "SYS_TIME" ∷ "SYS_TTY_CONFIG" ∷ "AUDIT_CONTROL" ∷ "MAC_ADMIN" ∷ "MAC_OVERRIDE" ∷ "NET_ADMIN"
    ∷ "SYSLOG" ∷ "DAC_READ_SEARCH" ∷ "LINUX_IMMUTABLE" ∷ "NET_BROADCAST" ∷ "IPC_LOCK" ∷ "IPC_OWNER"
    ∷ "SYS_PTRACE" ∷ "SYS_BOOT" ∷ "LEASE" ∷ "WAKE_ALARM" ∷ "BLOCK_SUSPEND" ∷ []

unfoldable pub container_capabilities : List Capability
unfolding sort_capabilities capability_of
container_capabilities = sort_capabilities (
    map (capability_of true) (map codes allowed_by_default)
    ++ map (capability_of false) (map codes denied_by_default))

unfoldable pub is_named : Text → List Capability → Bool
unfolding any
is_named name caps = any (λ cap. cap.capability == name) caps

-- The loop over the known capabilities
unfoldable pub push_missing : List Capability → List Capability → List Capability
unfolding is_named
push_missing caps [] = caps
push_missing caps (cap ∷ rest) =
    push_missing (if is_named cap.capability caps then caps else caps ++ cap ∷ []) rest

abbrev pub names_of : Option (List Text) → List Text
names_of none = []
names_of (some names) = names

unfoldable pub load_from_container_capabilities :
    Option (List Text) → Option (List Text) → List Capability
unfolding sort_capabilities push_missing container_capabilities capability_of
load_from_container_capabilities cap_add cap_drop = sort_capabilities (
    push_missing
      (map (capability_of true) (names_of cap_add) ++ map (capability_of false) (names_of cap_drop))
      container_capabilities)

unfoldable pub capability_name : Capability → Text
capability_name cap = cap.capability

-- `CapAdd` and `CapDrop`
unfoldable pub prepare_capabilities : List Capability → List Text × List Text
unfolding keep capability_name
prepare_capabilities caps = (
  map capability_name (keep (λ cap. cap.allowed) caps),
  map capability_name (keep (λ cap. not cap.allowed) caps),
)
