-- ===== src/Docker/Containers/Mounts.antt =====
-- The binds of a container that is duplicated are those of its configuration.
use ui_for_docker.Prelude.{
  ◌≡◌, refl, Bool, true, false, not, List, [], ◌∷◌, ◌++◌, Text, codes, if◌then◌else◌,
}
use ui_for_docker.Docker.Containers.{
  Mount, PathSet, first_filled, bind_of, prepare_volumes_from, prepare_volumes, volume_of,
  load_from_container_volumes, mounted_from, mounted,
}

bind_of-mount :
    (name path : Text) (rw : Bool)
    → bind_of name path (not rw)
      ≡ (if rw then name ++ b':' ∷ path else (name ++ b':' ∷ path) ++ codes ":ro")
unfolding bind_of
bind_of-mount name path true = refl
bind_of-mount name path false = refl

prepare_volumes_from-mounts :
    (mounts : List Mount) (acc : List Text × PathSet)
    → prepare_volumes_from (load_from_container_volumes mounts) acc ≡ mounted_from mounts acc
unfolding prepare_volumes_from load_from_container_volumes volume_of mounted_from
prepare_volumes_from-mounts [] acc = refl
prepare_volumes_from-mounts (mount ∷ mounts) acc =
    rw (← bind_of-mount (first_filled mount.name mount.source) mount.destination mount.rw)
      (prepare_volumes_from-mounts mounts _)

-- The binds and the paths that are sent for the volumes of a form that was filled from the mounts of
-- a container are those that its configuration is given.
pub prepare_volumes-load :
    (mounts : List Mount) → prepare_volumes (load_from_container_volumes mounts) ≡ mounted mounts
unfolding prepare_volumes mounted
prepare_volumes-load mounts = prepare_volumes_from-mounts mounts ([], [])
