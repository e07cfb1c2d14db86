-- ===== src/Docker/Containers/Options.antt =====
-- The options of a container are those that were loaded into the form.
use ui_for_docker.Prelude.{
  ◌≡◌, ◌≢◌, refl, sym, ◌∙◌, Bool, true, false, ◌&&◌, some, List, [], ◌∷◌, ◌++◌, append_assoc,
  append-nil, arith, Text, codes, All, eq_list, eq_nat, ==_iff, keep, eq_string,
}
use ui_for_docker.Prelude.Dict.{
  Dict, insert-absent, HasDistinctKeys, HasDistinctKeys-absent, HasDistinctKeys-drop,
}
use ui_for_docker.Docker.Containers.{
  is_filled, NameValue, Device, assign_pairs, is_named, is_complete, prepare_labels,
  prepare_sysctls, filled_config, prepare_log_driver, name_value, load_pairs, prepare_console,
  load_from_container_console, prepare_devices, is_empty_path, load_from_container_devices,
}

-- The console that is shown for a container is the one that it is given.
pub prepare_console-load :
    (open_stdin tty : Bool)
    → prepare_console (load_from_container_console open_stdin tty) ≡ (open_stdin, tty)
unfolding prepare_console load_from_container_console
prepare_console-load true true = refl
prepare_console-load true false = refl
prepare_console-load false true = refl
prepare_console-load false false = refl

assign_pairs-load :
    (keeps : NameValue → Bool) (rest pairs : Dict Text Text)
    → HasDistinctKeys (pairs ++ rest)
    → assign_pairs keeps (load_pairs rest) pairs
      ≡ pairs ++ keep (λ entry. keeps (name_value entry)) rest
unfolding assign_pairs load_pairs name_value keep
assign_pairs-load keeps [] pairs h = sym (append-nil pairs)
assign_pairs-load keeps ((k, v) ∷ rest) pairs h = ground (
  arith,
  insert-absent k v pairs (HasDistinctKeys-absent pairs k v rest h),
  assign_pairs-load keeps rest (pairs ++ (k, v) ∷ []) (rw append_assoc h),
  assign_pairs-load keeps rest pairs (HasDistinctKeys-drop pairs k v rest h),
  append_assoc pairs ((k, v) ∷ []) (keep (λ entry. keeps (name_value entry)) rest),
)

keep-All :
    (p : Text × Text → Bool) (d : Dict Text Text) → All (λ entry. p entry ≡ true) d → keep p d ≡ d
unfolding keep
keep-All p [] h = refl
keep-All p (entry ∷ d) (q, h) = ground (arith, keep-All p d h)

pub prepare_labels-load :
    (labels : Dict Text Text)
    → HasDistinctKeys labels
    → All (λ entry. is_filled entry.0 ≡ true) labels
    → prepare_labels (load_pairs labels) ≡ labels
unfolding prepare_labels is_named keep name_value
prepare_labels-load labels h f = assign_pairs-load is_named labels [] h ∙ keep-All _ labels f

-- Kernel parameters without a value are lost.
pub prepare_sysctls-load :
    (sysctls : Dict Text Text)
    → HasDistinctKeys sysctls
    → prepare_sysctls (load_pairs sysctls)
      ≡ keep (λ entry. is_filled entry.0 && is_filled entry.1) sysctls
unfolding prepare_sysctls is_complete name_value
prepare_sysctls-load sysctls h = assign_pairs-load is_complete sysctls [] h

-- A driver with its options; `none` has no options.
pub prepare_log_driver-load :
    (name : Text) (opts : Dict Text Text)
    → is_filled name ≡ true
    → name ≢ codes "none"
    → HasDistinctKeys opts
    → All (λ entry. is_filled entry.0 ≡ true) opts
    → prepare_log_driver name (load_pairs opts)
      ≡ some (record { kind = name; config = filled_config opts })
unfolding prepare_log_driver is_named name_value
prepare_log_driver-load name opts n k h f =
    ground
      (arith, assign_pairs-load is_named opts [] h ∙ keep-All _ opts f, ==_iff name (codes "none"))

-- What is sent for devices whose paths are not empty, where `rwm` are their permissions.
pub prepare_devices-load :
    (devices : List (Device × Text))
    → All
        (λ entry.
          (is_filled entry.0.path_on_host ≡ true)
          × (is_empty_path entry.0.path_in_container ≡ false)
          × (entry.1 ≡ codes "rwm"))
        devices
    → prepare_devices (load_from_container_devices devices) ≡ devices
unfolding prepare_devices load_from_container_devices
prepare_devices-load [] h = refl
prepare_devices-load ((device, permissions) ∷ devices) ((p, q, r), h) =
    ground (arith, prepare_devices-load devices h)
