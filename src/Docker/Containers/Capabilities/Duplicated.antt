-- ===== src/Docker/Containers/Capabilities/Duplicated.antt =====
-- The capabilities that a duplicated container is given.
use mathlib.Core.Path.{ap₂}
use ui_for_docker.Prelude.{
  ◌≡◌, refl, ap, ◌∙◌, Bool, true, false, not, ◌&&◌, ◌||◌, Option, List, [], ◌∷◌, ◌++◌, map, keep,
  any, Text, ◌==◌, ==_iff, eq_list, eq_nat, arith, includes, list_eq, codes,
}
use ui_for_docker.Docker.Containers.Capabilities.{
  Capability, insert_capability, sort_capabilities, capability_of, container_capabilities, is_named,
  push_missing, names_of, load_from_container_capabilities, capability_name, prepare_capabilities,
  text_less, allowed_by_default, denied_by_default,
}

abbrev is_set : Bool → Bool → Bool
is_set true allowed = allowed
is_set false allowed = not allowed

-- Whether a capability stands among others as one that is allowed, or as one that is not.
unfoldable pub holds_as : Bool → Text → List Capability → Bool
holds_as allowed name [] = false
holds_as allowed name (cap ∷ caps) =
    (cap.capability == name && is_set allowed cap.allowed) || holds_as allowed name caps

holds_as-append :
    (b : Bool) (name : Text) (caps more : List Capability)
    → holds_as b name (caps ++ more) ≡ (holds_as b name caps || holds_as b name more)
unfolding holds_as
holds_as-append b name [] more = refl
holds_as-append b name (cap ∷ caps) more = ground (arith, holds_as-append b name caps more)

holds_as-insert :
    (b : Bool) (name : Text) (cap : Capability) (caps : List Capability)
    → holds_as b name (insert_capability cap caps) ≡ holds_as b name (cap ∷ caps)
unfolding holds_as insert_capability
holds_as-insert b name cap [] = refl
holds_as-insert b name cap (other ∷ caps) = ground (arith, holds_as-insert b name cap caps)

holds_as-sort :
    (b : Bool) (name : Text) (caps : List Capability)
    → holds_as b name (sort_capabilities caps) ≡ holds_as b name caps
unfolding holds_as sort_capabilities
holds_as-sort b name [] = refl
holds_as-sort b name (cap ∷ caps) =
    holds_as-insert b name cap (sort_capabilities caps)
    ∙ ap (λ rest. (cap.capability == name && is_set b cap.allowed) || rest)
        (holds_as-sort b name caps)

is_named-append :
    (name : Text) (caps more : List Capability)
    → is_named name (caps ++ more) ≡ (is_named name caps || is_named name more)
unfolding is_named any
is_named-append name [] more = refl
is_named-append name (cap ∷ caps) more = ground (arith, is_named-append name caps more)

unnamed-holds_as :
    (b : Bool) (name : Text) (caps : List Capability)
    → is_named name caps ≡ false
    → holds_as b name caps ≡ false
unfolding is_named any holds_as
unnamed-holds_as b name [] h = refl
unnamed-holds_as b name (cap ∷ caps) h = ground (arith, unnamed-holds_as b name caps)

-- No two capabilities have one name.
abbrev HasDistinctNames : List Capability → Type 0
HasDistinctNames [] = Unit {0}
HasDistinctNames (cap ∷ caps) = (is_named cap.capability caps ≡ false) × HasDistinctNames caps

holds_as-push_missing :
    (b : Bool) (name : Text) (caps known : List Capability)
    → HasDistinctNames known
    → holds_as b name (push_missing caps known)
      ≡ (holds_as b name caps || (not (is_named name caps) && holds_as b name known))
unfolding holds_as push_missing is_named any
holds_as-push_missing b name caps [] h = ground arith
holds_as-push_missing b name caps (cap ∷ known) (p, h) = ground (
  arith,
  holds_as-push_missing b name caps known h,
  holds_as-push_missing b name (caps ++ cap ∷ []) known h,
  holds_as-append b name caps (cap ∷ []),
  is_named-append name caps (cap ∷ []),
  unnamed-holds_as b name known,
  ==_iff cap.capability name,
)

holds_as-capability_of :
    (b allowed : Bool) (name : Text) (names : List Text)
    → holds_as b name (map (capability_of allowed) names)
      ≡ (is_set b allowed && includes names name)
unfolding holds_as capability_of includes
holds_as-capability_of b allowed name [] = ground arith
holds_as-capability_of b allowed name (other ∷ names) =
    ground (arith, holds_as-capability_of b allowed name names)

is_named-capability_of :
    (allowed : Bool) (name : Text) (names : List Text)
    → is_named name (map (capability_of allowed) names) ≡ includes names name
unfolding is_named any capability_of includes
is_named-capability_of allowed name [] = refl
is_named-capability_of allowed name (other ∷ names) =
    ground (arith, is_named-capability_of allowed name names)

includes-names :
    (b : Bool) (name : Text) (caps : List Capability)
    → includes (map capability_name (keep (λ cap. is_set b cap.allowed) caps)) name
      ≡ holds_as b name caps
unfolding includes keep capability_name holds_as
includes-names b name [] = refl
includes-names b name (cap ∷ caps) = ground (arith, includes-names b name caps)

distinct_names : List Capability → Bool
unfolding is_named
distinct_names [] = true
distinct_names (cap ∷ caps) = not (is_named cap.capability caps) && distinct_names caps

distinct_names-HasDistinctNames :
    (caps : List Capability) → distinct_names caps ≡ true → HasDistinctNames caps
unfolding distinct_names
distinct_names-HasDistinctNames [] h = tt
distinct_names-HasDistinctNames (cap ∷ caps) h =
    (ground arith, distinct_names-HasDistinctNames caps (ground arith))

container_capabilities-HasDistinctNames : HasDistinctNames container_capabilities
unfolding distinct_names container_capabilities sort_capabilities insert_capability text_less
    capability_of is_named any list_eq
container_capabilities-HasDistinctNames =
    distinct_names-HasDistinctNames container_capabilities refl

holds_as-known :
    (b : Bool) (name : Text)
    → holds_as b name container_capabilities ≡ (
        (is_set b true && includes (map codes allowed_by_default) name)
        || (is_set b false && includes (map codes denied_by_default) name))
unfolding container_capabilities
holds_as-known b name =
    let allowed = map (capability_of true) (map codes allowed_by_default) in
    let denied = map (capability_of false) (map codes denied_by_default) in
    holds_as-sort b name (allowed ++ denied)
    ∙ holds_as-append b name allowed denied
    ∙ ap₂ ◌||◌ (holds_as-capability_of b true name (map codes allowed_by_default))
        (holds_as-capability_of b false name (map codes denied_by_default))

holds_as-load :
    (b : Bool) (name : Text) (cap_add cap_drop : Option (List Text))
    → let added = includes (names_of cap_add) name in
      let dropped = includes (names_of cap_drop) name in
      holds_as b name (load_from_container_capabilities cap_add cap_drop) ≡ (
        ((is_set b true && added) || (is_set b false && dropped))
        || (not (added || dropped) && holds_as b name container_capabilities))
unfolding load_from_container_capabilities
holds_as-load b name cap_add cap_drop =
    let allowed = map (capability_of true) (names_of cap_add) in
    let denied = map (capability_of false) (names_of cap_drop) in
    holds_as-sort b name (push_missing (allowed ++ denied) container_capabilities)
    ∙ holds_as-push_missing b name (allowed ++ denied) container_capabilities
        container_capabilities-HasDistinctNames
    ∙ ap₂ (λ held named. held || (not named && holds_as b name container_capabilities))
        (holds_as-append b name allowed denied
          ∙ ap₂ ◌||◌ (holds_as-capability_of b true name (names_of cap_add))
              (holds_as-capability_of b false name (names_of cap_drop)))
        (is_named-append name allowed denied
          ∙ ap₂ ◌||◌ (is_named-capability_of true name (names_of cap_add))
              (is_named-capability_of false name (names_of cap_drop)))

-- A duplicated container is given the capabilities that were added to the container, and those that
-- are allowed by default but named in neither of its lists; it loses those that were dropped, and
-- those that are denied by default but named in neither list.
pub prepare_capabilities-load :
    (name : Text) (cap_add cap_drop : Option (List Text))
    → let added = includes (names_of cap_add) name in
      let dropped = includes (names_of cap_drop) name in
      let sent = prepare_capabilities (load_from_container_capabilities cap_add cap_drop) in
      (includes sent.0 name
        ≡ (added || (not (added || dropped) && includes (map codes allowed_by_default) name)))
      × (includes sent.1 name
          ≡ (dropped || (not (added || dropped) && includes (map codes denied_by_default) name)))
unfolding prepare_capabilities
prepare_capabilities-load name cap_add cap_drop =
    let loaded = load_from_container_capabilities cap_add cap_drop in
    ground (
      arith,
      includes-names true name loaded,
      includes-names false name loaded,
      holds_as-load true name cap_add cap_drop,
      holds_as-load false name cap_add cap_drop,
      holds_as-known true name,
      holds_as-known false name,
    )
