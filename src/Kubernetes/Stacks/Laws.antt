-- ===== src/Kubernetes/Stacks/Laws.antt =====
-- The stacks against the applications that belong to them.
use ui_for_docker.Prelude.{
  String, ◌≡◌, refl, sym, Bool, true, false, ◌&&◌, ◌||◌, not, List, [], ◌∷◌, ◌++◌, append_assoc,
  append-nil, arith, if◌then◌else◌, ◌==◌, ==_iff, eq_string, keep, Bool-cases, inl, inr,
}
use ui_for_docker.Kubernetes.Stacks.{
  Application, Stack, is_stack_of, push_application, stacks_from, stacks_from_applications,
}

-- The applications of all stacks with this name and resource pool.
pub applications_of : String → String → List Stack → List Application
applications_of name pool [] = []
applications_of name pool (stack ∷ stacks) =
    let rest = applications_of name pool stacks in
    if stack.name == name && stack.resource_pool == pool then stack.applications ++ rest else rest

pub belongs : String → String → Application → Bool
belongs name pool app = app.stack_name == name && app.resource_pool == pool

pub in_stack : String → String → Application → Bool
in_stack name pool app = not (app.stack_name == "-") && belongs name pool app

pub has_stack : String → String → List Stack → Bool
has_stack name pool [] = false
has_stack name pool (stack ∷ stacks) =
    (stack.name == name && stack.resource_pool == pool) || has_stack name pool stacks

-- No two stacks have the same name and resource pool.
abbrev pub AreDistinct : List Stack → Type 0
AreDistinct [] = Unit {0}
AreDistinct (stack ∷ stacks) =
    (has_stack stack.name stack.resource_pool stacks ≡ false) × AreDistinct stacks

applications_of-absent :
    (name pool : String) (stacks : List Stack)
    → has_stack name pool stacks ≡ false
    → applications_of name pool stacks ≡ []
unfolding applications_of has_stack
applications_of-absent name pool [] h = refl
applications_of-absent name pool (stack ∷ stacks) h =
    ground (arith, applications_of-absent name pool stacks)

has_stack-push :
    (name pool : String) (app : Application) (stacks : List Stack)
    → has_stack name pool (push_application app stacks)
      ≡ (has_stack name pool stacks || belongs name pool app)
unfolding has_stack push_application belongs is_stack_of
has_stack-push name pool app [] = ground arith
has_stack-push name pool app (stack ∷ stacks) = ground (
  arith,
  has_stack-push name pool app stacks,
  ==_iff stack.name app.stack_name,
  ==_iff stack.resource_pool app.resource_pool,
)

AreDistinct-if :
    (b : Bool) (stacks others : List Stack)
    → AreDistinct stacks
    → AreDistinct others
    → AreDistinct (if b then stacks else others)
AreDistinct-if true stacks others h k = h
AreDistinct-if false stacks others h k = k

has_stack-push_other :
    (app : Application) (stack : Stack) (stacks : List Stack)
    → is_stack_of app stack ≡ false
    → has_stack stack.name stack.resource_pool stacks ≡ false
    → has_stack stack.name stack.resource_pool (push_application app stacks) ≡ false
unfolding is_stack_of belongs
has_stack-push_other app stack stacks e h = ground (
  arith,
  has_stack-push stack.name stack.resource_pool app stacks,
  ==_iff stack.name app.stack_name,
  ==_iff app.stack_name stack.name,
  ==_iff stack.resource_pool app.resource_pool,
  ==_iff app.resource_pool stack.resource_pool,
)

AreDistinct-push_step :
    (b : Bool) (app : Application) (stack : Stack) (stacks : List Stack)
    → is_stack_of app stack ≡ b
    → AreDistinct (stack ∷ stacks)
    → AreDistinct (push_application app stacks)
    → AreDistinct (
        if b
        then record stack { applications = stack.applications ++ app ∷ [] } ∷ stacks
        else stack ∷ push_application app stacks)
AreDistinct-push_step true app stack stacks e (h, hs) k = (h, hs)
AreDistinct-push_step false app stack stacks e (h, hs) k =
    (has_stack-push_other app stack stacks e h, k)

push_application-AreDistinct :
    (app : Application) (stacks : List Stack)
    → AreDistinct stacks
    → AreDistinct (push_application app stacks)
unfolding push_application has_stack
push_application-AreDistinct app [] h = (refl, tt)
push_application-AreDistinct app (stack ∷ stacks) (h, hs) =
    AreDistinct-push_step (is_stack_of app stack) app stack stacks refl (h, hs)
      (push_application-AreDistinct app stacks hs)

stack_of-belongs :
    (name pool : String) (app : Application) (stack : Stack)
    → is_stack_of app stack ≡ true
    → (stack.name == name && stack.resource_pool == pool) ≡ belongs name pool app
unfolding is_stack_of belongs
stack_of-belongs name pool app stack e =
    ground (arith, ==_iff stack.name app.stack_name, ==_iff stack.resource_pool app.resource_pool)

applications_of-same :
    (b : Bool) (applications rest : List Application) (app : Application)
    → (b ≡ true → rest ≡ [])
    → (if b then (applications ++ app ∷ []) ++ rest else rest)
      ≡ (if b then applications ++ rest else rest) ++ (if b then app ∷ [] else [])
applications_of-same true applications rest app h =
    ground (arith, append-nil applications, append-nil (applications ++ app ∷ []), h)
applications_of-same false applications rest app h = sym (append-nil rest)

applications_of-other :
    (b : Bool) (applications rest after last : List Application)
    → after ≡ rest ++ last
    → (if b then applications ++ after else after)
      ≡ (if b then applications ++ rest else rest) ++ last
applications_of-other true applications rest after last e =
    ground (arith, append_assoc applications rest last)
applications_of-other false applications rest after last e = e

absent :
    (name pool : String) (app : Application) (stack : Stack) (stacks : List Stack)
    → is_stack_of app stack ≡ true
    → belongs name pool app ≡ true
    → has_stack stack.name stack.resource_pool stacks ≡ false
    → has_stack name pool stacks ≡ false
unfolding is_stack_of belongs
absent name pool app stack stacks e b h = ground (
  arith,
  ==_iff stack.name app.stack_name,
  ==_iff stack.resource_pool app.resource_pool,
  ==_iff app.stack_name name,
  ==_iff app.resource_pool pool,
)

applications_of-push_step :
    (name pool : String) (app : Application) (stack : Stack) (stacks : List Stack)
    → has_stack stack.name stack.resource_pool stacks ≡ false
    → applications_of name pool (push_application app stacks)
      ≡ applications_of name pool stacks ++ (if belongs name pool app then app ∷ [] else [])
    → applications_of name pool (push_application app (stack ∷ stacks))
      ≡ applications_of name pool (stack ∷ stacks)
        ++ (if belongs name pool app then app ∷ [] else [])
unfolding push_application applications_of
applications_of-push_step name pool app stack stacks h k =
    elim (Bool-cases (is_stack_of app stack)) [
      | inl e ↦ ground (
        arith,
        e,
        stack_of-belongs name pool app stack e,
        applications_of-same (belongs name pool app) stack.applications
            (applications_of name pool stacks) app
            (λ b.
              applications_of-absent name pool stacks (absent name pool app stack stacks e b h)),
      )
      | inr e ↦ ground (
        arith,
        e,
        applications_of-other (stack.name == name && stack.resource_pool == pool) stack.applications
            (applications_of name pool stacks)
            (applications_of name pool (push_application app stacks))
            (if belongs name pool app then app ∷ [] else []) k,
      )
    ]

applications_of-push :
    (name pool : String) (app : Application) (stacks : List Stack)
    → AreDistinct stacks
    → applications_of name pool (push_application app stacks)
      ≡ applications_of name pool stacks ++ (if belongs name pool app then app ∷ [] else [])
unfolding push_application applications_of belongs
applications_of-push name pool app [] h = ground arith
applications_of-push name pool app (stack ∷ stacks) (h, hs) =
    applications_of-push_step name pool app stack stacks h
      (applications_of-push name pool app stacks hs)

applications_of-stacks_from :
    (name pool : String) (apps : List Application) (stacks : List Stack)
    → AreDistinct stacks
    → applications_of name pool (stacks_from apps stacks)
      ≡ applications_of name pool stacks ++ keep (in_stack name pool) apps
unfolding stacks_from in_stack keep
applications_of-stacks_from name pool [] stacks h =
    sym (append-nil (applications_of name pool stacks))
applications_of-stacks_from name pool (app ∷ apps) stacks h =
    elim (Bool-cases (app.stack_name == "-")) [
      | inl e ↦ ground (arith, e, applications_of-stacks_from name pool apps stacks h)
      | inr e ↦ ground (
        arith,
        e,
        applications_of-stacks_from name pool apps (push_application app stacks)
            (push_application-AreDistinct app stacks h),
        applications_of-push name pool app stacks h,
        append_assoc (applications_of name pool stacks) (app ∷ []) (keep (in_stack name pool) apps),
        append-nil (applications_of name pool stacks),
      )
    ]

stacks_from-AreDistinct :
    (apps : List Application) (stacks : List Stack)
    → AreDistinct stacks
    → AreDistinct (stacks_from apps stacks)
unfolding stacks_from
stacks_from-AreDistinct [] stacks h = h
stacks_from-AreDistinct (app ∷ apps) stacks h =
    stacks_from-AreDistinct apps _
      (AreDistinct-if (app.stack_name == "-") _ _ h (push_application-AreDistinct app stacks h))

-- The stacks have different pairs of a name and a resource pool, and the stack of a name and a
-- pool holds the applications with that stack name in that pool, in their order; an application
-- whose stack name is a single dash is in none.
pub stacks_from_applications-partition :
    (apps : List Application)
    → AreDistinct (stacks_from_applications apps)
      × ((name pool : String)
          → applications_of name pool (stacks_from_applications apps)
            ≡ keep (in_stack name pool) apps)
unfolding stacks_from_applications applications_of
stacks_from_applications-partition apps = (
  stacks_from-AreDistinct apps [] tt,
  λ name pool. applications_of-stacks_from name pool apps [] tt,
)
