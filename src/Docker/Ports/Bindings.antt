-- ===== src/Docker/Ports/Bindings.antt =====
-- `preparePortBindings` of app/docker/helpers/containerHelper.js: from the port bindings of the
-- form to those of the Docker API.
pub mod Laws
pub mod Ranges
pub mod Bounds
use ui_for_docker.Prelude.{
  ℕ, zero, suc, ◌+◌, ◌-◌, Bool, true, false, ◌&&◌, Option, none, some, List, [], ◌∷◌, ◌++◌, ltb,
  nat_eq, not, if◌then◌else◌, Text, codes, split_at, cut_text, has_unit, ◌||◌, eq_list, eq_nat, ◌≡◌,
  refl, ◌⊎◌, inl, inr,
}
use ui_for_docker.Prelude.Dict.{Dict, lookup, insert}
use ui_for_docker.Prelude.Decimal.{Number, nan, natural, negative, show}
use ui_for_docker.Docker.Ports.{parse_port_range, is_valid_port_range}

-- A row of the form; a field that was not filled in may be undefined.
pub record PortBinding : Type 0 where
  pub host_port : Option Text
  pub container_port : Option Text
  pub protocol : Text

-- What the Docker API calls a binding of a container's port.
pub record HostBinding : Type 0 where
  pub host_ip : Option Text
  pub host_port : Option Text

abbrev pub Bindings : Type 0
Bindings = Dict Text (List HostBinding)

-- An `Error('Invalid port specification: ' + specification)` that is thrown.
pub data Result {ℓ} (A : Type ℓ) : Type ℓ where
  ok : A → Result A
  invalid : Text → Result A

infixl 5 ◌>>=◌
abbrev pub ◌>>=◌ {ℓ κ} : {A : Type ℓ} {B : Type κ} → Result A → (A → Result B) → Result B
ok a >>= f = f a
invalid s >>= f = invalid s

pub Result-cases {ℓ} :
    {A : Type ℓ} (r : Result A) → ((a : A) × (r ≡ ok a)) ⊎ ((s : Text) × (r ≡ invalid s))
Result-cases (ok a) = inl (a, refl)
Result-cases (invalid s) = inr (s, refl)

-- The end of a range that was found valid, which is then a natural number.
abbrev pub bound : Number → ℕ
bound nan = 0
bound (natural n) = n
bound (negative n) = 0

-- Parse a range and throw if it is not valid, naming `specification`.
unfoldable pub valid_range : Text → Text → Result (ℕ × ℕ)
valid_range specification range =
    let (start, end) = parse_port_range range in
    if is_valid_port_range (start, end) then ok (bound start, bound end) else invalid specification

-- `text.replace('[', '')`
drop_bracket : Text → Text
drop_bracket [] = []
drop_bracket (c ∷ s) = let rest = drop_bracket s in if nat_eq c b'[' then s else c ∷ rest

-- The second part of a split at `]:`, from the text behind the first one.
before_next : Text → Option (Text × Text) → Text
before_next behind none = behind
before_next behind (some (part, rest)) = part

bracketed : Text → Option (Text × Text) → Result (Option Text × Text)
unfolding before_next drop_bracket
bracketed container_port none = invalid container_port
bracketed container_port (some (before, behind)) =
    ok (some (drop_bracket before), before_next behind (cut_text (codes "]:") behind))

second_part : Text × List Text → Option Text × Text
second_part (first, []) = (none, first)
second_part (first, second ∷ parts) = (some first, second)

-- The host address and the host port of `hostPort`.
unfoldable pub split_host : Text → Text → Result (Option Text × Text)
unfolding bracketed second_part
split_host container_port host_port =
    if has_unit b'[' host_port
    then bracketed container_port (cut_text (codes "]:") host_port)
    else ok (second_part (split_at b':' host_port))

-- The host's side of a row: the address, and the first and last port, 0 where none is asked for.
pub record HostSide : Type 0 where
  pub ip : Option Text
  pub text : Option Text
  pub start : ℕ
  pub end : ℕ

unfoldable pub has_same_width : ℕ × ℕ → ℕ × ℕ → Bool
has_same_width (start, end) (start_host, end_host) =
    nat_eq end start || nat_eq (end - start) (end_host - start_host)

ranged_host : ℕ × ℕ → Text → Option Text × Text → Result HostSide
ranged_host container _ (ip, port) = do
  (start, end) ← valid_range port port
  if has_same_width container (start, end)
      then ok (record { ip = ip; text = some port; start = start; end = end })
      else invalid port

unfoldable pub host_side : ℕ × ℕ → Text → Option Text → Result HostSide
unfolding ranged_host
host_side container container_port none = ok (record { ip = none; text = none; start = 0; end = 0 })
host_side container container_port (some []) =
    ok (record { ip = none; text = some []; start = 0; end = 0 })
host_side container container_port (some (c ∷ port)) = do
  parts ← split_host container_port (c ∷ port)
  ranged_host container container_port parts

-- `hostPort += '-' + endHostPort` where one container port has a range of host ports.
suffixed : Bool → ℕ → Option Text → Option Text
suffixed false end text = text
suffixed true end none = some (codes "undefined-" ++ show end)
suffixed true end (some text) = some (text ++ b'-' ∷ show end)

-- The host port that is written for the container port `start + i`.
unfoldable pub host_port_at : ℕ × ℕ → HostSide → ℕ → Option Text
unfolding suffixed
host_port_at (start, end) host i =
    suffixed (nat_eq start end && not (nat_eq host.start host.end)) host.end
      (if ltb 0 host.start then some (show (host.start + i)) else host.text)

unfoldable pub bind_key : ℕ → Text → Text
bind_key port protocol = show port ++ b'/' ∷ protocol

-- `bindings[bindKey].push(…)`, or a new list.
add_to : Option (List HostBinding) → HostBinding → List HostBinding
add_to none binding = binding ∷ []
add_to (some bindings) binding = bindings ++ binding ∷ []

unfoldable pub add_binding : Text → HostBinding → Bindings → Bindings
unfolding add_to
add_binding key binding bindings = insert key (add_to (lookup key bindings) binding) bindings

-- The `for` loop, with the rounds that are left and the number of the next round.
unfoldable pub bind_ports : ℕ → ℕ → ℕ × ℕ → HostSide → Text → Bindings → Bindings
bind_ports zero i container host protocol bindings = bindings
bind_ports (suc rounds) i container host protocol bindings =
    bind_ports rounds (i + 1) container host protocol (
      add_binding (bind_key (container.0 + i) protocol)
        (record { host_ip = host.ip; host_port = host_port_at container host i }) bindings)

-- The rows of one accepted container range.
bind_range : ℕ × ℕ → Text → Option Text → Text → Bindings → Result Bindings
bind_range container container_port host_port protocol bindings = do
  host ← host_side container container_port host_port
  ok (bind_ports (container.1 - container.0 + 1) 0 container host protocol bindings)

-- The body of the `_.forEach`.
unfoldable pub prepare_row : Option Text → Option Text → Text → Bindings → Result Bindings
unfolding bind_range
prepare_row none host_port protocol bindings = ok bindings
prepare_row (some []) host_port protocol bindings = ok bindings
prepare_row (some (c ∷ port)) host_port protocol bindings = do
  container ← valid_range (c ∷ port) (c ∷ port)
  bind_range container (c ∷ port) host_port protocol bindings

unfoldable pub prepare_port_binding : PortBinding → Bindings → Result Bindings
prepare_port_binding row bindings =
    prepare_row row.container_port row.host_port row.protocol bindings

unfoldable pub prepare_from : List PortBinding → Bindings → Result Bindings
prepare_from [] bindings = ok bindings
prepare_from (row ∷ rows) bindings = do
  next ← prepare_port_binding row bindings
  prepare_from rows next

unfoldable pub prepare_port_bindings : List PortBinding → Result Bindings
unfolding prepare_from
prepare_port_bindings rows = prepare_from rows []
