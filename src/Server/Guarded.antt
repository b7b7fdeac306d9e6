-- ===== src/Server/Guarded.antt =====
-- What tools/branchscore_server.cpp starts with.
use branchscore.Base.{
  ℕ, ◌≤◌, ◌≡◌, refl, subst, Bool, true, false, not, ◌||◌, Bool-cases, inl, inr, Option, none, some,
  List, [], ◌∷◌, Bytes, ◌==◌, length, arith,
}
use branchscore.Result.{Result, ok, throw_if, runtime_error, ok_of_bind, ok-injective}
use branchscore.Server.Startup.{
  Config, Network, default_config, parse_port, Argument, model, mmproj, backend_name, host_name,
  port_number, help, unknown, argument_of, Parsed, configured, exits, last_argument, with_value,
  parse_from, parse_arguments, is_loopback_host, all_visible, bearer_token, Start, serves,
  exits_early, authorize_start, start,
}

if_passed : (b : Bool) (u : Unit {0}) → throw_if b runtime_error ≡ ok u → b ≡ false
if_passed true u h = absurd (cc)
if_passed false u h = refl

parse_port-bounds :
    (text : Bytes) (port : ℕ) → parse_port text ≡ ok port → (1 ≤ port) × (port ≤ 65535)
unfolding parse_port
parse_port-bounds text port h = ground arith

-- A port that a TCP socket can listen on
abbrev pub IsPort : ℕ → Type 0
IsPort port = (1 ≤ port) × (port ≤ 65535)

-- What holds of the configuration that the arguments give
pub data IsConfigured : Parsed → Type 0 where
  is_configured :
      (config : Config)
      → IsPort config.port
      → 1 ≤ length config.model_path
      → 1 ≤ length config.mmproj_path
      → IsConfigured (configured config)
  is_exit : IsConfigured exits

with_value-IsConfigured :
    (argument : Argument) (value : Bytes) (config : Config) (next : Config → Result Parsed)
    (parsed : Parsed)
    → IsPort config.port
    → ((c : Config) → IsPort c.port → next c ≡ ok parsed → IsConfigured parsed)
    → with_value argument value config next ≡ ok parsed
    → IsConfigured parsed
unfolding with_value
with_value-IsConfigured model value config next parsed p k h = k _ p h
with_value-IsConfigured mmproj value config next parsed p k h = k _ p h
with_value-IsConfigured backend_name value config next parsed p k h = k _ p h
with_value-IsConfigured host_name value config next parsed p k h = k _ p h
with_value-IsConfigured port_number value config next parsed p k h =
    let (port, read, h₁) = ok_of_bind (parse_port value) _ parsed h in
    k _ (parse_port-bounds value port read) h₁
with_value-IsConfigured help value config next parsed p k h =
    subst IsConfigured (ok-injective h) is_exit
with_value-IsConfigured unknown value config next parsed p k h = absurd (cc)

last_argument-IsConfigured :
    (argument : Argument) (parsed : Parsed)
    → last_argument argument ≡ ok parsed
    → IsConfigured parsed
unfolding last_argument
last_argument-IsConfigured help parsed h = subst IsConfigured (ok-injective h) is_exit
last_argument-IsConfigured model parsed h = absurd (cc)
last_argument-IsConfigured mmproj parsed h = absurd (cc)
last_argument-IsConfigured backend_name parsed h = absurd (cc)
last_argument-IsConfigured host_name parsed h = absurd (cc)
last_argument-IsConfigured port_number parsed h = absurd (cc)
last_argument-IsConfigured unknown parsed h = absurd (cc)

parse_from-IsConfigured :
    (arguments : List Bytes) (config : Config) (parsed : Parsed)
    → IsPort config.port
    → parse_from arguments config ≡ ok parsed
    → IsConfigured parsed
unfolding parse_from
parse_from-IsConfigured [] config parsed p h =
    let missing : Bool = length config.model_path == 0 || length config.mmproj_path == 0 in
    let (u, there, h₁) = ok_of_bind (throw_if missing runtime_error) _ parsed h in
    let passed = if_passed missing u there in
    subst IsConfigured (ok-injective h₁) (is_configured config p (ground arith) (ground arith))
parse_from-IsConfigured (argument ∷ []) config parsed p h =
    last_argument-IsConfigured (argument_of argument) parsed h
parse_from-IsConfigured (argument ∷ value ∷ arguments) config parsed p h =
    with_value-IsConfigured (argument_of argument) value config (λ c. parse_from arguments c) parsed
      p (λ c q e. parse_from-IsConfigured arguments c parsed q e) h

-- What the server starts with: a valid port, the paths of both files, and, exactly where the host is
-- not the loopback, a required token, which is not empty and visible.
pub data IsGuarded (network : Network) : Start → Type 0 where
  is_open :
      (config : Config)
      → IsPort config.port
      → 1 ≤ length config.model_path
      → 1 ≤ length config.mmproj_path
      → is_loopback_host network config.host ≡ true
      → IsGuarded network (serves config false [])
  is_guarded :
      (config : Config) (token : Bytes)
      → IsPort config.port
      → 1 ≤ length config.model_path
      → 1 ≤ length config.mmproj_path
      → is_loopback_host network config.host ≡ false
      → 1 ≤ length token
      → all_visible token ≡ true
      → IsGuarded network (serves config true token)
  is_early : IsGuarded network exits_early

bearer_token-visible :
    (environment : Option Bytes) (token : Bytes)
    → bearer_token environment ≡ ok token
    → (1 ≤ length token) × (all_visible token ≡ true)
unfolding bearer_token
bearer_token-visible none token h = absurd (cc)
bearer_token-visible (some t) token h =
    let (u, there, h₁) = ok_of_bind (throw_if (length t == 0) runtime_error) _ token h in
    let (v, seen, h₂) = ok_of_bind (throw_if (not (all_visible t)) runtime_error) _ token h₁ in
    let some_byte = if_passed (length t == 0) u there in
    let visible = if_passed (not (all_visible t)) v seen in
    subst (λ s. (1 ≤ length s) × (all_visible s ≡ true)) (ok-injective h₂)
      (ground arith, ground arith)

authorize_start-IsGuarded :
    (network : Network) (environment : Option Bytes) (parsed : Parsed) (started : Start)
    → IsConfigured parsed
    → authorize_start network environment parsed ≡ ok started
    → IsGuarded network started
unfolding authorize_start
authorize_start-IsGuarded network environment exits started is_exit h =
    subst (IsGuarded network) (ok-injective h) is_early
authorize_start-IsGuarded network environment (configured config) started (is_configured c p m n)
      h =
    elim (Bool-cases (is_loopback_host network config.host)) [
      | inl loopback ↦
          subst (IsGuarded network) (ok-injective (rw loopback at h))
            (is_open config p m n loopback)
      | inr remote ↦
          let (token, given, h₁) =
            ok_of_bind (bearer_token environment) _ started (rw remote at h) in
          let (some_byte, visible) = bearer_token-visible environment token given in
          subst (IsGuarded network) (ok-injective h₁)
            (is_guarded config token p m n remote some_byte visible)
    ]

-- What main starts the server with has a port from 1 to 65535 and the paths of both files; it
-- requires a bearer token exactly where the host is not the loopback, and that token is not empty
-- and has visible characters of ASCII only.
pub start-IsGuarded :
    (network : Network) (environment : Option Bytes) (arguments : List Bytes) (started : Start)
    → start network environment arguments ≡ ok started
    → IsGuarded network started
unfolding start parse_arguments
start-IsGuarded network environment arguments started h =
    let (parsed, read, h₁) = ok_of_bind (parse_from arguments default_config) _ started h in
    authorize_start-IsGuarded network environment parsed started
      (parse_from-IsConfigured arguments default_config parsed (omega arith, omega arith) read) h₁
