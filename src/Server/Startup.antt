-- ===== src/Server/Startup.antt =====
-- The start of tools/branchscore_server.cpp: its arguments, and the bearer token that a bind to
-- another address than the loopback needs.
use branchscore.Base.{
  ◌/◌, ℕ, ◌+◌, ◌-◌, ◌*◌, ◌%◌, ◌^◌, Bool, true, false, not, ◌&&◌, ◌||◌, Option, none, some, List, [],
  ◌∷◌, Bytes, codes, equal, ◌==◌, ltb, leb, if◌then◌else◌, length,
}
use branchscore.Result.{Result, ok, throw, runtime_error, throw_if, ◌>>=◌, ◌>>◌}
use branchscore.Server.Authorization.{lowercase}

pub record Config : Type 0 where
  pub model_path : Bytes
  pub mmproj_path : Bytes
  pub backend : Bytes
  pub host : Bytes
  pub port : ℕ

abbrev pub default_config : Config
default_config = record {
  model_path = [];
  mmproj_path = [];
  backend = codes "auto";
  host = codes "127.0.0.1";
  port = 8080;
}

-- `inet_pton`: an IPv4 address in the order of the host, and whether a text is the IPv6 loopback.
pub record Network : Type 0 where
  pub ipv4 : Bytes → Option ℕ
  pub is_ipv6_loopback : Bytes → Bool

abbrev pub is_digit : ℕ → Bool
is_digit c = leb b'0' c && leb c b'9'

-- The number at the front of a text, and the text behind it
unfoldable pub read_digits : ℕ → Bytes → ℕ × Bytes
read_digits value [] = (value, [])
read_digits value (c ∷ cs) =
    let more = read_digits (value * 10 + (c - b'0')) cs in
    if is_digit c then more else (value, c ∷ cs)

abbrev pub begins_with_digit : Bytes → Bool
begins_with_digit [] = false
begins_with_digit (c ∷ cs) = is_digit c

-- `std::from_chars` on an `unsigned int` fails without a digit and above 2 ^ 32 - 1.
unfoldable pub parse_port : Bytes → Result ℕ
parse_port text =
    let parsed = read_digits 0 text in
    throw_if
      (length text == 0
        || not (begins_with_digit text)
        || leb (2 ^ 32) parsed.0
        || not (length parsed.1 == 0)
        || parsed.0 == 0
        || ltb 65535 parsed.0)
      runtime_error
    >> ok (parsed.0 % 2 ^ 16)

-- What an argument is
pub data Argument : Type 0 where
  model mmproj backend_name host_name port_number help unknown : Argument

unfoldable pub argument_of : Bytes → Argument
argument_of argument =
    if equal argument (codes "--model")
    then model
    else if equal argument (codes "--mmproj")
    then mmproj
    else if equal argument (codes "--backend")
    then backend_name
    else if equal argument (codes "--host")
    then host_name
    else if equal argument (codes "--port")
    then port_number
    else if equal argument (codes "--help")
    then help
    else unknown

-- `--help` prints the usage and exits.
pub data Parsed : Type 0 where
  configured : Config → Parsed
  exits : Parsed

-- The last argument: there is no value behind it.
unfoldable pub last_argument : Argument → Result Parsed
last_argument help = ok exits
last_argument _ = throw runtime_error

-- An argument with another behind it, which is its value or the next argument; `next` goes on behind
-- the value.
unfoldable pub with_value : Argument → Bytes → Config → (Config → Result Parsed) → Result Parsed
with_value model value config next = next (record config { model_path = value })
with_value mmproj value config next = next (record config { mmproj_path = value })
with_value backend_name value config next = next (record config { backend = value })
with_value host_name value config next = next (record config { host = value })
with_value port_number value config next =
    parse_port value >>= λ port. next (record config { port = port })
with_value help value config next = ok exits
with_value unknown value config next = throw runtime_error

-- The loop over the arguments, and the check behind it
unfoldable pub parse_from : List Bytes → Config → Result Parsed
parse_from [] config =
    throw_if (length config.model_path == 0 || length config.mmproj_path == 0) runtime_error
    >> ok (configured config)
parse_from (argument ∷ []) config = last_argument (argument_of argument)
parse_from (argument ∷ value ∷ arguments) config =
    with_value (argument_of argument) value config (λ c. parse_from arguments c)

unfoldable pub parse_arguments : List Bytes → Result Parsed
parse_arguments arguments = parse_from arguments default_config

abbrev pub is_loopback_ipv4 : Option ℕ → Bool → Bool
is_loopback_ipv4 none ipv6 = ipv6
is_loopback_ipv4 (some address) ipv6 = address / 2 ^ 24 == 127

unfoldable pub is_loopback_host : Network → Bytes → Bool
is_loopback_host network host =
    if equal (lowercase host) (codes "localhost")
    then true
    else is_loopback_ipv4 (network.ipv4 host) (network.is_ipv6_loopback host)

-- Whether every byte is a visible character of ASCII.
unfoldable pub all_visible : Bytes → Bool
all_visible [] = true
all_visible (c ∷ cs) = not (ltb c 0x21 || ltb 0x7e c) && all_visible cs

-- The token of the environment, where one is needed
unfoldable pub bearer_token : Option Bytes → Result Bytes
bearer_token none = throw runtime_error
bearer_token (some token) =
    throw_if (length token == 0) runtime_error
    >> (throw_if (not (all_visible token)) runtime_error >> ok token)

-- What `main` calls `run_server` with, or the exit for the usage
pub data Start : Type 0 where
  serves : Config → Bool → Bytes → Start
  exits_early : Start

unfoldable pub authorize_start : Network → Option Bytes → Parsed → Result Start
authorize_start network environment exits = ok exits_early
authorize_start network environment (configured config) =
    if is_loopback_host network config.host
    then ok (serves config false [])
    else bearer_token environment >>= λ token. ok (serves config true token)

-- `main`, up to the loading of the model
unfoldable pub start : Network → Option Bytes → List Bytes → Result Start
start network environment arguments =
    parse_arguments arguments >>= λ parsed. authorize_start network environment parsed
