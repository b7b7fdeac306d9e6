-- ===== src/Tests/Startup.antt =====
-- A start of tools/branchscore_server.cpp on another address than the loopback.
use branchscore.Base.{◌≡◌, refl, none, some, false, true, List, [], ◌∷◌, Bytes, codes, equal}
use branchscore.Result.{ok}
use branchscore.Server.Authorization.{lowercase}
use branchscore.Server.Guarded.{IsGuarded, start-IsGuarded}
use branchscore.Server.Startup.{
  Network, Start, serves, read_digits, parse_port, argument_of, last_argument, with_value,
  parse_from, parse_arguments, is_loopback_host, all_visible, bearer_token, authorize_start, start,
}

abbrev no_addresses : Network
no_addresses = record { ipv4 = λ host. none; is_ipv6_loopback = λ host. false }

abbrev command_line : List Bytes
command_line =
    codes "--model"
    ∷ codes "m"
    ∷ codes "--mmproj"
    ∷ codes "p"
    ∷ codes "--host"
    ∷ codes "lan"
    ∷ codes "--port"
    ∷ codes "80"
    ∷ []

abbrev started : Start
started =
    serves
      (record {
        model_path = codes "m";
        mmproj_path = codes "p";
        backend = codes "auto";
        host = codes "lan";
        port = 80;
      })
      true (codes "secret")

is_started : start no_addresses (some (codes "secret")) command_line ≡ ok started
unfolding start parse_arguments parse_from argument_of last_argument with_value parse_port
    read_digits authorize_start is_loopback_host bearer_token all_visible lowercase equal
is_started = refl

start-IsGuarded_example : IsGuarded no_addresses started
start-IsGuarded_example =
    start-IsGuarded no_addresses (some (codes "secret")) command_line started is_started
