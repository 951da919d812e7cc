-- ===== src/Credentials/Examples.antt =====
-- A client with a right secret, and one that is blocked.
use tccelta.Common.{◌≢◌, get_or, ap, ◌+◌, ◌≤◌, ◌≡◌, ◌++◌, refl, [], false, true, ok, leb, arith}
use tccelta.Common.Bytes.{Bytes}
use tccelta.Common.Maps.{lookup, put, remove}
use tccelta.Common.Text.{codes, bytes_eq}
use tccelta.Credentials.{Powers, Policy, block, valid_id, all_id_bytes, valid_secret}
use tccelta.Credentials.Counters.{
  Policies, Counters, check, check_loop, live, fail, bump, first_failure, counted_in, counted,
  make_room, reset,
}
use tccelta.Credentials.Token.{
  Given, Token, Ports, local, is_valid, pair_of, issue_token, admit, verify, grant,
}
use tccelta.Credentials.Issued.{Earned, issue_token-Earned}
use tccelta.Credentials.Lockout
use tccelta.Credentials.Lockout.{check-fail, stay, more, checked}

abbrev powers : Powers
powers = record {
  growth = λ i f e. i + e;
  at_least = λ d cap. leb cap d;
  is_inf = λ d. false;
  is_nan = λ d. false;
  duration = λ d. d;
  below_one = λ f. false;
}

-- Every failure blocks for five at least.
abbrev policy : Policy
policy = record { tolerance = 0; initial = 5; factor = 1; cap = 100; forget = 50 }

abbrev policies : Policies
policies = record { pair = policy; ip = policy }

abbrev address : Bytes
address = codes "10.0.0.1"

abbrev client : Bytes
client = codes "app"

-- One failure of the client at 7.
abbrev blocked_state : Counters
blocked_state = (fail powers policies [] 7 client address).1

failed : (fail powers policies [] 7 client address).0.pair_block ≡ 5
unfolding fail bump live lookup put remove first_failure make_room counted_in counted block bytes_eq
failed = refl

-- A Check of the client, and a failure of another one from its address.
abbrev checked_state : Counters
checked_state = (check blocked_state 8 client address).1

abbrev other : Bytes
other = codes "web"

abbrev later_state : Counters
later_state = (fail powers policies checked_state 9 other address).1

other_differs : other ≢ client
other_differs e = let q : 119 ≡ 97 = ap (λ t. get_or t 0 0) e in omega (arith, q)

check-fail_example :
    7 + (fail powers policies [] 7 client address).0.pair_block
    ≤ 10 + (check later_state 10 client (codes "10.0.0.2")).0
check-fail_example =
    check-fail powers policies [] later_state 7 10 b'a' (codes "pp") address (codes "10.0.0.2")
      (omega (arith, failed))
      (more (more stay (checked 8 client address (omega (arith, failed))))
        (Lockout.failed 9 other address (omega (arith, failed)) other_differs))

abbrev given : Given
given = record { present = true; client_id = client; secret = codes "s"; ip = address }

abbrev ports : Ports
ports = record {
  verify_client = λ id secret. ok true;
  issue = λ id. ok (id ++ codes "!");
  validity = 60;
}

abbrev token : Token
token = record { access_token = codes "app!"; expires_in = 60 }

run : issue_token (local powers policies 3) ports [] given ≡ (ok token, [])
unfolding issue_token admit verify grant is_valid pair_of valid_id all_id_bytes valid_secret check
    check_loop live lookup remove reset
run = refl

issue_token-Earned_example : Earned (local powers policies 3) ports [] [] given token
issue_token-Earned_example =
    issue_token-Earned (local powers policies 3) ports [] [] given token run
