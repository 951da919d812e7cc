-- ===== src/Memory/Examples.antt =====
-- The repositories at a small database, and their laws there.
use tccelta.Common.{ℕ, ◌+◌, ◌<◌, ◌≡◌, refl, subst, [], ◌∷◌, ok, err, arith}
use tccelta.Common.Bytes.{Bytes}
use tccelta.Common.Text.{bytes_eq}
use tccelta.Common.Maps.{number_key, pair_key, lookup, put}
use tccelta.Memory.{
  Database, last_cs_of, Issuance, issue, Consumption, consume, answer, is_pending, fresh_challenge,
  pending, state_of, handshake, Issued,
}
use tccelta.Memory.Expiry.{expire, expire_loop, is_due}
use tccelta.Memory.Lifecycle.{issued-Keeps, IsNumbered, issued, expired, stay, more}
use tccelta.Memory.Replay.{consume_once, issue_rises}
use tccelta.Handshake

abbrev empty : Database
empty = record {
  dongles = [];
  states = [];
  last_cs = [];
  challenges = [];
  t_ms_boot = [];
  seen = [];
  raw_blocks = [];
  rejected = [];
  readings = [];
  positions = [];
  gaps = [];
  alerts = [];
  anchors = [];
  notifications = [];
}

empty-IsNumbered : IsNumbered empty
unfolding IsNumbered lookup
empty-IsNumbered id cs d h = ground arith

abbrev request : ℕ → Issuance
request s1 = record {
  dongle_id = 7;
  s1 = s1;
  expires_at = s1 + 100;
  nonce = 1 ∷ 2 ∷ [];
  max_pending = 2;
}

abbrev reply : ℕ → Bytes → ℕ → Consumption
reply cs nonce s2 = record { dongle_id = 7; cs = cs; nonce = nonce; s2 = s2 }

abbrev first : Issued
first = record { cs = 1; contiguous_seq = 0; c_conf = 0 }

abbrev one_issued : Database
one_issued = record empty {
  last_cs = (7, 1) ∷ [];
  challenges = ((7, 1), fresh_challenge (request 50)) ∷ [];
}

first_round : issue empty (request 50) ≡ (ok first, one_issued)
unfolding issue pending state_of last_cs_of lookup put
first_round = refl

abbrev one_answered : Database
one_answered = record one_issued {
  challenges = ((7, 1), answer (fresh_challenge (request 50)) 90) ∷ [];
}

answered_round : consume one_issued (reply 1 (1 ∷ 2 ∷ []) 90) ≡ (ok 50, one_answered)
unfolding consume is_pending fresh_challenge lookup put bytes_eq
answered_round = refl

one_issued-IsNumbered : IsNumbered one_issued
one_issued-IsNumbered =
    subst (λ x. IsNumbered x.1) first_round
      (issued-Keeps empty (request 50) empty-IsNumbered).numbered

-- Another challenge, the end of those that expired, and a second answer to the first one.
abbrev later : Database
later = (expire (issue one_answered (request 95)).1 400).1

consume_once_example :
    consume later (reply 1 (1 ∷ 2 ∷ []) 96) ≡ (err (handshake Handshake.invalid_challenge), later)
consume_once_example =
    consume_once one_issued one_answered later (reply 1 (1 ∷ 2 ∷ []) 90) (reply 1 (1 ∷ 2 ∷ []) 96)
      50 one_issued-IsNumbered answered_round
      (more (more stay (issued one_answered (request 95)))
        (expired (issue one_answered (request 95)).1 400))
      refl refl

abbrev second : Issued
second = record { cs = 2; contiguous_seq = 0; c_conf = 0 }

abbrev two_issued : Database
two_issued = record one_issued {
  last_cs = (7, 2) ∷ [];
  challenges = ((7, 1), fresh_challenge (request 50)) ∷ ((7, 2), fresh_challenge (request 60)) ∷ [];
}

second_round : issue one_issued (request 60) ≡ (ok second, two_issued)
unfolding issue pending is_pending state_of last_cs_of fresh_challenge lookup put
second_round = refl

issue_rises_example : first.cs < second.cs
issue_rises_example =
    issue_rises empty one_issued one_issued two_issued (request 50) (request 60) first second
      empty-IsNumbered first_round stay second_round refl

-- Two are pending.
third_round :
    issue two_issued (request 70) ≡ (err (handshake Handshake.pending_challenges), two_issued)
unfolding issue pending is_pending state_of last_cs_of fresh_challenge
third_round = refl

-- Of the two, the one that was not answered expires.
expiry_round : (expire (issue one_answered (request 95)).1 400).0 ≡ 1
unfolding expire expire_loop is_due issue pending state_of last_cs_of fresh_challenge lookup put
    answer is_pending
expiry_round = refl
