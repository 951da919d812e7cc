-- ===== src/Memory.antt =====
-- backend/internal/adapter/memory/memory.go: the repositories as operations on one database, with
-- the rows of backend/internal/domain/handshake/types.go and backend/internal/domain/occurrence. The
-- fields of a row that these repositories never read are left out; the tables of the workers and of
-- the trips stand in `Tables`. An instant counts nanoseconds since Go's zero time; a notification is kept as the
-- numbers that its text is made of.
pub mod Action
pub mod Blocks
pub mod Expiry
pub mod Lifecycle
pub mod Replay
pub mod Tables
mod Examples
use tccelta.Common.{
  ◌≡◌, refl, ℕ, zero, suc, ◌-◌, ◌+◌, Bool, true, false, not, ◌&&◌, ◌||◌, List, [], ◌∷◌, ◌++◌,
  Result, ok, err, ltb, leb, ◌==◌, if◌then◌else◌, Option, none, some, max,
}
use tccelta.Common.Bytes.{Bytes}
use tccelta.Common.Int.{ℤ}
use tccelta.Common.Maps.{number_key, bytes_key, pair_key, lookup, put}
use tccelta.Common.Text.{bytes_eq}
use tccelta.Registry.{Dongle, zero_state}
use tccelta.Registry
use tccelta.Handshake
use tccelta.Ingestion.{Cause}
use tccelta.Ingestion.Rows
use tccelta.Ingestion.Rows.{RawBlock, Rejected}
use tccelta.Pid
use tccelta.Pid.{Reading, Position}
use tccelta.Protocol
use tccelta.Trip

-- An error of the use cases: one of the domain, or one of a port outside (KMS, tokens, random bytes).
pub data Fault : Type 0 where
  registry : Registry.Error → Fault
  handshake : Handshake.Error → Fault
  protocol : Protocol.Error → Fault
  ingestion : Rows.Error → Fault
  pid : Pid.Error → Fault
  trip : Trip.Error → Fault
  outside : Fault

pub record StoredChallenge : Type 0 where
  pub nonce : Bytes
  pub s1 : ℕ
  pub expires_at : ℕ
  pub answered_at : Option ℕ

-- challenge.result; `unset` is the empty text.
pub data Outcome : Type 0 where
  unset accepted accepted_no_anchor inconsistent invalid_tag expired : Outcome

pub record Finalization : Type 0 where
  pub dongle_id : ℕ
  pub cs : ℕ
  pub result : Outcome
  pub ack_seq : Option ℕ
  pub loss_start : Option ℕ
  pub loss_end : Option ℕ
  pub token_jti : Option Bytes
  pub unwrapped_t_ms : Option ℤ
  pub boot_generation : Option ℕ

pub record Challenge : Type 0 where
  pub stored : StoredChallenge
  pub result : Outcome
  pub final : Option Finalization

pub record Gap : Type 0 where
  pub dongle_id : ℕ
  pub from : ℕ
  pub to : ℕ
  pub cause : Cause
  pub registered_at : ℕ
  pub cs : Option ℕ
  pub block_seq : Option ℕ

-- The types of an alert.
pub data AlertKind : Type 0 where
  server_clock_regressed unknown_pid invariant_violated boot_generation_advanced : AlertKind
  empty_intersection excessive_drift reprocessing : AlertKind

abbrev pub alert_number : AlertKind → ℕ
alert_number server_clock_regressed = 0
alert_number unknown_pid = 1
alert_number invariant_violated = 2
alert_number boot_generation_advanced = 3
alert_number empty_intersection = 4
alert_number excessive_drift = 5
alert_number reprocessing = 6

abbrev pub same_alert_kind : AlertKind → AlertKind → Bool
same_alert_kind a b = alert_number a == alert_number b

-- The JSON detail is left out.
pub record Alert : Type 0 where
  pub dongle_id : ℕ
  pub kind : AlertKind
  pub boot_generation : Option ℕ
  pub boot_id : Option ℕ

pub record Anchor : Type 0 where
  pub dongle_id : ℕ
  pub boot_generation : ℕ
  pub boot_id : ℕ
  pub t_ms : ℤ
  pub nonce : Bytes
  pub s1 : ℕ
  pub s2 : ℕ

-- A text that NotifyPending sends: the handshake names a boot, the ingestion a dongle.
pub data Notification : Type 0 where
  of_boot : ℕ → ℕ → ℕ → Notification
  of_dongle : ℕ → Notification

-- The tables of the handshake and of the ingestion; a challenge has the key (dongle, c_s), a boot the key
-- (dongle, (generation, boot_id)), a stored block (dongle, seq).
pub record Database : Type 0 where
  pub dongles : List (Bytes × Dongle)
  pub states : List (ℕ × Registry.State)
  pub last_cs : List (ℕ × ℕ)
  pub challenges : List ((ℕ × ℕ) × Challenge)
  pub t_ms_boot : List ((ℕ × (ℕ × ℕ)) × ℤ)
  pub seen : List ((ℕ × ℕ) × Bool)
  pub raw_blocks : List RawBlock
  pub rejected : List Rejected
  pub readings : List Reading
  pub positions : List Position
  pub gaps : List Gap
  pub alerts : List Alert
  pub anchors : List Anchor
  pub notifications : List Notification

abbrev pub or_else {ℓ} : {A : Type ℓ} → Option A → A → A
or_else none a = a
or_else (some b) a = b

-- FindByDevID
unfoldable pub find_by_dev_id : Database → Bytes → Result Fault Dongle
find_by_dev_id b dev = elim (lookup b.dongles dev) [
  | none ↦ err (registry Registry.unknown)
  | some d ↦ ok d
]

unfoldable pub state_of : Database → ℕ → Registry.State
state_of b id = or_else (lookup b.states id) zero_state

pub record Issuance : Type 0 where
  pub dongle_id : ℕ
  pub s1 : ℕ
  pub expires_at : ℕ
  pub nonce : Bytes
  pub max_pending : ℕ

pub record Issued : Type 0 where
  pub cs : ℕ
  pub contiguous_seq : ℕ
  pub c_conf : ℕ

abbrev pub is_unanswered : Option ℕ → Bool
is_unanswered none = true
is_unanswered (some _) = false

-- Neither answered nor expired at `now`.
unfoldable pub is_pending : StoredChallenge → ℕ → Bool
is_pending d now = is_unanswered d.answered_at && ltb now d.expires_at

-- The pending challenges of a dongle.
unfoldable pub pending : List ((ℕ × ℕ) × Challenge) → ℕ → ℕ → ℕ
pending [] id now = 0
pending ((k, d) ∷ m) id now =
    let rest = pending m id now in if k.0 == id && is_pending d.stored now then rest + 1 else rest

unfoldable pub last_cs_of : Database → ℕ → ℕ
last_cs_of b id = or_else (lookup b.last_cs id) 0

unfoldable pub fresh_challenge : Issuance → Challenge
fresh_challenge e = record {
  stored = record { nonce = e.nonce; s1 = e.s1; expires_at = e.expires_at; answered_at = none };
  result = unset;
  final = none;
}

-- Issue
unfoldable pub issue : Database → Issuance → Result Fault Issued × Database
issue b e =
    let cs = last_cs_of b e.dongle_id + 1 in
    let est = state_of b e.dongle_id in
    if leb e.max_pending (pending b.challenges e.dongle_id e.s1)
    then (err (handshake Handshake.pending_challenges), b)
    else (
      ok (record { cs = cs; contiguous_seq = est.contiguous_seq; c_conf = est.c_conf }),
      record b {
        last_cs = put b.last_cs e.dongle_id cs;
        challenges = put b.challenges (e.dongle_id, cs) (fresh_challenge e);
      },
    )

-- Find
unfoldable pub find_challenge : Database → ℕ → ℕ → Result Fault StoredChallenge
find_challenge b id cs = elim (lookup b.challenges (id, cs)) [
  | none ↦ err (handshake Handshake.invalid_challenge)
  | some d ↦ ok d.stored
]

pub record Consumption : Type 0 where
  pub dongle_id : ℕ
  pub cs : ℕ
  pub nonce : Bytes
  pub s2 : ℕ

unfoldable pub answer : Challenge → ℕ → Challenge
answer d s2 = record d { stored = record d.stored { answered_at = some s2 } }

-- Consume
unfoldable pub consume : Database → Consumption → Result Fault ℕ × Database
consume b c = elim (lookup b.challenges (c.dongle_id, c.cs)) [
  | none ↦ (err (handshake Handshake.invalid_challenge), b)
  | some d ↦
      if not (bytes_eq d.stored.nonce c.nonce) || not (is_pending d.stored c.s2)
      then (err (handshake Handshake.invalid_challenge), b)
      else (
        ok d.stored.s1,
        record b { challenges = put b.challenges (c.dongle_id, c.cs) (answer d c.s2) },
      )
]

-- The zero value that a missing key gives.
abbrev pub zero_challenge : Challenge
zero_challenge = record {
  stored = record { nonce = []; s1 = 0; expires_at = 0; answered_at = none };
  result = unset;
  final = none;
}

-- Finalize
unfoldable pub finalize : Database → Finalization → Database
finalize b f =
    let d : Challenge = or_else (lookup b.challenges (f.dongle_id, f.cs)) zero_challenge in
    record b {
      challenges =
          put b.challenges (f.dongle_id, f.cs) (record d { result = f.result; final = some f });
    }

-- MarkInvalidTag
unfoldable pub mark_invalid_tag : Database → ℕ → ℕ → Bytes → Database
mark_invalid_tag b id cs nonce = elim (lookup b.challenges (id, cs)) [
  | none ↦ b
  | some d ↦
      if bytes_eq d.stored.nonce nonce
      then record b { challenges = put b.challenges (id, cs) (record d { result = invalid_tag }) }
      else b
]

-- States.Read
unfoldable pub read_state : Database → ℕ → Result Fault Registry.State
read_state b id = elim (lookup b.states id) [
  | none ↦ err (registry Registry.unknown)
  | some e ↦ ok (record e { last_ack = [] })
]

pub record Update : Type 0 where
  pub dongle_id : ℕ
  pub contiguous_seq : ℕ
  pub head_seq : ℕ
  pub c_conf : ℕ
  pub last_ack : Bytes

-- UpdateHandshake
unfoldable pub update_handshake : Database → Update → Database
update_handshake b a =
    let e = state_of b a.dongle_id in
    record b {
      states = put b.states a.dongle_id (record e {
        contiguous_seq = a.contiguous_seq;
        max_seen_seq = max e.max_seen_seq a.contiguous_seq;
        head_seq = a.head_seq;
        c_conf = a.c_conf;
        last_ack = a.last_ack;
      });
    }

-- What LastTMs returns for a boot.
pub record RefBoot : Type 0 where
  pub generation : ℕ
  pub boot_id : ℕ
  pub last_t_ms : ℤ

-- The rows of one boot_id in `count` generations from `g` on.
unfoldable pub last_in_generations : Database → ℕ → ℕ → ℕ → ℕ → List RefBoot
last_in_generations b id boot_id g zero = []
last_in_generations b id boot_id g (suc count) =
    let rest = last_in_generations b id boot_id (g + 1) count in
    elim (lookup b.t_ms_boot (id, (g, boot_id))) [
      | none ↦ rest
      | some t ↦ record { generation = g; boot_id = boot_id; last_t_ms = t } ∷ rest
    ]

-- LastTMs
unfoldable pub last_t_ms : Database → ℕ → List ℕ → ℕ → ℕ → List RefBoot
last_t_ms b id [] g_min g_max = []
last_t_ms b id (boot_id ∷ ids) g_min g_max =
    last_in_generations b id boot_id g_min (g_max + 1 - g_min) ++ last_t_ms b id ids g_min g_max

-- InsertGap, InsertAlert, InsertAnchor and NotifyPending
unfoldable pub insert_gap : Database → Gap → Database
insert_gap b g = record b { gaps = b.gaps ++ g ∷ [] }

unfoldable pub insert_alert : Database → Alert → Database
insert_alert b a = record b { alerts = b.alerts ++ a ∷ [] }

unfoldable pub insert_anchor : Database → Anchor → Database
insert_anchor b a = record b { anchors = b.anchors ++ a ∷ [] }

unfoldable pub notify_pending : Database → Notification → Database
notify_pending b key = record b { notifications = b.notifications ++ key ∷ [] }

-- clone: a value for each map and slice.
unfoldable pub clone : Database → Database
clone b = record {
  dongles = b.dongles;
  states = b.states;
  last_cs = b.last_cs;
  challenges = b.challenges;
  t_ms_boot = b.t_ms_boot;
  seen = b.seen;
  raw_blocks = b.raw_blocks;
  rejected = b.rejected;
  readings = b.readings;
  positions = b.positions;
  gaps = b.gaps;
  alerts = b.alerts;
  anchors = b.anchors;
  notifications = b.notifications;
}

-- restore: every table of `b` is set to the one of the clone `c`.
unfoldable pub restore : Database → Database → Database
restore b c = record b {
  dongles = c.dongles;
  states = c.states;
  last_cs = c.last_cs;
  challenges = c.challenges;
  t_ms_boot = c.t_ms_boot;
  seen = c.seen;
  raw_blocks = c.raw_blocks;
  rejected = c.rejected;
  readings = c.readings;
  positions = c.positions;
  gaps = c.gaps;
  alerts = c.alerts;
  anchors = c.anchors;
  notifications = c.notifications;
}

-- What was cloned is restored, whatever was written since.
pub restore-clone : (b after : Database) → restore after (clone b) ≡ b
unfolding restore clone
restore-clone b after = refl

-- InTransaction: an error restores the clone that was made before.
unfoldable pub in_transaction {ℓ} :
    {A : Type ℓ} → (Database → Result Fault A × Database) → Database → Result Fault A × Database
in_transaction f b =
    let saved = clone b in
    let (r, after) = f b in elim r [ ok a ↦ (ok a, after) | err e ↦ (err e, restore after saved) ]
