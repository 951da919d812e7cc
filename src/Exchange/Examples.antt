-- ===== src/Exchange/Examples.antt =====
-- A challenge sent to one dongle.
use tccelta.Common.{◌≡◌, ◌++◌, refl, [], ◌∷◌, true, false, ok, replicate}
use tccelta.Common.Bytes.{Bytes}
use tccelta.Common.Maps.{lookup, put}
use tccelta.Common.Text.{codes, bytes_eq}
use tccelta.Protocol.{challenge_type}
use tccelta.Protocol.Identity.{profile_hmac}
use tccelta.Protocol.Tlv.{append_tlv}
use tccelta.Protocol.Messages.Challenge
use tccelta.Handshake.{truncate_micro}
use tccelta.Registry.{Dongle, verify_access, zero_state}
use tccelta.Memory.{
  Database, Issued, find_by_dev_id, issue, pending, last_cs_of, state_of, fresh_challenge,
}
use tccelta.Exchange.{
  Params, Ports, IssuedChallenge, admit, issuance, message, sign, issue_to, issue_challenge, tag16,
}
use tccelta.Exchange.Sent.{Sent, issue_challenge_sound}

abbrev pub dev : Bytes
dev = 1 ∷ 2 ∷ 3 ∷ []

abbrev pub dongle : Dongle
dongle = record {
  id = 7;
  dev_id = dev;
  profile = profile_hmac;
  auth_key = codes "a";
  rec_key = codes "r";
  public_key = [];
  active = true;
}

abbrev pub database : Database
database = record {
  dongles = (dev, dongle) ∷ [];
  states = (7, zero_state) ∷ [];
  last_cs = [];
  challenges = [];
  t_ms_boot = [];
  seen = [];
  raw_blocks = [];
  rejected = [];
  readings = [];
  positions = [];
  gaps = [];
  alerts = [];
  anchors = [];
  notifications = [];
}

abbrev pub params : Params
params = record {
  challenge_validity = 60000000000;
  max_pending = 3;
  allow_none_profile = false;
  anchor_rtt_max = 2000000000;
  suggested_t_lat = 0;
}

abbrev pub nonce : Bytes
nonce = replicate 16 9

abbrev pub ports : Ports
ports = record { hmac = λ key input. ok (replicate 32 5); nonce = ok nonce; now = 5000 }

abbrev pub number : Issued
number = record { cs = 1; contiguous_seq = 0; c_conf = 0 }

abbrev sent : IssuedChallenge
sent = record {
  tlv = append_tlv [] challenge_type (Challenge.payload (message number nonce) ++ replicate 16 5);
  expires_at = 60000005000;
}

abbrev pub after : Database
after = record database {
  last_cs = (7, 1) ∷ [];
  challenges = ((7, 1), fresh_challenge (issuance params ports dongle nonce)) ∷ [];
}

run : issue_challenge params ports database dev ≡ (ok sent, after)
unfolding issue_challenge admit issue_to issuance message sign tag16 verify_access bytes_eq lookup
    put find_by_dev_id issue pending last_cs_of state_of truncate_micro Challenge.build
run = refl

issue_challenge_sound_example :
    (d : Dongle) × (ns : Bytes) × (i : Issued) × Sent params ports database after dev sent d ns i
issue_challenge_sound_example = issue_challenge_sound params ports database after dev sent run
