-- ===== src/Batch/Receive/Confirmed.antt =====
-- The ACK that GetConfirmation returns behind a batch.
use tccelta.Common.{
  ◌≡◌, refl, sym, subst, ap, ◌∙◌, false, [], ◌∷◌, Option, none, some, Result, ok, Result-cases,
  Bool-cases, inl, inr, length, ◌==◌, arith,
}
use tccelta.Common.Bytes.{Bytes}
use tccelta.Exchange.{registry_fault}
use tccelta.Registry.{Dongle, verify_access}
use tccelta.Memory.{Fault, Database, find_by_dev_id}
use tccelta.Memory.Blocks.{read_last_ack}
use tccelta.Protocol.{ack_type}
use tccelta.Protocol.Identity.{tag_input}
use tccelta.Protocol.Messages.Ack.{Ack}
use tccelta.Protocol.Messages.Ack
use tccelta.Protocol.Tlv.{read_tlv, append_tlv}
use tccelta.Batch.{Params, Session, Ports, BatchResult, ack_decoded}
use tccelta.Batch.Verify.{ack_eq, holds_ack}
use tccelta.Batch.Confirm.{get_confirmation}
use tccelta.Batch.Receive.{result_of, sign_now, sign_ack, signed_ack, sender, prepare, receive}
use tccelta.Batch.Receive.Progress.{receive-Committed, receive-Recorded}

-- A text with a byte at least.
abbrev IsFull : Bytes → Type 0
IsFull t = (length t == 0) ≡ false

build-IsFull : (a : Ack) (tag : Bytes) → IsFull (Ack.build a tag)
unfolding Ack.build append_tlv
build-IsFull a tag = ground arith

abbrev same_result : Bytes → Result Fault Bytes
same_result t = ok t

ok-IsFull : (s t : Bytes) → IsFull s → same_result s ≡ same_result t → IsFull t
ok-IsFull s t f h = let e : s ≡ t = ground (arith, h) in rw (← e) f

module _ (p : Ports) (d : Dongle) (session : Session) where
  sign_now-IsFull : (a : Ack) (t : Bytes) → sign_now p d session a ≡ ok t → IsFull t
  unfolding sign_now
  sign_now-IsFull a t h =
      elim (Result-cases (p.hmac_tx d.auth_key (tag_input ack_type d.dev_id (Ack.payload a)))) [
        | inl (mac, e) ↦ ok-IsFull _ t (build-IsFull a _) (rw (e, sign_now) at h)
        | inr (z, e) ↦ ground (arith, (rw (e, sign_now) at h))
      ]

  sign_ack-IsFull :
      (pre : Option (Ack × Bytes)) (a : Ack) (t : Bytes)
      → sign_ack p d session pre a ≡ ok t
      → IsFull t
  unfolding sign_ack
  sign_ack-IsFull none a t h = sign_now-IsFull a t h
  sign_ack-IsFull (some (prov, tag)) a t h = elim (Bool-cases (ack_eq prov a)) [
    | inl e ↦ ok-IsFull _ t (build-IsFull a tag) (rw e at h)
    | inr e ↦ sign_now-IsFull a t (rw e at h)
  ]

  -- An ACK that is sent has its envelope at least.
  signed_ack-IsFull :
      (pre : Option (Ack × Bytes)) (current t : Bytes) (a : Ack)
      → signed_ack p d session pre current a ≡ ok t
      → IsFull t
  unfolding signed_ack ack_decoded read_tlv
  signed_ack-IsFull pre [] t a h = sign_ack-IsFull pre a t h
  signed_ack-IsFull pre (x ∷ xs) t a h = elim (Bool-cases (holds_ack (ack_decoded (x ∷ xs)) a)) [
    | inl e ↦ ok-IsFull (x ∷ xs) t (ground arith) (rw (e, signed_ack) at h)
    | inr e ↦ sign_ack-IsFull pre a t (rw (e, signed_ack) at h)
  ]

find_same :
    (b c : Database) (dev : Bytes)
    → c.dongles ≡ b.dongles
    → find_by_dev_id c dev ≡ find_by_dev_id b dev
unfolding find_by_dev_id
find_same b c dev e = rw e refl

-- Behind an accepted batch, GetConfirmation returns to the same dongle the ACK that the batch was answered with.
pub get_confirmation-receive :
    (q : Params) (p : Ports) (b after : Database) (session : Session) (body : Bytes)
    (out : BatchResult)
    → receive q p b session body ≡ (ok out, after)
    → get_confirmation q.allow_none_profile after session.dev ≡ ok out.ack_tlv
unfolding receive sender get_confirmation read_last_ack result_of
get_confirmation-receive q p b after session body out h =
    elim (Result-cases (find_by_dev_id b session.dev)) [
      | inr (z, e) ↦ ground (arith, (rw (e, receive, sender) at h))
      | inl (d, e) ↦ elim (Result-cases (registry_fault (verify_access d q.allow_none_profile))) [
        | inr (z, f) ↦ ground (arith, (rw (e, f, receive, sender) at h))
        | inl (u, f) ↦ elim (Result-cases (prepare q p b d body)) [
          | inr (z, g) ↦ ground (arith, (rw (e, f, g, receive, sender) at h))
          | inl (v, g) ↦
              let given : sender q b session ≡ ok d = rw (e, f, sender) refl in
              let m = receive-Committed q p b after session body d v out given g h in
              let (est, read, done) = receive-Recorded q p b after session body d v out given g h in
              let full : IsFull out.ack_tlv =
                subst IsFull (sym (ap (λ z. z.ack_tlv) m.acknowledged.returns)) (
                  signed_ack-IsFull p d session v.presigned _ m.acknowledged.ack_tlv _
                    m.acknowledged.signed) in
              let found : find_by_dev_id after session.dev ≡ ok d =
                find_same b after session.dev done.dongles ∙ e in
              let last : read_last_ack after d.id ≡ out.ack_tlv = done.last_ack in
              rw (found, get_confirmation) (rw f (rw last (rw full refl)))
        ]
      ]
    ]
