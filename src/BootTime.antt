-- ===== src/BootTime.antt =====
-- backend/internal/usecase/boottime/boottime.go: ProcessOne takes a boot off the queue and calculates
-- its time; a boot that its anchors have given another time sets its neighbours without anchors on the
-- queue. The transactions do not fail in memory; logs and metrics are left out.
use tccelta.Common.{
  ℕ, Bool, true, false, not, ◌&&◌, ◌||◌, List, [], ◌∷◌, Option, none, some, if◌then◌else◌,
}
use tccelta.Boots.{Boot, BootKey}
use tccelta.Boots.Queue.{
  take_pending, list_anchors, neighbor, update_time, mark_anchorless_neighbors, count_pending,
  copy_groups, delete_groups, insert_alert_if_new, from_anchors, Groups,
}
use tccelta.Memory.{Alert, AlertKind}
use tccelta.Memory.Tables.{Tables}
use tccelta.Timeline.Fit.{Estimate, no_estimate, estimate_from_anchors, estimate_from_neighbors}
use tccelta.Timeline.Groups.{Doubles, Config}

module _ (d : Doubles) (c : Config) where
  -- From the anchors of the boot, or else from its neighbours on both sides.
  unfoldable pub estimate_of : List Boot → Boot → Estimate
  estimate_of rows x = elim (list_anchors rows x.key) [
    | a ∷ more ↦ estimate_from_anchors d c (a ∷ more)
    | [] ↦ elim x.first_seq [
      | none ↦ no_estimate []
      | some fs ↦ elim x.first_t_ms [
        | none ↦ no_estimate []
        | some first ↦ elim x.last_t_ms [
          | none ↦ no_estimate []
          | some last ↦
              estimate_from_neighbors d c (neighbor rows x.key.dongle_id fs true)
                (neighbor rows x.key.dongle_id fs false) first last x.max_offset_ms
        ]
      ]
    ]
  ]

  -- x != y on floats.
  abbrev pub differs : ℕ → ℕ → Bool
  differs x y = not (d.le x y && d.le y x)

  -- The anchors have given the boot another time; a row has either both of AMs and B or none.
  unfoldable pub anchors_changed : Boot → Estimate → Bool
  anchors_changed x e = elim x.a_ms [
    | none ↦ true
    | some a ↦ elim x.b [
      | none ↦ true
      | some b ↦ not (from_anchors x.time_source) || differs a e.a_ms || differs b e.b
    ]
  ]

  abbrev pub alert_of : BootKey → AlertKind → Alert
  alert_of k kind = record {
    dongle_id = k.dongle_id;
    kind = kind;
    boot_generation = some k.generation;
    boot_id = some k.boot_id;
  }

  unfoldable pub insert_alerts : BootKey → List AlertKind → List Alert → List Alert
  insert_alerts k [] alerts = alerts
  insert_alerts k (a ∷ more) alerts =
      insert_alerts k more (insert_alert_if_new (alert_of k a) alerts)

  abbrev pub to_update : Estimate → Option Estimate
  to_update e = elim e.source [ none ↦ none | some s ↦ some e ]

  unfoldable pub with_groups : BootKey → Estimate → Groups → Groups
  with_groups k e groups =
      let cleared = delete_groups k groups in
      if from_anchors e.source then copy_groups k e.groups cleared else cleared

  -- The first transaction: the rows that the calculation of one boot leaves.
  unfoldable pub calculated : Boot → Estimate → ℕ → Tables → Tables
  calculated x e now t = record t {
    core = record t.core { alerts = insert_alerts x.key e.alerts t.core.alerts };
    boots = update_time x.key (to_update e) now t.boots;
    groups = with_groups x.key e t.groups;
  }

  -- The second transaction, on the neighbours.
  unfoldable pub mark_neighbors : Boot → Estimate → ℕ → Tables → Tables
  mark_neighbors x e later t =
      if from_anchors e.source && anchors_changed x e
      then elim x.first_seq [
        | none ↦ t
        | some fs ↦ record t {
          boots = (mark_anchorless_neighbors x.key.dongle_id fs later t.boots).1;
        }
      ]
      else t

  -- ProcessOne; `now` and `later` are what the clock gives in its transactions.
  unfoldable pub process_one : ℕ → ℕ → Tables → Bool × Tables
  process_one now later t = elim (take_pending t.boots) [
    | none ↦ (false, t)
    | some x ↦
        let e = estimate_of t.boots x in (true, mark_neighbors x e later (calculated x e now t))
  ]

-- PendingCount
unfoldable pub pending_count : Tables → ℕ
pending_count t = count_pending t.boots
