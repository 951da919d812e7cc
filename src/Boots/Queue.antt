-- ===== src/Boots/Queue.antt =====
-- backend/internal/adapter/memory/worker.go: the queue of the boots whose time is to be calculated,
-- and the groups of their anchors.
use tccelta.Common.{
  ℕ, Bool, true, false, not, ◌&&◌, ◌||◌, List, [], ◌∷◌, ◌++◌, ◌+◌, Option, none, some, ltb, ◌==◌,
  if◌then◌else◌,
}
use tccelta.Boots.{Boot, BootKey, Group, Anchor, Source, anchors, same_boot, boot_row}
use tccelta.Memory.{Alert, same_alert_kind}
use tccelta.Common.Words.{int32, uint32_of}
use tccelta.Timeline.Fit.{Estimate, NeighborReference}

-- The row that is pending for longer, the first one where they are equal.
abbrev pub older : Boot → Option Boot → Boot
older x none = x
older x (some best) = if ltb x.pending_since best.pending_since then x else best

unfoldable pub pending_loop : List Boot → Option Boot → Option Boot
pending_loop [] best = best
pending_loop (x ∷ xs) best = pending_loop xs (if x.pending then some (older x best) else best)

-- TakePending
unfoldable pub take_pending : List Boot → Option Boot
take_pending rows = pending_loop rows none

-- ListAnchors
unfoldable pub list_anchors : List Boot → BootKey → List Anchor
list_anchors rows k = elim (boot_row rows k) [ none ↦ [] | some x ↦ x.anchored ]

abbrev pub from_anchors : Option Source → Bool
from_anchors (some anchors) = true
from_anchors _ = false

-- The first seq of a boot of the dongle whose time rests on anchors.
unfoldable pub anchored_at : ℕ → Boot → Option ℕ
anchored_at id x = if x.key.dongle_id == id && from_anchors x.time_source then x.first_seq else none

-- A boot at `fs` is nearer to `first_seq`, on its side, than the one found so far.
unfoldable pub is_nearer : Bool → ℕ → ℕ → Option (ℕ × Boot) → Bool
is_nearer true first_seq fs none = ltb fs first_seq
is_nearer true first_seq fs (some (best, _)) = ltb fs first_seq && ltb best fs
is_nearer false first_seq fs none = ltb first_seq fs
is_nearer false first_seq fs (some (best, _)) = ltb first_seq fs && ltb fs best

unfoldable pub neighbor_loop : List Boot → ℕ → ℕ → Bool → Option (ℕ × Boot) → Option (ℕ × Boot)
neighbor_loop [] id first_seq previous best = best
neighbor_loop (x ∷ xs) id first_seq previous best =
    neighbor_loop xs id first_seq previous (elim (anchored_at id x) [
      | none ↦ best
      | some fs ↦ if is_nearer previous first_seq fs best then some (fs, x) else best
    ])

unfoldable pub reference_to : Boot → Option NeighborReference
reference_to x = elim x.a_ms [
  | none ↦ none
  | some a ↦ elim x.b [
    | none ↦ none
    | some b ↦ elim x.base_uncertainty_ms [
      | none ↦ none
      | some u ↦ elim x.first_t_ms [
        | none ↦ none
        | some f ↦ elim x.last_t_ms [
          | none ↦ none
          | some l ↦
              some
                (record { a_ms = a; b = b; base_uncertainty_ms = u; first_t_ms = f; last_t_ms = l })
        ]
      ]
    ]
  ]
]

-- neighbor; PreviousAnchored and NextAnchored are its two sides.
unfoldable pub neighbor : List Boot → ℕ → ℕ → Bool → Option NeighborReference
neighbor rows id first_seq previous = elim (neighbor_loop rows id first_seq previous none) [
  | none ↦ none
  | some (_, x) ↦ reference_to x
]

-- A write through the pointer that bootRow returns; nothing where it is nil.
unfoldable pub modify : List Boot → BootKey → (Boot → Boot) → List Boot
modify [] k f = []
modify (x ∷ xs) k f = let rest = modify xs k f in if same_boot x.key k then f x ∷ xs else x ∷ rest

unfoldable pub with_time : Option Estimate → ℕ → Boot → Boot
with_time none now x = record x {
  a_ms = none;
  b = none;
  base_uncertainty_ms = none;
  time_source = none;
  time_updated_at = now;
  pending = false;
}
with_time (some e) now x = record x {
  a_ms = some e.a_ms;
  b = some e.b;
  base_uncertainty_ms = some (int32 (uint32_of e.base_uncertainty_ms));
  time_source = e.source;
  time_updated_at = now;
  pending = false;
}

-- UpdateTime
unfoldable pub update_time : BootKey → Option Estimate → ℕ → List Boot → List Boot
update_time k e now rows = modify rows k (with_time e now)

abbrev pub max_int64 : ℕ
max_int64 = 9223372036854775807

-- The first seqs of the anchored boots before and behind `first_seq`.
unfoldable pub range_loop : List Boot → ℕ → ℕ → ℕ → ℕ → ℕ × ℕ
range_loop [] id first_seq lo hi = (lo, hi)
range_loop (x ∷ xs) id first_seq lo hi =
    let skip = range_loop xs id first_seq lo hi in
    elim (anchored_at id x) [
      | none ↦ skip
      | some fs ↦
          range_loop xs id first_seq (if ltb fs first_seq && ltb lo fs then fs else lo)
            (if ltb first_seq fs && ltb fs hi then fs else hi)
    ]

-- A boot without a time from anchors, not pending yet, between them.
unfoldable pub is_between : ℕ → ℕ → ℕ → Boot → Bool
is_between id lo hi x = elim x.first_seq [
  | none ↦ false
  | some fs ↦
      x.key.dongle_id == id
      && not x.pending
      && not (from_anchors x.time_source)
      && ltb lo fs
      && ltb fs hi
]

unfoldable pub mark_loop : ℕ → ℕ → ℕ → ℕ → List Boot → ℕ × List Boot
mark_loop id lo hi now [] = (0, [])
mark_loop id lo hi now (x ∷ xs) =
    let (n, rest) = mark_loop id lo hi now xs in
    if is_between id lo hi x
    then (n + 1, record x { pending = true; pending_since = now } ∷ rest)
    else (n, x ∷ rest)

-- MarkAnchorlessNeighbors
unfoldable pub mark_anchorless_neighbors : ℕ → ℕ → ℕ → List Boot → ℕ × List Boot
mark_anchorless_neighbors id first_seq now rows =
    let (lo, hi) = range_loop rows id first_seq 0 max_int64 in mark_loop id lo hi now rows

-- CountPending
unfoldable pub count_pending : List Boot → ℕ
count_pending [] = 0
count_pending (x ∷ xs) = let n = count_pending xs in if x.pending then n + 1 else n

abbrev pub Groups : Type 0
Groups = List (BootKey × List Group)

-- List, of the groups of a boot.
unfoldable pub list_groups : Groups → BootKey → List Group
list_groups [] k = []
list_groups (e ∷ es) k = let rest = list_groups es k in if same_boot e.0 k then e.1 else rest

-- Delete
unfoldable pub delete_groups : BootKey → Groups → Groups
delete_groups k [] = []
delete_groups k (e ∷ es) =
    let rest = delete_groups k es in if same_boot e.0 k then rest else e ∷ rest

-- Copy
unfoldable pub copy_groups : BootKey → List Group → Groups → Groups
copy_groups k gs es = (k, list_groups es k ++ gs) ∷ delete_groups k es

abbrev pub given_eq : Option ℕ → Option ℕ → Bool
given_eq (some a) (some b) = a == b
given_eq _ _ = false

unfoldable pub is_known : List Alert → Alert → Bool
is_known [] a = false
is_known (x ∷ xs) a =
    (x.dongle_id == a.dongle_id
      && same_alert_kind x.kind a.kind
      && given_eq x.boot_generation a.boot_generation
      && given_eq x.boot_id a.boot_id)
    || is_known xs a

-- InsertAlertIfNew
unfoldable pub insert_alert_if_new : Alert → List Alert → List Alert
insert_alert_if_new a xs = if is_known xs a then xs else xs ++ a ∷ []
