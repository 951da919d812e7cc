-- ===== src/Ingestion/Examples.antt =====
-- The theorems on the ingestion at a batch of a data block, a LOSS block and a BOOT block.
use tccelta.Common.{
  ℕ, ◌+◌, ◌^◌, ◌≤◌, ◌<◌, ◌≡◌, ◌≢◌, inl, inr, refl, true, List, [], ◌∷◌, ◌++◌, Option, some, none,
  length, arith, ltb, leb, ◌==◌, if◌then◌else◌, ◌&&◌,
}
use tccelta.Common.Bytes.{Bytes}
use tccelta.Protocol.Records.{touch, reg_boot, reg_loss}
use tccelta.Protocol.Records.Items.{
  Item, pid_item, encode_items, add_items, add_item, read_records-encode_items,
}
use tccelta.Protocol.Builder.{build_marker}
use tccelta.Protocol.Builder.Blocks.{read_records-build_marker}
use tccelta.Ingestion.{BlockIn, StateIn}
use tccelta.Ingestion.Generation.{assign_generation, boot_count, assign_generation_monotone}
use tccelta.Ingestion.Apply.{apply}
use tccelta.Ingestion.Apply.Steps.{covers, Rises}
use tccelta.Ingestion.Apply.Rounds.{NoWrap}
use tccelta.Ingestion.Apply.Coverage.{apply-covers}
use tccelta.Ingestion.Apply.Resend.{Unchanged, apply_again}

assign_generation_monotone_example :
    let (g', u', advanced) = assign_generation 2 60000 5 in
    (boot_count 2 60000 ≤ boot_count g' u')
    × (boot_count g' u' < boot_count 2 60000 + 2 ^ 16)
    × (◌≢◌ {A = ℕ} 5 0 → u' ≡ 5)
assign_generation_monotone_example =
    assign_generation_monotone 2 60000 5 (omega arith) (omega arith) (omega arith)

-- A catalogue that knows the speed alone.
abbrev catalogue : ℕ → Option ℕ
catalogue p = if p == 13 then some 1 else none

abbrev block_at : ℕ → Bytes → BlockIn
block_at seq payload = record {
  b = record {
    hdr = record { seq = seq; boot_id = 4; t0_ms = 0; size = length payload };
    payload = payload;
    tag = [];
  };
  valid = true;
  verified = true;
}

abbrev speed : Item
speed = pid_item (record { pid = 13; dt = 20; a = 80; b = 0 })

abbrev some_header : Bytes
some_header = 1 ∷ 0 ∷ 0 ∷ 0 ∷ 4 ∷ 0 ∷ 0 ∷ 0 ∷ 0 ∷ 0 ∷ 17 ∷ 0 ∷ []

speed_block : BlockIn
speed_block = block_at 1 (some_header ++ encode_items (speed ∷ []))

loss_block : BlockIn
loss_block = block_at 3 (build_marker 3 4 0 reg_loss 2 4)

boot_block : BlockIn
boot_block = block_at 7 (build_marker 7 5 0 reg_boot 5 6)

speed_block-NoWrap : NoWrap speed_block
unfolding speed_block add_items add_item touch
speed_block-NoWrap = record {
  seq_fits = omega arith;
  to_fits =
      λ c m e f. ground (arith, read_records-encode_items some_header speed [] refl (omega arith));
}

loss_block-NoWrap : NoWrap loss_block
unfolding loss_block
loss_block-NoWrap = record {
  seq_fits = omega arith;
  to_fits = λ c m e f.
      ground (
        arith,
        read_records-build_marker 3 4 0 reg_loss 2 4 (inr refl) (omega arith) (omega arith),
      );
}

boot_block-NoWrap : NoWrap boot_block
unfolding boot_block
boot_block-NoWrap = record {
  seq_fits = omega arith;
  to_fits = λ c m e f.
      ground (
        arith,
        read_records-build_marker 7 5 0 reg_boot 5 6 (inl refl) (omega arith) (omega arith),
      );
}

abbrev batch : List BlockIn
batch = speed_block ∷ loss_block ∷ boot_block ∷ []

abbrev state : StateIn
state = record { contiguous_seq = 0; g = 0; u = 4 }

apply-covers_example :
    let r = apply catalogue batch state in
    ((s : ℕ) → covers r s ≡ (ltb 0 s && leb s r.new_ack))
    × (0 ≤ r.new_ack)
    × Rises 0 r.accepted (r.new_ack + 1)
apply-covers_example =
    apply-covers catalogue batch state
      (speed_block-NoWrap, (loss_block-NoWrap, (boot_block-NoWrap, tt))) (omega arith)

apply_again_example :
    let r = apply catalogue batch state in
    Unchanged r (apply catalogue batch (record { contiguous_seq = r.new_ack; g = r.g; u = r.u }))
apply_again_example =
    apply_again catalogue batch state
      (speed_block-NoWrap, (loss_block-NoWrap, (boot_block-NoWrap, tt))) (omega arith)
