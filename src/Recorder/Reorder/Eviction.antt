-- ===== src/Recorder/Reorder/Eviction.antt =====
-- src/sensor_bag_recorder.cpp: `MakeEncodedAdmissionRoomByEvictingOldestReadyFrameSets`, which takes
-- whole frame sets out of the reorder ring when a new one would pass the high watermark. The evicted
-- payloads go back to their pool, which is left out.
pub mod Frames
pub mod Sets
pub mod Room
use mrp_robo_baton_4p_no_ros.Base.{
  ℕ, zero, suc, ◌+◌, ◌-◌, ◌*◌, ◌/◌, ◌%◌, ◌^◌, Bool, true, false, not, ◌&&◌, ◌||◌, List, length, ltb,
  leb, ◌==◌, if◌then◌else◌, min,
}
use mrp_robo_baton_4p_no_ros.Base.Slots.{update}
use mrp_robo_baton_4p_no_ros.Bag.Latency.{saturating_add}
use mrp_robo_baton_4p_no_ros.Recorder.{
  EncodedFrameSlot, empty_encoded_job, encoded_queue_capacity, max_channels,
  max_oldest_frame_sets_evicted_per_admission,
}
use mrp_robo_baton_4p_no_ros.Recorder.Accounting.{update_encoded_queue_accounting}
use mrp_robo_baton_4p_no_ros.Recorder.Reorder.{EncodedQueue, slot_at}

-- `a + b` of two `uint64_t`.
abbrev pub add64 : ℕ → ℕ → ℕ
add64 a b = (a + b) % 2 ^ 64

unfoldable pub effective_watermark : EncodedQueue → ℕ
effective_watermark q = min q.high_watermark encoded_queue_capacity

unfoldable pub encoded_backpressure_active : EncodedQueue → Bool
unfolding effective_watermark
encoded_backpressure_active q = leb (effective_watermark q) q.count

-- The first order of a frame set that the writer has not begun.
unfoldable pub candidate_order : ℕ → EncodedQueue → ℕ
candidate_order group_size q =
    let group_remainder = q.next_write_order % group_size in
    if group_remainder == 0
    then q.next_write_order
    else add64 q.next_write_order (group_size - group_remainder)

unfoldable pub groups_to_evict : ℕ → EncodedQueue → ℕ
unfolding effective_watermark
groups_to_evict group_size q =
    let frames_to_free = q.count - effective_watermark q + 1 in
    (frames_to_free + group_size - 1) / group_size

-- The frames of one set from `frame_index` on: the first gives the group that the others must have.
unfoldable pub complete_ready_group : ℕ → ℕ → ℕ → ℕ → EncodedQueue → Bool
complete_ready_group zero frame_index group_order group_id q = true
complete_ready_group (suc remaining) frame_index group_order group_id q =
    let record_order = add64 group_order frame_index in
    let slot = slot_at record_order q in
    let slot_group = slot.job.job.group_id in
    let rest = λ (g : ℕ). complete_ready_group remaining (frame_index + 1) group_order g q in
    if not slot.occupied || (slot.evicted || not (slot.record_order == record_order))
    then false
    else if frame_index == 0
    then rest slot_group
    else if not (slot_group == group_id)
    then false
    else rest group_id

unfoldable pub all_groups_ready : ℕ → ℕ → ℕ → ℕ → EncodedQueue → Bool
unfolding complete_ready_group
all_groups_ready zero group_index group_size candidate q = true
all_groups_ready (suc remaining) group_index group_size candidate q =
    let rest = all_groups_ready remaining (group_index + 1) group_size candidate q in
    if complete_ready_group group_size 0 (add64 candidate (group_index * group_size)) 0 q
    then rest
    else false

-- The queue and the counts of what is evicted.
pub record Eviction : Type 0 where
  pub queue : EncodedQueue
  pub groups : ℕ
  pub frames : ℕ
  pub bytes : ℕ

unfoldable pub evict_frame : ℕ → Eviction → Eviction
evict_frame record_order e =
    let slot = slot_at record_order e.queue in
    record e {
      bytes =
          saturating_add e.bytes
            (saturating_add (length slot.job.image_payload) (length slot.job.metadata_payload));
      queue = record e.queue {
        slots = update e.queue.slots (record_order % encoded_queue_capacity) (record {
          record_order = record_order;
          occupied = true;
          evicted = true;
          job = empty_encoded_job;
        });
        count = e.queue.count - 1;
      };
    }

unfoldable pub evict_frames : ℕ → ℕ → ℕ → Eviction → Eviction
unfolding evict_frame
evict_frames zero frame_index group_order e = e
evict_frames (suc remaining) frame_index group_order e =
    evict_frames remaining (frame_index + 1) group_order
      (evict_frame (add64 group_order frame_index) e)

unfoldable pub evict_groups : ℕ → ℕ → ℕ → ℕ → Eviction → Eviction
unfolding evict_frames
evict_groups zero group_index group_size candidate e = e
evict_groups (suc remaining) group_index group_size candidate e =
    let evicted = evict_frames group_size 0 (add64 candidate (group_index * group_size)) e in
    evict_groups remaining (group_index + 1) group_size candidate (record evicted {
      groups = evicted.groups + 1;
      frames = saturating_add evicted.frames group_size;
    })

-- The totals of evictions in the statistics.
pub record EvictionStats : Type 0 where
  pub oldest_evicted_groups : ℕ
  pub oldest_evicted_frames : ℕ
  pub oldest_evicted_bytes : ℕ

unfoldable pub add_evictions : Eviction → EvictionStats → EvictionStats
add_evictions e stats = record {
  oldest_evicted_groups = saturating_add stats.oldest_evicted_groups e.groups;
  oldest_evicted_frames = saturating_add stats.oldest_evicted_frames e.frames;
  oldest_evicted_bytes = saturating_add stats.oldest_evicted_bytes e.bytes;
}

unfoldable pub nothing_evicted : EncodedQueue → Eviction
nothing_evicted q = record { queue = q; groups = 0; frames = 0; bytes = 0 }

-- The eviction of `groups` sets with its accounting.
unfoldable pub evict_oldest : ℕ → ℕ → ℕ → EncodedQueue → Eviction
unfolding evict_groups nothing_evicted
evict_oldest now_ns group_size groups q =
    let e = evict_groups groups 0 group_size (candidate_order group_size q) (nothing_evicted q) in
    record e {
      queue = record e.queue {
        stats =
            update_encoded_queue_accounting now_ns e.queue.high_watermark e.queue.count
              e.queue.stats;
      };
    }

-- Whether a new frame set may be admitted. `group_size` is the number of cameras of the mask.
unfoldable pub make_encoded_admission_room :
    ℕ → ℕ → EncodedQueue × EvictionStats → (EncodedQueue × EvictionStats) × Bool
unfolding evict_oldest all_groups_ready effective_watermark groups_to_evict candidate_order
make_encoded_admission_room now_ns group_size (q, stats) =
    let groups = groups_to_evict group_size q in
    let e = evict_oldest now_ns group_size groups q in
    if ltb q.count (effective_watermark q)
    then ((q, stats), true)
    else if group_size == 0 || ltb max_channels group_size
    then ((q, stats), false)
    else if groups == 0 || ltb max_oldest_frame_sets_evicted_per_admission groups
    then ((q, stats), false)
    else if not (all_groups_ready groups 0 group_size (candidate_order group_size q) q)
    then ((q, stats), false)
    else ((e.queue, add_evictions e stats), ltb e.queue.count (effective_watermark q))
