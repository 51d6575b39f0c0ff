-- ===== src/Recorder/Accounting.antt =====
-- src/sensor_bag_recorder.cpp: the accounting of a queue's depth, `UpdateQueueAtCapacity` and the
-- three `Update…AccountingLocked`. The time is an argument.
use mrp_robo_baton_4p_no_ros.Base.{
  ℕ, ◌+◌, ◌-◌, ◌%◌, ◌^◌, ◌≡◌, Bool, true, false, not, ◌&&◌, leb, if◌then◌else◌, max, arith,
}
use mrp_robo_baton_4p_no_ros.Bag.Latency.{saturating_add}
use mrp_robo_baton_4p_no_ros.Recorder.{QueueStats, queue_capacity, imu_queue_capacity}

-- `a - b` of two `uint64_t`.
abbrev pub sub64 : ℕ → ℕ → ℕ
sub64 a b = (a + 2 ^ 64 - b) % 2 ^ 64

unfoldable pub update_queue_at_capacity : ℕ → Bool → QueueStats → QueueStats
update_queue_at_capacity now_ns at_capacity stats =
    if at_capacity && not stats.tracker.active
    then record stats {
      tracker = record { active = true; start_ns = now_ns };
      at_capacity_events = saturating_add stats.at_capacity_events 1;
    }
    else if not at_capacity && stats.tracker.active
    then record stats {
      at_capacity_dwell_ns =
          saturating_add stats.at_capacity_dwell_ns (sub64 now_ns stats.tracker.start_ns);
      tracker = record { active = false; start_ns = 0 };
    }
    else stats

unfoldable pub update_frame_queue_accounting : ℕ → ℕ → QueueStats → QueueStats
unfolding update_queue_at_capacity
update_frame_queue_accounting now_ns depth stats =
    update_queue_at_capacity now_ns (leb queue_capacity depth)
      (record stats { peak_depth = max stats.peak_depth depth })

unfoldable pub update_encoded_queue_accounting : ℕ → ℕ → ℕ → QueueStats → QueueStats
unfolding update_queue_at_capacity
update_encoded_queue_accounting now_ns high_watermark depth stats =
    update_queue_at_capacity now_ns (leb high_watermark depth)
      (record stats { peak_depth = max stats.peak_depth depth; high_watermark = high_watermark })

unfoldable pub update_imu_queue_accounting : ℕ → ℕ → QueueStats → QueueStats
unfolding update_queue_at_capacity
update_imu_queue_accounting now_ns depth stats =
    update_queue_at_capacity now_ns (leb imu_queue_capacity depth)
      (record stats { peak_depth = max stats.peak_depth depth })

-- The tracker is active exactly while the queue is at capacity.
pub update_queue_at_capacity_active :
    (now_ns : ℕ) (at_capacity : Bool) (stats : QueueStats)
    → (update_queue_at_capacity now_ns at_capacity stats).tracker.active ≡ at_capacity
unfolding update_queue_at_capacity
update_queue_at_capacity_active now_ns at_capacity stats = ground arith

-- Accounting leaves the count of rejects alone.
pub update_queue_at_capacity_rejects :
    (now_ns : ℕ) (at_capacity : Bool) (stats : QueueStats)
    → (update_queue_at_capacity now_ns at_capacity stats).full_rejects ≡ stats.full_rejects
unfolding update_queue_at_capacity
update_queue_at_capacity_rejects now_ns at_capacity stats = ground arith
