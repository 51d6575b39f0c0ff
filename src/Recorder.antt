-- ===== src/Recorder.antt =====
-- src/sensor_bag_recorder.h: the state of `SensorBagRecorder`. Each part stands under its own mutex
-- in the source and is a record here; the statistics that belong to a queue stand with the queue.
pub mod Accounting
pub mod Control
pub mod Imu
pub mod Reorder
pub mod Selection
pub mod FrameSets
pub mod Admission
pub mod Payloads
pub mod Json
pub mod Ending
pub mod Writing
use mrp_robo_baton_4p_no_ros.Base.{
  ℕ, ◌*◌, ◌/◌, Bool, true, false, Option, none, List, [], String, if◌then◌else◌,
}

abbrev pub max_channels : ℕ
max_channels = 4

abbrev pub queue_capacity : ℕ
queue_capacity = 64

abbrev pub encoded_queue_capacity : ℕ
encoded_queue_capacity = 4096

abbrev pub max_oldest_frame_sets_evicted_per_admission : ℕ
max_oldest_frame_sets_evicted_per_admission = 2

abbrev pub encoded_admission_high_watermark : ℕ
encoded_admission_high_watermark = encoded_queue_capacity * 15 / 16

abbrev pub imu_queue_capacity : ℕ
imu_queue_capacity = 8192

abbrev pub writer_imu_high_watermark : ℕ
writer_imu_high_watermark = imu_queue_capacity / 2

-- `QueueAtCapacityTracker`.
pub record QueueAtCapacityTracker : Type 0 where
  pub active : Bool
  pub start_ns : ℕ

-- What the statistics record of one queue, and its tracker.
pub record QueueStats : Type 0 where
  pub peak_depth : ℕ
  pub full_rejects : ℕ
  pub high_watermark : ℕ
  pub at_capacity_dwell_ns : ℕ
  pub at_capacity_events : ℕ
  pub tracker : QueueAtCapacityTracker

-- `raw_frame` is the retained frame and `jpeg_slot` the slot of the encoder, if there is one.
pub record FrameJob : Type 0 where
  pub camera_id : ℕ
  pub sequence : ℕ
  pub frame_id : ℕ
  pub group_id : ℕ
  pub group_timestamp_ns : ℕ
  pub record_order : ℕ
  pub raw_frame : Option ℕ
  pub camera_timestamp_ns : ℕ
  pub jpeg_slot : Option ℕ
  pub width : ℕ
  pub height : ℕ
  pub stride : ℕ
  pub vstride : ℕ

abbrev pub empty_frame_job : FrameJob
empty_frame_job = record {
  camera_id = 0;
  sequence = 0;
  frame_id = 0;
  group_id = 0;
  group_timestamp_ns = 0;
  record_order = 0;
  raw_frame = none;
  camera_timestamp_ns = 0;
  jpeg_slot = none;
  width = 0;
  height = 0;
  stride = 0;
  vstride = 0;
}

pub record EncodedFrameJob : Type 0 where
  pub job : FrameJob
  pub image_payload : List ℕ
  pub metadata_payload : List ℕ
  pub jpeg_size : ℕ
  pub queued_timestamp_ns : ℕ

abbrev pub empty_encoded_job : EncodedFrameJob
empty_encoded_job = record {
  job = empty_frame_job;
  image_payload = [];
  metadata_payload = [];
  jpeg_size = 0;
  queued_timestamp_ns = 0;
}

pub record EncodedFrameSlot : Type 0 where
  pub record_order : ℕ
  pub occupied : Bool
  pub evicted : Bool
  pub job : EncodedFrameJob

abbrev pub empty_slot : EncodedFrameSlot
empty_slot = record { record_order = 0; occupied = false; evicted = false; job = empty_encoded_job }
