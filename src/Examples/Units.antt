-- ===== src/Examples/Units.antt =====
-- The MP4 recorder of src/h264_mp4_recorder.cpp on concrete inputs.
use mrp_robo_baton_4p_no_ros.Base.{
  ℕ, ◌≢◌, ◌≡◌, ◌⊎◌, refl, true, false, none, some, List, [], ◌∷◌, arith,
}
use mrp_robo_baton_4p_no_ros.Base.Int.{pos}
use mrp_robo_baton_4p_no_ros.Recorder.Imu.{ImuSample}
use mrp_robo_baton_4p_no_ros.Mp4.AccessUnit.{
  H264AccessUnitInfo, start_code_at, find_from, note_nal, parse_loop, find_annex_b_start_code,
  parse_h264_access_unit,
}
use mrp_robo_baton_4p_no_ros.Mp4.AccessUnit.Units.{
  NalUnit, AreUnits, has_kind, is_vcl, is_idr, reported, last_of, parse_h264_access_unit-AreUnits,
}
use mrp_robo_baton_4p_no_ros.Mp4.Admission.{
  EncodedFrame, EncodedJob, RecorderStats, Mp4Recorder, observe_encoded_frame, observe_imu_sample,
}
use mrp_robo_baton_4p_no_ros.Mp4.Admission.Queue.{
  observe_encoded_frame-Admits, observe_encoded_frame-IsBounded,
}
use mrp_robo_baton_4p_no_ros.Mp4.Admission.Steps.{Admits, IsBounded, sps_of, pps_of}
use mrp_robo_baton_4p_no_ros.Mp4.Admission.Steps.{total_bytes}
use mrp_robo_baton_4p_no_ros.Mp4.Admission.Samples.{
  IsRising, last_time, IsSampleQueue, observe_imu_sample-IsSampleQueue,
}

-- The two parameter sets and a key picture.
abbrev key_unit : List ℕ
key_unit = 0 ∷ 0 ∷ 0 ∷ 1 ∷ 0x67 ∷ 66 ∷ 0 ∷ 0 ∷ 1 ∷ 0x68 ∷ 206 ∷ 0 ∷ 0 ∷ 1 ∷ 0x65 ∷ 136 ∷ 132 ∷ []

key_unit_parsed :
    parse_h264_access_unit key_unit
    ≡ some (record {
      has_vcl = true;
      has_idr = true;
      has_sps = true;
      has_pps = true;
      sps_begin = 0;
      sps_end = 6;
      pps_begin = 6;
      pps_end = 11;
    })
unfolding parse_h264_access_unit find_annex_b_start_code find_from start_code_at parse_loop note_nal
key_unit_parsed = refl

parse_h264_access_unit-AreUnits_example :
    (AreUnits key_unit 0 [] × (parse_h264_access_unit key_unit ≡ none))
    ⊎ ((units : List NalUnit) × (info : H264AccessUnitInfo) × (units ≢ [])
        × AreUnits key_unit 0 units
        × (parse_h264_access_unit key_unit ≡ some info)
        × (info.has_vcl ≡ has_kind is_vcl units)
        × (info.has_idr ≡ has_kind is_idr units)
        × ((info.has_sps, info.sps_begin, info.sps_end) ≡ reported (last_of 7 units) (false, 0, 0))
        × ((info.has_pps, info.pps_begin, info.pps_end) ≡ reported (last_of 8 units) (false, 0, 0)))
parse_h264_access_unit-AreUnits_example = parse_h264_access_unit-AreUnits key_unit

abbrev no_counts : RecorderStats
no_counts = record {
  encoded_frames_selected = 0;
  encoded_frames_admitted = 0;
  encoded_frames_dropped = 0;
  encoded_frames_selected_by_camera = λ i. 0;
  encoded_frames_admitted_by_camera = λ i. 0;
  encoded_frames_dropped_by_camera = λ i. 0;
  encoded_queue_current_depth = 0;
  encoded_queue_peak_depth = 0;
  encoded_queue_full_drops = 0;
  encoded_queue_current_bytes = 0;
  encoded_queue_byte_high_watermark = 0;
  encoded_queue_byte_full_drops = 0;
  imu_samples_admitted = 0;
  imu_samples_dropped = 0;
  imu_queue_peak_depth = 0;
}

abbrev sample_at : ℕ → ImuSample
sample_at sample_timestamp_ns = record {
  struct_size = 120;
  sample_sequence = 1;
  sample_timestamp_ns = sample_timestamp_ns;
  gyro_rps = [];
  accel_mps2 = [];
}

abbrev old_job : EncodedJob
old_job = record { camera_id = 1; timestamp_ns = 40; key_frame = true; payload = key_unit }

abbrev mp4_recorder : Mp4Recorder
mp4_recorder = record {
  started = true;
  stopping = false;
  camera_mask = 15;
  encoded_queue = old_job ∷ [];
  encoded_queue_capacity = 512;
  encoded_queue_byte_capacity = 134217728;
  encoded_queue_current_bytes = 17;
  cached_sps = λ i. [];
  cached_pps = λ i. [];
  resync_required = λ i. true;
  last_seen_timestamp_ns = λ i. 40;
  imu_queue = sample_at 5 ∷ [];
  last_imu_timestamp_ns = 5;
  error = [];
  stats = no_counts;
}

abbrev key_frame : EncodedFrame
key_frame = record {
  struct_size = 104;
  flags = 1;
  codec = 1;
  is_null = false;
  payload = key_unit;
  timestamp_ns = 50;
}

observe_encoded_frame-Admits_example :
    Admits 2 40 key_frame
      (sps_of 2 key_frame mp4_recorder)
      (pps_of 2 key_frame mp4_recorder)
      mp4_recorder
      (observe_encoded_frame (pos 2) key_frame mp4_recorder)
observe_encoded_frame-Admits_example = observe_encoded_frame-Admits (pos 2) key_frame mp4_recorder

observe_encoded_frame-IsBounded_example :
    IsBounded (observe_encoded_frame (pos 2) key_frame mp4_recorder)
unfolding total_bytes
observe_encoded_frame-IsBounded_example =
    observe_encoded_frame-IsBounded (pos 2) key_frame mp4_recorder
      (record { depth = omega arith; counted = refl; bytes = omega arith })

observe_imu_sample-IsSampleQueue_example :
    IsSampleQueue 0 (observe_imu_sample (sample_at 9) mp4_recorder)
unfolding IsRising last_time
observe_imu_sample-IsSampleQueue_example =
    observe_imu_sample-IsSampleQueue 0 (sample_at 9) mp4_recorder
      (record { depth = omega arith; rising = (omega arith, tt); seen = omega arith })
