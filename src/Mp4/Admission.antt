-- ===== src/Mp4/Admission.antt =====
-- src/h264_mp4_recorder.cpp: `ObserveEncodedFrame` and `ObserveImu`, under the recorder's mutex. An array
-- over the cameras is a function of the camera; the bytes of a frame are there for its address, which is
-- given as null or not.
pub mod Steps
pub mod Queue
pub mod Samples
use mrp_robo_baton_4p_no_ros.Base.{
  ℕ, ◌+◌, ◌-◌, ◌*◌, ◌%◌, ◌^◌, Bool, true, false, not, ◌&&◌, ◌||◌, Option, none, some, List, [], ◌∷◌,
  ◌++◌, length, take, drop, ltb, leb, ◌==◌, if◌then◌else◌, max, String,
}
use mrp_robo_baton_4p_no_ros.Base.Bytes.{codes}
use mrp_robo_baton_4p_no_ros.Base.Int.{ℤ, pos_part}
use mrp_robo_baton_4p_no_ros.Base.Slots.{update}
use mrp_robo_baton_4p_no_ros.Bag.Latency.{increment64}
use mrp_robo_baton_4p_no_ros.Camera.{camera_mask_contains}
use mrp_robo_baton_4p_no_ros.Cli.Options.{is_empty}
use mrp_robo_baton_4p_no_ros.Mp4.AccessUnit.{H264AccessUnitInfo, parse_h264_access_unit}
use mrp_robo_baton_4p_no_ros.Recorder.Imu.{ImuSample, imu_sample_size}

abbrev pub max_encoded_frame_bytes : ℕ
max_encoded_frame_bytes = 64 * 1024 * 1024

abbrev pub imu_queue_capacity : ℕ
imu_queue_capacity = 8192

-- `prrtsp_encoded_frame_v2`; `payload` are the `size_bytes` bytes at its address.
pub record EncodedFrame : Type 0 where
  pub struct_size : ℕ
  pub flags : ℕ
  pub codec : ℕ
  pub is_null : Bool
  pub payload : List ℕ
  pub timestamp_ns : ℕ

abbrev pub encoded_frame_size : ℕ
encoded_frame_size = 104

abbrev pub codec_h264 : ℕ
codec_h264 = 1

pub record EncodedJob : Type 0 where
  pub camera_id : ℕ
  pub timestamp_ns : ℕ
  pub key_frame : Bool
  pub payload : List ℕ

-- The counters of `H264Mp4RecorderStats` that the admission changes.
pub record RecorderStats : Type 0 where
  pub encoded_frames_selected : ℕ
  pub encoded_frames_admitted : ℕ
  pub encoded_frames_dropped : ℕ
  pub encoded_frames_selected_by_camera : ℕ → ℕ
  pub encoded_frames_admitted_by_camera : ℕ → ℕ
  pub encoded_frames_dropped_by_camera : ℕ → ℕ
  pub encoded_queue_current_depth : ℕ
  pub encoded_queue_peak_depth : ℕ
  pub encoded_queue_full_drops : ℕ
  pub encoded_queue_current_bytes : ℕ
  pub encoded_queue_byte_high_watermark : ℕ
  pub encoded_queue_byte_full_drops : ℕ
  pub imu_samples_admitted : ℕ
  pub imu_samples_dropped : ℕ
  pub imu_queue_peak_depth : ℕ

pub record Mp4Recorder : Type 0 where
  pub started : Bool
  pub stopping : Bool
  pub camera_mask : ℕ
  pub encoded_queue : List EncodedJob
  pub encoded_queue_capacity : ℕ
  pub encoded_queue_byte_capacity : ℕ
  pub encoded_queue_current_bytes : ℕ
  pub cached_sps : ℕ → List ℕ
  pub cached_pps : ℕ → List ℕ
  pub resync_required : ℕ → Bool
  pub last_seen_timestamp_ns : ℕ → ℕ
  pub imu_queue : List ImuSample
  pub last_imu_timestamp_ns : ℕ
  pub error : List ℕ
  pub stats : RecorderStats

-- `SetFatalLocked`: the first error is kept.
unfoldable pub set_fatal : String → Mp4Recorder → Mp4Recorder
set_fatal message r = record r { error = if is_empty r.error then codes message else r.error }

abbrev count_at : ℕ → (ℕ → ℕ) → ℕ → ℕ
count_at i counts = update counts i (increment64 (counts i))

-- `DropEncodedFrameLocked`.
unfoldable pub drop_encoded_frame : ℕ → Bool → Bool → Mp4Recorder → Mp4Recorder
drop_encoded_frame i count_full byte_full r = record r {
  stats = record r.stats {
    encoded_frames_dropped = increment64 r.stats.encoded_frames_dropped;
    encoded_frames_dropped_by_camera = count_at i r.stats.encoded_frames_dropped_by_camera;
    encoded_queue_full_drops =
        if count_full
        then increment64 r.stats.encoded_queue_full_drops
        else r.stats.encoded_queue_full_drops;
    encoded_queue_byte_full_drops =
        if byte_full
        then increment64 r.stats.encoded_queue_byte_full_drops
        else r.stats.encoded_queue_byte_full_drops;
  };
}

unfoldable pub is_invalid_frame : EncodedFrame → Bool
is_invalid_frame frame =
    ltb frame.struct_size encoded_frame_size
    || (not (frame.codec == codec_h264)
        || (frame.is_null
            || (length frame.payload == 0
                || (ltb max_encoded_frame_bytes (length frame.payload) || ltb 1 frame.flags))))

abbrev pub range : ℕ → ℕ → List ℕ → List ℕ
range begin end bytes = take (end - begin) (drop begin bytes)

-- The parameter sets of a unit replace those that are kept for its camera.
unfoldable pub cache_parameter_sets : ℕ → H264AccessUnitInfo → List ℕ → Mp4Recorder → Mp4Recorder
cache_parameter_sets i info bytes r = record r {
  cached_sps =
      if info.has_sps
      then update r.cached_sps i (range info.sps_begin info.sps_end bytes)
      else r.cached_sps;
  cached_pps =
      if info.has_pps
      then update r.cached_pps i (range info.pps_begin info.pps_end bytes)
      else r.cached_pps;
}

abbrev pub resync : ℕ → Mp4Recorder → Mp4Recorder
resync i r = record r { resync_required = update r.resync_required i true }

-- `RefreshEncodedQueueStatsLocked` behind the counts of an admitted frame.
unfoldable pub count_admitted : ℕ → Mp4Recorder → Mp4Recorder
count_admitted i r = record r {
  stats = record r.stats {
    encoded_frames_admitted = increment64 r.stats.encoded_frames_admitted;
    encoded_frames_admitted_by_camera = count_at i r.stats.encoded_frames_admitted_by_camera;
    encoded_queue_current_depth = length r.encoded_queue;
    encoded_queue_peak_depth = max r.stats.encoded_queue_peak_depth (length r.encoded_queue);
    encoded_queue_current_bytes = r.encoded_queue_current_bytes;
    encoded_queue_byte_high_watermark =
        max r.stats.encoded_queue_byte_high_watermark r.encoded_queue_current_bytes;
  };
}

-- The job joins the queue.
unfoldable pub push_job : EncodedJob → Mp4Recorder → Mp4Recorder
unfolding count_admitted
push_job job r = count_admitted job.camera_id (record r {
  encoded_queue = r.encoded_queue ++ job ∷ [];
  encoded_queue_current_bytes = r.encoded_queue_current_bytes + length job.payload;
  resync_required = update r.resync_required job.camera_id false;
})

abbrev pub needs_parameter_sets : ℕ → H264AccessUnitInfo → Mp4Recorder → Bool
needs_parameter_sets i info r =
    r.resync_required i && (info.has_idr && (not info.has_sps || not info.has_pps))

-- The parameter sets that are put before the frame.
abbrev pub prepended : ℕ → H264AccessUnitInfo → Mp4Recorder → List ℕ
prepended i info r = if needs_parameter_sets i info r then r.cached_sps i ++ r.cached_pps i else []

-- The tests on the queue.
unfoldable pub enqueue : ℕ → EncodedFrame → H264AccessUnitInfo → Mp4Recorder → Mp4Recorder
unfolding push_job drop_encoded_frame
enqueue i frame info r =
    let payload = prepended i info r ++ frame.payload in
    if leb r.encoded_queue_capacity (length r.encoded_queue)
    then resync i (drop_encoded_frame i true false r)
    else if ltb r.encoded_queue_byte_capacity (length payload)
        || ltb (r.encoded_queue_byte_capacity - length payload) r.encoded_queue_current_bytes
    then resync i (drop_encoded_frame i false true r)
    else push_job
        (record {
          camera_id = i;
          timestamp_ns = frame.timestamp_ns;
          key_frame = info.has_idr;
          payload = payload;
        })
        r

-- A frame whose time is good: the tests on the key frame and its parameter sets.
unfoldable pub observe_timed : ℕ → EncodedFrame → H264AccessUnitInfo → Mp4Recorder → Mp4Recorder
unfolding enqueue drop_encoded_frame set_fatal
observe_timed i frame info r =
    if r.resync_required i && not info.has_idr
    then drop_encoded_frame i false false r
    else if needs_parameter_sets i info r
        && (is_empty (r.cached_sps i) || is_empty (r.cached_pps i))
    then drop_encoded_frame i false false r
    else if ltb (max_encoded_frame_bytes - length frame.payload) (length (prepended i info r))
    then set_fatal "H264 access unit with parameter sets is too large"
        (drop_encoded_frame i false false r)
    else enqueue i frame info r

unfoldable pub count_selected : ℕ → Mp4Recorder → Mp4Recorder
count_selected i r = record r {
  stats = record r.stats {
    encoded_frames_selected = increment64 r.stats.encoded_frames_selected;
    encoded_frames_selected_by_camera = count_at i r.stats.encoded_frames_selected_by_camera;
  };
}

-- A frame with a picture: the tests on its time.
unfoldable pub observe_selected : ℕ → EncodedFrame → H264AccessUnitInfo → Mp4Recorder → Mp4Recorder
unfolding observe_timed drop_encoded_frame set_fatal
observe_selected i frame info r =
    if frame.timestamp_ns == 0
    then set_fatal "invalid encoded H264 timestamp" (drop_encoded_frame i false false r)
    else if not (r.last_seen_timestamp_ns i == 0)
        && leb frame.timestamp_ns (r.last_seen_timestamp_ns i)
    then set_fatal "encoded H264 timestamp is not strictly increasing"
        (drop_encoded_frame i false false r)
    else observe_timed i frame info
        (record r { last_seen_timestamp_ns = update r.last_seen_timestamp_ns i frame.timestamp_ns })

unfoldable pub observe_access_unit :
    ℕ → EncodedFrame → H264AccessUnitInfo → Mp4Recorder → Mp4Recorder
unfolding cache_parameter_sets count_selected observe_selected
observe_access_unit i frame info r =
    let r' = cache_parameter_sets i info frame.payload r in
    if not info.has_vcl then r' else observe_selected i frame info (count_selected i r')

unfoldable pub observe_valid_frame : ℕ → EncodedFrame → Mp4Recorder → Mp4Recorder
unfolding observe_access_unit parse_h264_access_unit drop_encoded_frame set_fatal
observe_valid_frame i frame r = elim (parse_h264_access_unit frame.payload) [
  | none ↦ set_fatal "invalid Annex-B H264 access unit" (drop_encoded_frame i false false r)
  | some info ↦ observe_access_unit i frame info r
]

-- `ObserveEncodedFrame`.
unfoldable pub observe_encoded_frame : ℤ → EncodedFrame → Mp4Recorder → Mp4Recorder
unfolding observe_valid_frame is_invalid_frame drop_encoded_frame set_fatal
observe_encoded_frame camera_id frame r =
    let i = pos_part camera_id in
    if not r.started || (r.stopping || not (camera_mask_contains r.camera_mask camera_id))
    then r
    else if is_invalid_frame frame
    then set_fatal "invalid encoded H264 frame" (drop_encoded_frame i false false r)
    else observe_valid_frame i frame r

abbrev pub is_bad_sample : ImuSample → Mp4Recorder → Bool
is_bad_sample sample r =
    ltb sample.struct_size imu_sample_size
    || (sample.sample_timestamp_ns == 0
        || (not (r.last_imu_timestamp_ns == 0)
            && leb sample.sample_timestamp_ns r.last_imu_timestamp_ns))

abbrev drop_sample : Mp4Recorder → Mp4Recorder
drop_sample r = record r {
  stats = record r.stats { imu_samples_dropped = increment64 r.stats.imu_samples_dropped };
}

-- `ObserveImu`.
unfoldable pub observe_imu_sample : ImuSample → Mp4Recorder → Mp4Recorder
observe_imu_sample sample r =
    let r' = record r { last_imu_timestamp_ns = sample.sample_timestamp_ns } in
    if not r.started || r.stopping
    then r
    else if is_bad_sample sample r
    then drop_sample r
    else if leb imu_queue_capacity (length r.imu_queue)
    then drop_sample r'
    else record r' {
      imu_queue = r.imu_queue ++ sample ∷ [];
      stats = record r.stats {
        imu_samples_admitted = increment64 r.stats.imu_samples_admitted;
        imu_queue_peak_depth = max r.stats.imu_queue_peak_depth (length r.imu_queue + 1);
      };
    }
