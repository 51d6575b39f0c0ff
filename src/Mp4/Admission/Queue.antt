-- ===== src/Mp4/Admission/Queue.antt =====
-- src/h264_mp4_recorder.cpp: the queue of encoded frames keeps within its bounds, and each camera's
-- stream in it starts anew with a key frame and its parameter sets.
use mrp_robo_baton_4p_no_ros.Base.{
  ℕ, ◌≡◌, refl, not, ◌&&◌, ◌||◌, some, List, [], ◌∷◌, leb, ◌==◌, if_both, arith, inl, inr,
  Option-cases, length-append,
}
use mrp_robo_baton_4p_no_ros.Base.Slots.{update}
use mrp_robo_baton_4p_no_ros.Base.Int.{ℤ, pos_part}
use mrp_robo_baton_4p_no_ros.Camera.{camera_mask_contains}
use mrp_robo_baton_4p_no_ros.Mp4.AccessUnit.{H264AccessUnitInfo, parse_h264_access_unit}
use mrp_robo_baton_4p_no_ros.Mp4.Admission.{
  EncodedFrame, Mp4Recorder, is_invalid_frame, cache_parameter_sets, count_selected,
  observe_selected, observe_access_unit, observe_valid_frame, observe_encoded_frame,
}
use mrp_robo_baton_4p_no_ros.Mp4.Admission.Steps.{
  Admits, sps_of, pps_of, IsBounded, total_bytes-append, Admits-nothing, set_fatal-Admits,
  observe_timed-Admits, Admits-from,
}

observe_selected-Admits :
    (i : ℕ) (frame : EncodedFrame) (sps pps : H264AccessUnitInfo → List ℕ)
    (info : H264AccessUnitInfo) (r : Mp4Recorder)
    → (r.cached_sps i ≡ sps info) × (r.cached_pps i ≡ pps info)
    → parse_h264_access_unit frame.payload ≡ some info
    → Admits i (r.last_seen_timestamp_ns i) frame sps pps r (observe_selected i frame info r)
unfolding observe_selected
observe_selected-Admits i frame sps pps info r has parsed =
    let seen : Mp4Recorder = record r {
      last_seen_timestamp_ns = update r.last_seen_timestamp_ns i frame.timestamp_ns;
    } in
    if_both (Admits i (r.last_seen_timestamp_ns i) frame sps pps r) (frame.timestamp_ns == 0) _ _
      (λ _. set_fatal-Admits i _ frame sps pps "invalid encoded H264 timestamp" r)
      (λ timed.
        if_both (Admits i (r.last_seen_timestamp_ns i) frame sps pps r)
          (not (r.last_seen_timestamp_ns i == 0)
            && leb frame.timestamp_ns (r.last_seen_timestamp_ns i))
          _ _
          (λ _.
            set_fatal-Admits i _ frame sps pps "encoded H264 timestamp is not strictly increasing"
              r)
          (λ later. Admits-from i _ frame sps pps r seen _ refl refl refl refl refl (
            observe_timed-Admits i (r.last_seen_timestamp_ns i) frame sps pps info parsed
              (ground arith) seen has)))

-- What is kept for the camera behind the caching.
kept :
    (i : ℕ) (info : H264AccessUnitInfo) (frame : EncodedFrame) (r : Mp4Recorder)
    → ((cache_parameter_sets i info frame.payload r).cached_sps i ≡ sps_of i frame r info)
      × ((cache_parameter_sets i info frame.payload r).cached_pps i ≡ pps_of i frame r info)
unfolding cache_parameter_sets
kept i info frame r = (ground arith, ground arith)

observe_access_unit-Admits :
    (i : ℕ) (frame : EncodedFrame) (info : H264AccessUnitInfo) (r : Mp4Recorder)
    → parse_h264_access_unit frame.payload ≡ some info
    → Admits i
        (r.last_seen_timestamp_ns i)
        frame
        (sps_of i frame r)
        (pps_of i frame r)
        r
        (observe_access_unit i frame info r)
unfolding observe_access_unit cache_parameter_sets count_selected
observe_access_unit-Admits i frame info r parsed =
    let counted : Mp4Recorder = count_selected i (cache_parameter_sets i info frame.payload r) in
    if_both (Admits i (r.last_seen_timestamp_ns i) frame (sps_of i frame r) (pps_of i frame r) r)
      (not info.has_vcl) _ _
      (λ _.
        Admits-nothing i _ frame (sps_of i frame r) (pps_of i frame r) r _ refl refl refl refl
          (λ e. e))
      (λ _.
        Admits-from i _ frame (sps_of i frame r) (pps_of i frame r) r counted _ refl refl refl refl
          refl
          (observe_selected-Admits i frame (sps_of i frame r) (pps_of i frame r) info counted
            (kept i info frame r) parsed))

observe_valid_frame-Admits :
    (i : ℕ) (frame : EncodedFrame) (r : Mp4Recorder)
    → Admits i
        (r.last_seen_timestamp_ns i)
        frame
        (sps_of i frame r)
        (pps_of i frame r)
        r
        (observe_valid_frame i frame r)
unfolding observe_valid_frame
observe_valid_frame-Admits i frame r = elim (Option-cases (parse_h264_access_unit frame.payload)) [
  | inl bad ↦
      rw (bad, observe_valid_frame)
        (set_fatal-Admits i _ frame (sps_of i frame r) (pps_of i frame r)
          "invalid Annex-B H264 access unit" r)
  | inr (info, parsed) ↦
      rw (parsed, observe_valid_frame) (observe_access_unit-Admits i frame info r parsed)
]

-- A call leaves the queue as it is, or it puts one frame behind the others: the frame as it came, later
-- than the last one of its camera, and within both bounds of the queue. Nothing is put before its bytes
-- unless the stream of the camera has to start anew and the frame lacks a parameter set: then it is the
-- SPS and behind it the PPS, each the frame's own where it has one and else the kept one, and neither
-- empty. A stream that has to start anew does so by a key frame only.
pub observe_encoded_frame-Admits :
    (camera_id : ℤ) (frame : EncodedFrame) (r : Mp4Recorder)
    → Admits
        (pos_part camera_id)
        (r.last_seen_timestamp_ns (pos_part camera_id))
        frame
        (sps_of (pos_part camera_id) frame r)
        (pps_of (pos_part camera_id) frame r)
        r
        (observe_encoded_frame camera_id frame r)
unfolding observe_encoded_frame
observe_encoded_frame-Admits camera_id frame r =
    let i = pos_part camera_id in
    if_both (Admits i (r.last_seen_timestamp_ns i) frame (sps_of i frame r) (pps_of i frame r) r)
      (not r.started || (r.stopping || not (camera_mask_contains r.camera_mask camera_id))) _ _
      (λ _.
        Admits-nothing i _ frame (sps_of i frame r) (pps_of i frame r) r _ refl refl refl refl
          (λ e. e))
      (λ _.
        if_both
          (Admits i (r.last_seen_timestamp_ns i) frame (sps_of i frame r) (pps_of i frame r) r)
          (is_invalid_frame frame) _ _
          (λ _.
            set_fatal-Admits i _ frame (sps_of i frame r) (pps_of i frame r)
              "invalid encoded H264 frame" r)
          (λ _. observe_valid_frame-Admits i frame r))

-- Each call keeps the queue within its bounds in frames and in bytes, and the count of its bytes right.
pub observe_encoded_frame-IsBounded :
    (camera_id : ℤ) (frame : EncodedFrame) (r : Mp4Recorder)
    → IsBounded r
    → IsBounded (observe_encoded_frame camera_id frame r)
observe_encoded_frame-IsBounded camera_id frame r bounded =
    let a = observe_encoded_frame-Admits camera_id frame r in
    elim a.cases [
      | inl (queue, bytes, _) ↦ record {
        depth = rw (queue, a.same_capacity) bounded.depth;
        counted = rw (queue, bytes) bounded.counted;
        bytes = rw (bytes, a.same_byte_capacity) bounded.bytes;
      }
      | inr (job, before, info, parsed, queue, bytes, room, fits, _, _, _, _, _, _, _) ↦ record {
        depth =
            rw (queue, a.same_capacity) (omega (arith, length-append r.encoded_queue (job ∷ [])));
        counted =
            rw (queue, bytes)
              (omega (arith, bounded.counted, total_bytes-append r.encoded_queue job));
        bytes = rw (bytes, a.same_byte_capacity) fits;
      }
    ]
