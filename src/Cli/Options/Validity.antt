-- ===== src/Cli/Options/Validity.antt =====
-- What validated options promise to the rest of the program.
use mrp_robo_baton_4p_no_ros.Base.{
  ℕ, ◌-◌, ◌^◌, ◌≤◌, ◌<◌, ◌≡◌, ◌≢◌, ◌↔◌, ◌⊎◌, inl, inr, refl, ap, Bool, true, false, not, ◌&&◌, List,
  [], ◌∷◌, length, arith, All, bytes_eq, bytes_eq_sound, Bool-cases,
}
use mrp_robo_baton_4p_no_ros.Base.Int.{pos, ◌≤ℤ◌, ◌+ℤ◌}
use mrp_robo_baton_4p_no_ros.Base.Bytes.{codes}
use mrp_robo_baton_4p_no_ros.Base.Errors.{ok, >>=-eq-ok}
use mrp_robo_baton_4p_no_ros.Camera.{
  is_supported_camera_mask, is_supported_output_resolution, internal_rotate_degrees,
}
use mrp_robo_baton_4p_no_ros.Camera.Masks.{
  is_supported_camera_mask_iff, camera_mask_pop_count_digits,
}
use mrp_robo_baton_4p_no_ros.Cli.Options.{
  Options, h264, validate_cameras, validate_stream, validate_timing, validate_recording,
  validate_capture, validate_options, is_supported_imu_sample_rate_hz, is_supported_camera_fps,
  has_forbidden, is_absolute, is_empty, is_trigger_mode, rtsp_port_for_channel,
}

-- A character of an RTSP path: printable, and none of `?`, `#`, `%` and the backslash.
abbrev pub IsUrlCharacter : ℕ → Type 0
IsUrlCharacter c = (0x21 ≤ c) × (c ≤ 0x7e) × (c ≢ b'?') × (c ≢ b'#') × (c ≢ b'%') × (c ≢ 92)

-- A path from the root of the file system.
abbrev pub IsAbsolute : List ℕ → Type 0
IsAbsolute path = (rest : List ℕ) × (path ≡ b'/' ∷ rest)

-- One camera, or all four of them; one of the canvases that the pipeline delivers, and its rates.
pub record IsCameraSet (o : Options) : Type 0 where
  pub cameras :
      (((o.camera_mask ≡ 1) ⊎ (o.camera_mask ≡ 2) ⊎ (o.camera_mask ≡ 4) ⊎ (o.camera_mask ≡ 8))
        × (o.channels ≡ pos 1))
      ⊎ ((o.camera_mask ≡ 15) × (o.channels ≡ pos 4))
  pub canvas :
      ((o.width ≡ pos 1280) × (o.height ≡ pos 1088))
      ⊎ ((o.width ≡ pos 1088) × (o.height ≡ pos 1280))
      ⊎ ((o.width ≡ pos 640) × (o.height ≡ pos 480))
      ⊎ ((o.width ≡ pos 480) × (o.height ≡ pos 640))
      ⊎ ((o.width ≡ pos 720) × (o.height ≡ pos 480))
      ⊎ ((o.width ≡ pos 480) × (o.height ≡ pos 720))
      ⊎ ((o.width ≡ pos 1280) × (o.height ≡ pos 720))
      ⊎ ((o.width ≡ pos 720) × (o.height ≡ pos 1280))
  pub rate :
      (o.fps ≡ pos 25) ⊎ (o.fps ≡ pos 30) ⊎ (o.fps ≡ pos 40) ⊎ (o.fps ≡ pos 50) ⊎ (o.fps ≡ pos 60)

pub record IsStreamable (o : Options) : Type 0 where
  pub bitrate : (pos 1 ≤ℤ o.bps) × (o.bps ≤ℤ pos (2 ^ 32 - 1))
  pub url_length : (2 ≤ length o.url) × (length o.url ≤ 56)
  pub url_absolute : IsAbsolute o.url
  pub url_characters : All IsUrlCharacter o.url
  pub ports : (pos 1 ≤ℤ o.rtsp_base_port) × (o.rtsp_base_port ≤ℤ pos 65532)

pub record IsTimed (o : Options) : Type 0 where
  pub rotation :
      (o.rotate_degrees ≡ pos 0)
      ⊎ (o.rotate_degrees ≡ pos 90)
      ⊎ ((o.rotate_degrees ≡ pos 180) × (o.fps ≡ pos 30))
      ⊎ (o.rotate_degrees ≡ pos 270)
  pub interval : pos 100 ≤ℤ o.diagnostic_interval_ms
  pub skew : 0 < o.frame_set_max_skew_ns
  pub timeout : 0 < o.frame_set_timeout_ms
  pub sample_rate :
      (o.imu_sample_rate_hz ≡ 25)
      ⊎ (o.imu_sample_rate_hz ≡ 50)
      ⊎ (o.imu_sample_rate_hz ≡ 100)
      ⊎ (o.imu_sample_rate_hz ≡ 200)
      ⊎ (o.imu_sample_rate_hz ≡ 500)
      ⊎ (o.imu_sample_rate_hz ≡ 1000)
      ⊎ (o.imu_sample_rate_hz ≡ 2000)

-- At most one recording, at an absolute path; frame skip is for bags only, and MP4 is H.264.
pub record IsRecordable (o : Options) (record_frame_skip_set : Bool) : Type 0 where
  pub skip : o.record_frame_skip ≤ 1
  pub bag_absolute : (o.record_bag_path ≡ []) ⊎ IsAbsolute o.record_bag_path
  pub mp4_absolute : (o.record_mp4_directory ≡ []) ⊎ IsAbsolute o.record_mp4_directory
  pub exclusive : (o.record_bag_path ≡ []) ⊎ (o.record_mp4_directory ≡ [])
  pub skip_needs_bag : (record_frame_skip_set ≡ false) ⊎ (o.record_bag_path ≢ [])
  pub mp4_whole :
      (o.record_mp4_directory ≡ []) ⊎ ((o.record_frame_skip ≡ 0) × (o.video_codec ≡ h264))

pub record IsCapturable (o : Options) : Type 0 where
  pub print_rate : o.imu_print_rate_hz ≤ o.imu_sample_rate_hz
  pub policy : o.imu_sample_drop_policy ≤ 1
  pub trigger : (o.trigger_mode ≡ codes "software_gpio") ⊎ (o.trigger_mode ≡ codes "none")
  pub directory : (o.capture_directory ≡ []) ⊎ IsAbsolute o.capture_directory
  pub frames : (1 ≤ o.capture_frame_count) × (o.capture_frame_count ≤ 100)
  pub warmup : (1 ≤ o.capture_warmup_seconds) × (o.capture_warmup_seconds ≤ 60)

has_forbidden_sound : (cs : List ℕ) → has_forbidden cs ≡ false → All IsUrlCharacter cs
unfolding has_forbidden
has_forbidden_sound [] h = tt
has_forbidden_sound (c ∷ cs) h = (
  (ground arith, ground arith, ground arith, ground arith, ground arith, ground arith),
  has_forbidden_sound cs (ground arith),
)

has_forbidden_complete : (cs : List ℕ) → All IsUrlCharacter cs → has_forbidden cs ≡ false
unfolding has_forbidden
has_forbidden_complete [] h = refl
has_forbidden_complete (c ∷ cs) h = ground (arith, has_forbidden_complete cs h.1)

is_absolute_iff : (path : List ℕ) → (is_absolute path ≡ true) ↔ IsAbsolute path
is_absolute_iff [] = ((λ h. cc), (λ v. cc))
is_absolute_iff (c ∷ cs) = (
  (λ h. let slash : c ≡ b'/' = ground arith in (cs, ap (λ x. x ∷ cs) slash)),
  (λ v. let slash : c ≡ b'/' = cc in ground arith),
)

-- A path that is given is absolute.
given-IsAbsolute_iff :
    (path : List ℕ)
    → ((not (is_empty path) && not (is_absolute path)) ≡ false) ↔ ((path ≡ []) ⊎ IsAbsolute path)
given-IsAbsolute_iff [] = ((λ h. inl refl), (λ v. refl))
given-IsAbsolute_iff (c ∷ cs) = (
  (λ h. inr ((is_absolute_iff (c ∷ cs)).0 (ground arith))),
  (λ v. elim v [
    | inl e ↦ cc
    | inr full ↦ let good = (is_absolute_iff (c ∷ cs)).1 full in ground arith
  ]),
)

validate_cameras_iff :
    (o : Options) → o.camera_mask < 2 ^ 32 → (validate_cameras o ≡ ok tt) ↔ IsCameraSet o
unfolding validate_cameras is_supported_output_resolution is_supported_camera_fps
validate_cameras_iff o range =
    let (to, from) = is_supported_camera_mask_iff o.camera_mask range in
    let count = camera_mask_pop_count_digits o.camera_mask range in
    (
      (λ h.
          let mask = to (ground arith) in
          record { cameras = ground arith; canvas = ground arith; rate = ground arith }),
      (λ v.
          let cameras = v.cameras in
          let canvas = v.canvas in
          let rate = v.rate in
          let mask : is_supported_camera_mask o.camera_mask ≡ true = from (ground arith) in
          ground arith),
    )

validate_stream_iff : (o : Options) → (validate_stream o ≡ ok tt) ↔ IsStreamable o
unfolding validate_stream
validate_stream_iff o = (
  λ h. record {
    bitrate = (ground arith, ground arith);
    url_length = (ground arith, ground arith);
    url_absolute = (is_absolute_iff o.url).0 (ground arith);
    url_characters = has_forbidden_sound o.url (ground arith);
    ports = (ground arith, ground arith);
  },
  λ v. ground (
    arith,
    has_forbidden_complete o.url v.url_characters,
    (is_absolute_iff o.url).1 v.url_absolute,
  ),
)

validate_timing_iff : (o : Options) → (validate_timing o ≡ ok tt) ↔ IsTimed o
unfolding validate_timing is_supported_imu_sample_rate_hz internal_rotate_degrees
validate_timing_iff o = (
  λ h. record {
    rotation = ground arith;
    interval = ground arith;
    skew = ground arith;
    timeout = ground arith;
    sample_rate = ground arith;
  },
  λ v. ground arith,
)

validate_recording_iff :
    (o : Options) (skip_set : Bool)
    → (validate_recording o skip_set ≡ ok tt) ↔ IsRecordable o skip_set
unfolding validate_recording
validate_recording_iff o skip_set = (
  λ h. record {
    skip = ground arith;
    bag_absolute = (given-IsAbsolute_iff o.record_bag_path).0 (ground arith);
    mp4_absolute = (given-IsAbsolute_iff o.record_mp4_directory).0 (ground arith);
    exclusive = ground arith;
    skip_needs_bag = ground arith;
    mp4_whole = ground arith;
  },
  λ v. ground (
    arith,
    (given-IsAbsolute_iff o.record_bag_path).1 v.bag_absolute,
    (given-IsAbsolute_iff o.record_mp4_directory).1 v.mp4_absolute,
  ),
)

trigger_left :
    (mode : List ℕ)
    → is_trigger_mode mode ≡ true
    → bytes_eq mode (codes "software_gpio") ≡ false
    → bytes_eq mode (codes "none") ≡ true
unfolding is_trigger_mode
trigger_left mode h e = rw e at h

is_trigger_mode_gpio : is_trigger_mode (codes "software_gpio") ≡ true
unfolding is_trigger_mode
is_trigger_mode_gpio = refl

is_trigger_mode_none : is_trigger_mode (codes "none") ≡ true
unfolding is_trigger_mode
is_trigger_mode_none = refl

is_trigger_mode_iff :
    (mode : List ℕ)
    → (is_trigger_mode mode ≡ true) ↔ ((mode ≡ codes "software_gpio") ⊎ (mode ≡ codes "none"))
is_trigger_mode_iff mode = (sound, complete)
  where
    sound : is_trigger_mode mode ≡ true → (mode ≡ codes "software_gpio") ⊎ (mode ≡ codes "none")
    sound h = elim (Bool-cases (bytes_eq mode (codes "software_gpio"))) [
      | inl e ↦ inl (bytes_eq_sound mode (codes "software_gpio") e)
      | inr e ↦ inr (bytes_eq_sound mode (codes "none") (trigger_left mode h e))
    ]

    complete : (mode ≡ codes "software_gpio") ⊎ (mode ≡ codes "none") → is_trigger_mode mode ≡ true
    complete (inl e) = rw e is_trigger_mode_gpio
    complete (inr e) = rw e is_trigger_mode_none

validate_capture_iff : (o : Options) → (validate_capture o ≡ ok tt) ↔ IsCapturable o
unfolding validate_capture
validate_capture_iff o = (
  λ h. record {
    print_rate = ground arith;
    policy = ground arith;
    trigger = (is_trigger_mode_iff o.trigger_mode).0 (ground arith);
    directory = (given-IsAbsolute_iff o.capture_directory).0 (ground arith);
    frames = (ground arith, ground arith);
    warmup = (ground arith, ground arith);
  },
  λ v. ground (
    arith,
    (is_trigger_mode_iff o.trigger_mode).1 v.trigger,
    (given-IsAbsolute_iff o.capture_directory).1 v.directory,
  ),
)

pub record IsValidOptions (o : Options) (record_frame_skip_set : Bool) : Type 0 where
  pub cameras : IsCameraSet o
  pub streamable : IsStreamable o
  pub timed : IsTimed o
  pub recordable : IsRecordable o record_frame_skip_set
  pub capturable : IsCapturable o

-- The validation lets through exactly the options that meet all of its conditions, written out: the
-- cameras 1, 2, 4, 8 or all of 15 with their channel count, eight canvases, five camera rates, the
-- bitrate, the stream's path and ports, the rotation, the times, seven IMU rates, the recording (at most
-- one, at an absolute path) and the capture. The camera mask has 32 bits.
pub validate_options_iff :
    (o : Options) (record_frame_skip_set : Bool)
    → o.camera_mask < 2 ^ 32
    → (validate_options o record_frame_skip_set ≡ ok tt) ↔ IsValidOptions o record_frame_skip_set
unfolding validate_options
validate_options_iff o skip_set range = (sound, complete)
  where
    sound : validate_options o skip_set ≡ ok tt → IsValidOptions o skip_set
    sound h =
        let (a, cameras, h₁) = >>=-eq-ok (validate_cameras o) _ h in
        let (b, stream, h₂) = >>=-eq-ok (validate_stream o) _ h₁ in
        let (c, timing, h₃) = >>=-eq-ok (validate_timing o) _ h₂ in
        let (d, recording, capture) = >>=-eq-ok (validate_recording o skip_set) _ h₃ in
        record {
          cameras = (validate_cameras_iff o range).0 cameras;
          streamable = (validate_stream_iff o).0 stream;
          timed = (validate_timing_iff o).0 timing;
          recordable = (validate_recording_iff o skip_set).0 recording;
          capturable = (validate_capture_iff o).0 capture;
        }

    complete : IsValidOptions o skip_set → validate_options o skip_set ≡ ok tt
    complete v =
        rw
          (
            (validate_cameras_iff o range).1 v.cameras,
            (validate_stream_iff o).1 v.streamable,
            (validate_timing_iff o).1 v.timed,
            (validate_recording_iff o skip_set).1 v.recordable,
          )
          ((validate_capture_iff o).1 v.capturable)

-- With validated options each of the four channels has a port of its own in 1 to 65535.
pub rtsp_port_for_channel_range :
    (o : Options) (record_frame_skip_set : Bool) (channel : ℕ)
    → o.camera_mask < 2 ^ 32
    → validate_options o record_frame_skip_set ≡ ok tt
    → channel < 4
    → (pos 1 ≤ℤ rtsp_port_for_channel o (pos channel))
      × (rtsp_port_for_channel o (pos channel) ≤ℤ pos 65535)
unfolding rtsp_port_for_channel ◌+ℤ◌
rtsp_port_for_channel_range o skip_set channel range h k =
    let v = ((validate_options_iff o skip_set range).0 h).streamable in (ground arith, ground arith)
