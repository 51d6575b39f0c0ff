-- ===== src/Cli/Names.antt =====
-- src/cam_demo_common.cpp: the names under which options are reported, the domains of timestamps, and
-- src/mosaic_nv12.cpp: the names of its statuses.
pub mod Reading
use mrp_robo_baton_4p_no_ros.Base.{
  ℕ, Bool, true, false, ◌||◌, not, List, bytes_eq, ◌==◌, if◌then◌else◌,
}
use mrp_robo_baton_4p_no_ros.Base.Bytes.{codes}
use mrp_robo_baton_4p_no_ros.Mosaic.{
  MosaicNv12Status, ok, invalid_argument, invalid_source, invalid_destination,
}
use mrp_robo_baton_4p_no_ros.Cli.Options.{
  Options, VideoCodec, h264, h265, drop_policy_allow_counted, drop_policy_strict,
}

unfoldable pub video_codec_name : VideoCodec → List ℕ
video_codec_name h264 = codes "h264"
video_codec_name h265 = codes "h265"

unfoldable pub imu_sample_drop_policy_name : ℕ → List ℕ
imu_sample_drop_policy_name policy =
    if policy == drop_policy_allow_counted
    then codes "allow-counted"
    else if policy == drop_policy_strict
    then codes "strict"
    else codes "invalid"

pub data TimestampDomain : Type 0 where
  unknown_domain monotonic_raw system_realtime sc132_native : TimestampDomain

unfoldable pub timestamp_domain_name : TimestampDomain → List ℕ
timestamp_domain_name monotonic_raw = codes "monotonic_raw"
timestamp_domain_name system_realtime = codes "system_realtime"
timestamp_domain_name sc132_native = codes "sc132_native"
timestamp_domain_name unknown_domain = codes "unknown"

unfoldable pub sc132_timestamps_are_monotonic_raw : Options → Bool
sc132_timestamps_are_monotonic_raw o =
    bytes_eq o.trigger_mode (codes "software_gpio") || bytes_eq o.trigger_mode (codes "gpio")

-- Whether the options carry a clock stands beside them here.
unfoldable pub sc132_output_timestamp_domain : Options → Bool → TimestampDomain
sc132_output_timestamp_domain o has_system_clock =
    if not (sc132_timestamps_are_monotonic_raw o)
    then sc132_native
    else if has_system_clock
    then system_realtime
    else monotonic_raw

unfoldable pub mosaic_nv12_status_name : MosaicNv12Status → List ℕ
mosaic_nv12_status_name ok = codes "ok"
mosaic_nv12_status_name invalid_argument = codes "invalid_argument"
mosaic_nv12_status_name invalid_source = codes "invalid_source"
mosaic_nv12_status_name invalid_destination = codes "invalid_destination"
