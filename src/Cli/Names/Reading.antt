-- ===== src/Cli/Names/Reading.antt =====
-- What is reported reads back, and what the trigger mode says of timestamps.
use mrp_robo_baton_4p_no_ros.Base.{ℕ, ◌≡◌, ◌≤◌, refl, arith}
use mrp_robo_baton_4p_no_ros.Base.Errors.{ok}
use mrp_robo_baton_4p_no_ros.Cli.Options.{VideoCodec, h264, h265}
use mrp_robo_baton_4p_no_ros.Cli.Parse.{parse_video_codec, parse_imu_sample_drop_policy}
use mrp_robo_baton_4p_no_ros.Cli.Names.{video_codec_name, imu_sample_drop_policy_name}

codec_reads : (codec : VideoCodec) → parse_video_codec (video_codec_name codec) ≡ ok codec
unfolding parse_video_codec video_codec_name
codec_reads h264 = refl
codec_reads h265 = refl

policy_reads :
    (policy : ℕ)
    → policy ≤ 1
    → parse_imu_sample_drop_policy (imu_sample_drop_policy_name policy) ≡ ok policy
unfolding parse_imu_sample_drop_policy imu_sample_drop_policy_name
policy_reads policy h = ground arith

-- Each codec, and each of the two drop policies, is reported under the name that the command line
-- reads as it.
pub parse-name :
    (codec : VideoCodec) (policy : ℕ)
    → policy ≤ 1
    → (parse_video_codec (video_codec_name codec) ≡ ok codec)
      × (parse_imu_sample_drop_policy (imu_sample_drop_policy_name policy) ≡ ok policy)
parse-name codec policy h = (codec_reads codec, policy_reads policy h)
