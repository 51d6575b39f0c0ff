-- ===== src/Bag.antt =====
-- src/rosbag_v2_writer.h and src/rosbag_v2_writer.cpp: the ROS1 bag v2.0 writer. `Encode` has the
-- byte layout of records, `Latency` the statistics, `Output` the buffered file, `Writer` the chunks
-- and messages over it.
pub mod Encode
pub mod Latency
pub mod Meter
pub mod Output
pub mod Writer
pub mod Paths
pub mod Staging
