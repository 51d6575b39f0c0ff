-- ===== src/Mp4.antt =====
-- src/h264_mp4_recorder.cpp: the frames and samples that the MP4 recorder takes.
pub mod AccessUnit
pub mod Admission
