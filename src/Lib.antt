-- ===== src/Lib.antt =====
-- The RoboBaton demo programs read four cameras and an inertial sensor, show them over RTSP and record
-- them. This library verifies the parts of them that compute: how a ROS bag is written, how the frozen
-- clock maps times, how the command line and the configuration file become validated options, how four
-- images become a mosaic, who owns a retained frame, and how the sensor recorder brings frame sets and
-- inertial samples in order into the bag, and which frames the MP4 recorder takes. The parts meet in these
-- places: the command line gives the options that the recorders and the cameras run with; the clock gives
-- the times that messages are recorded with; frames are handed from the camera to the encoders and the
-- mosaic; the bag writer turns topics, times and payloads into one file.
--
-- Which file models which part (paths from the root of the repository):
-- - Base: booleans, lists, integers, bit and byte helpers, and results that may be an exception.
-- - Clock: src/frozen_system_clock.h and src/frozen_system_clock.cpp. `read_system_clock`, `capture`,
--   `checked_offset` and `map_raw_ns` are ReadSystemClock, Capture, CheckedOffset and MapRawNs; what
--   `clock_gettime` answers is a parameter.
-- - Camera: src/cam_demo_common.cpp, the masks, canvases and rotations; Camera.Frame is QueuedFrame, with
--   its objects in a store and the released frames in a log.
-- - Mosaic: src/mosaic_nv12.h and src/mosaic_nv12.cpp. A plane is a function from offsets to bytes; an
--   access outside of the size that the view gives makes the model answer `none`.
-- - Bag: src/rosbag_v2_writer.h and src/rosbag_v2_writer.cpp. Bag.Encode has the bytes of records,
--   Bag.Latency and Bag.Meter the statistics, Bag.Output the buffered file with FlushOutputBuffer,
--   WriteRawBuffers and PwriteRaw, Bag.Writer and its children the connections, chunks, messages and
--   index of AddConnection, WriteMessage, StartChunk, StopChunk and the data part of Finish, Bag.Paths the
--   names and the test of the path, Bag.Staging the release of the staging files.
-- - Cli: src/cam_demo_config.cpp with the option types of src/cam_demo_common.h. Cli.Numbers has the
--   number parsers with what `std::stoi` and its kin do, Cli.Options ValidateOptions, Cli.Parse and
--   Cli.Parse.Loop ParseCommandLineImpl, Cli.Names the names that are reported.
-- - Recorder: src/sensor_bag_recorder.h and src/sensor_bag_recorder.cpp. Recorder.Selection is
--   ShouldRecordGroup; Recorder.FrameSets and Recorder.Admission are TryAcceptFrameSet and PopFrame;
--   Recorder.Reorder is the ring in which encoded frames wait for their turn, with PublishEncodedFrame,
--   PopNextEncodedFrame and, in Recorder.Reorder.Eviction, the eviction of old frame sets; Recorder.Imu is
--   the ring of the inertial samples with ObserveImu and PopImuBatch; Recorder.Writing is WriterEntry;
--   Recorder.Payloads and Recorder.Json are the messages; Recorder.Ending is Finish and Abort;
--   Recorder.Control has the flags and SetFatalError, Recorder.Accounting the depths of the queues.
-- - Mp4: src/h264_mp4_recorder.h and src/h264_mp4_recorder.cpp. Mp4.AccessUnit is FindAnnexBStartCode and
--   ParseH264AccessUnit; Mp4.Admission is ObserveEncodedFrame and ObserveImu.
-- - Config: src/sensor_demo_yaml_config.h and src/sensor_demo_yaml_config.cpp. Config.Text has the parts
--   of a line, Config the keys and their values, Config.Load the loop over the lines.
-- - Examples: runs on concrete inputs.
--
-- The state of the writer is the record Writer over the record Io: the file is a list of bytes, the
-- answers of the kernel to `write` and `pwrite` and the readings of the steady clock are lists that the
-- state carries. A step is a function from a state to a result and a state, so that a step that throws
-- keeps the state that it had reached. Chunk sizes and elapsed times wrap as unsigned numbers do; file
-- positions are `off_t` and stay below 2^63.
--
-- The recorder's threads share their state under mutexes. Here each critical section is a function of
-- that state, and a wait on a condition is its test, a hypothesis of the theorems on what follows it. The
-- driver's answers on frames, the memory that a queue gets, and what the bag writer answers are
-- parameters; so is the time. A frame set goes from the admission to the queue of the workers, as an
-- encoded frame into the reorder ring, and from there in the record order to the writer.
--
-- Bounds and fuel: `skip_evicted` has a round for each slot of the reorder ring, and each round empties
-- one; `drain_imu_samples` has its limit as fuel, and each round takes a sample or ends; `writer_entry`
-- needs one round more than there are messages that wait; `parse_loop` has a round for each byte, and
-- the header moves on in each round; `copy_loop` has a round for each byte, and each round copies one at
-- least; `bucket_index_loop` has a round for each of the 32 buckets, and the index grows with each round;
-- `flush_loop` and `pwrite_loop` go along the list of answers, behind whose end the kernel takes all.
-- The other loops are structural on their lists or on the number of rounds that the code counts.
--
-- Not modelled: the text that `strerror` or a value adds to a message of an exception, except in
-- Bag.Staging; mutexes and threads; the system calls of Open and of the publication in Finish; vectors
-- that run out of memory; the null-pointer tests of functions that the program calls with addresses of
-- objects; of the sensor recorder ObserveFrame, Start, the pools of jobs and payloads, the slots of the
-- encoder, the timing statistics and the JSON of the session; of the configuration the path and the
-- default file; of the MP4 recorder the worker, the files and the publication; the recorder for capture,
-- the RTSP pipeline, the JPEG encoder and the main programs.
pub mod Base
pub mod Clock
pub mod Camera
pub mod Mosaic
pub mod Bag
pub mod Cli
pub mod Config
pub mod Mp4
pub mod Recorder
pub mod Examples
