-- ===== src/Bag/Meter/Publishing.antt =====
-- Publishing loses no statistics.
use mrp_robo_baton_4p_no_ros.Bag.Meter.{Meter, WriterStats, merge_writer_stats}

-- All that was ever measured: what is published, with what is pending.
abbrev pub total : Meter → WriterStats
total m = merge_writer_stats m.stats m.pending_stats
