-- ===== src/Sink/Ends.antt =====
-- lib/compressed_sink.cpp: that each session of `ZstdSink` ends, whatever fails in it.
use tracey_mctraceface.Sink.Zstd.{Zstd, Session}
