-- ===== src/Watch/Clock.antt =====
-- The times of `WatchHub::Watch`.
use configraft.Watch.Poll
