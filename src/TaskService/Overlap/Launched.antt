-- ===== src/TaskService/Overlap/Launched.antt =====
-- The worker's calls, one goroutine for each event.
use ormus.TaskService.Overlap.{Event}
