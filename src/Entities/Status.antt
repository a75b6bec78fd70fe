-- ===== src/Entities/Status.antt =====
-- The texts that the status columns of the tables hold, as enumerations: `status` of a request and
-- of a worker.
use mathlib.Core.Bool.{Bool, true, false}

pub data RequestStatus : Type 0 where
  queued assigned starting running streaming : RequestStatus
  completed failed_final cancelled expired : RequestStatus

pub data WorkerStatus : Type 0 where
  online draining offline suspended : WorkerStatus

-- `status in ("ASSIGNED", "STARTING", "RUNNING", "STREAMING")`
abbrev pub is_in_progress : RequestStatus → Bool
is_in_progress RequestStatus.assigned = true
is_in_progress RequestStatus.starting = true
is_in_progress RequestStatus.running = true
is_in_progress RequestStatus.streaming = true
is_in_progress _ = false

-- `status == "QUEUED"`
abbrev pub is_queued : RequestStatus → Bool
is_queued RequestStatus.queued = true
is_queued _ = false

-- `status == "COMPLETED"`
abbrev pub is_completed : RequestStatus → Bool
is_completed RequestStatus.completed = true
is_completed _ = false

-- `status == "ONLINE"`
abbrev pub is_online : WorkerStatus → Bool
is_online WorkerStatus.online = true
is_online _ = false

-- The statuses from which no request comes back: `chat.py` stops waiting at any of them.
abbrev pub is_terminal : RequestStatus → Bool
is_terminal RequestStatus.completed = true
is_terminal RequestStatus.failed_final = true
is_terminal RequestStatus.cancelled = true
is_terminal RequestStatus.expired = true
is_terminal _ = false
