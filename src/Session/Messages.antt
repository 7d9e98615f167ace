-- ===== src/Session/Messages.antt =====
-- app_v1/sdk/master/python/gpstation_master/job_peer.py and app_v1/sdk/slave/worker.py: what goes over the data channel
-- after `job.ready`. Calls are numbered: number 1 has the id of the job, as `GpStationJobSession.call` makes it.
use gpstation.Prelude.{ℕ, List}
use gpstation.Transfer.Frames.{Bytes}
use gpstation.Transfer.Receiving.{Metadata}

pub data ToWorker : Type 0 where
  job_call : ℕ → List Metadata → ToWorker
  chunk : Bytes → ToWorker
  result_ack : ℕ → ToWorker
  job_finish : ToWorker

-- A result stands for `job.result` with all its attachments; what it says is a number.
pub data ToClient : Type 0 where
  job_result : ℕ → ℕ → ToClient
  job_error : ℕ → ToClient
  job_event : ℕ → ToClient
  job_finished : ToClient

abbrev pub job_id : ℕ
job_id = 1
