-- ===== src/Prewarm/Pool.antt =====
-- app_v1/sdk/master/python/gpstation_master/client.py, with `create_prepared_job_connection` of rtc.py. A connection
-- has the number of the task that builds it. `prewarm_job_connection` is cut at its awaits.
use gpstation.Prelude.{
  ℕ, Bool, true, false, not, Option, none, some, List, [], ◌∷◌, ◌++◌, ◌==◌, if◌then◌else◌, contains,
  is_id,
}
use gpstation.Prelude.Dict.{Dict, get, put, pop, adjust, values, empty}

pub data TaskState : Type 0 where
  running built failed cancelled : TaskState

pub record Task : Type 0 where
  pub key : ℕ
  pub state : TaskState

-- A call of `prewarm_job_connection` on its way: it closes `stale`, then it waits for its task.
pub record Caller : Type 0 where
  pub key : ℕ
  pub task : ℕ
  pub stale : Option ℕ

-- `shut` has the connections that are closed, `runs` the ones that an attempt of `run_job` has taken, `abandoned` those
-- of cancelled callers.
pub record Pool : Type 0 where
  pub prewarmed_connections : Dict ℕ
  pub prewarm_tasks : Dict ℕ
  pub tasks : Dict Task
  pub callers : Dict Caller
  pub shut : List ℕ
  pub runs : List ℕ
  pub abandoned : List ℕ
  pub is_closed : Bool

abbrev pub new_pool : Pool
new_pool = record {
  prewarmed_connections = empty;
  prewarm_tasks = empty;
  tasks = empty;
  callers = empty;
  shut = [];
  runs = [];
  abandoned = [];
  is_closed = false;
}

abbrev pub prepared_is_usable : Pool → ℕ → Bool
prepared_is_usable s c = not (contains s.shut c)

abbrev pub has_usable : Pool → Option ℕ → Bool
has_usable s none = false
has_usable s (some c) = prepared_is_usable s c

abbrev pub pop_stale : ℕ → Option ℕ → Pool → Pool
pop_stale key none s = s
pop_stale key (some c) s = record s { prewarmed_connections = pop s.prewarmed_connections key }

-- `task` is the number of a new task.
abbrev pub await_task : ℕ → ℕ → Option ℕ → ℕ → Option ℕ → Pool → Pool
await_task caller key stale task none s = record s {
  prewarm_tasks = put s.prewarm_tasks key task;
  tasks = put s.tasks task (record { key = key; state = running });
  callers = put s.callers caller (record { key = key; task = task; stale = stale });
}
await_task caller key stale task (some old) s = record s {
  callers = put s.callers caller (record { key = key; task = old; stale = stale });
}

-- Up to the first await.
unfoldable pub begin_prewarm : ℕ → ℕ → ℕ → Pool → Pool
begin_prewarm caller key task s =
    let existing = get s.prewarmed_connections key in
    if s.is_closed
    then s
    else if has_usable s existing
    then s
    else await_task caller key existing task (get s.prewarm_tasks key) (pop_stale key existing s)

unfoldable pub close_stale : ℕ → Caller → ℕ → Pool → Pool
close_stale id caller c s = record s {
  shut = c ∷ s.shut;
  callers = put s.callers id (record caller { stale = none });
}

abbrev pub forget_task : Caller → Pool → Pool
forget_task caller s = record s {
  prewarm_tasks =
      if is_id (get s.prewarm_tasks caller.key) caller.task
      then pop s.prewarm_tasks caller.key
      else s.prewarm_tasks;
}

abbrev pub store : Caller → Option ℕ → Pool → Pool
store caller none s = record s {
  prewarmed_connections = put s.prewarmed_connections caller.key caller.task;
}
store caller (some c) s = if c == caller.task then s else record s { shut = caller.task ∷ s.shut }

abbrev pub keep : Caller → Pool → Pool
keep caller s =
    if s.is_closed
    then record s { shut = caller.task ∷ s.shut }
    else store caller (get s.prewarmed_connections caller.key) s

abbrev pub leave : ℕ → Pool → Pool
leave id s = record s { callers = pop s.callers id }

-- The task has built its connection.
unfoldable pub finish_prewarm : ℕ → Caller → Pool → Pool
finish_prewarm id caller s = leave id (keep caller (forget_task caller s))

-- The task has failed.
unfoldable pub fail_prewarm : ℕ → Caller → Pool → Pool
fail_prewarm id caller s = leave id (forget_task caller s)

unfoldable pub cancel_caller : ℕ → Caller → Pool → Pool
cancel_caller id caller s = record (leave id s) { abandoned = caller.task ∷ s.abandoned }

abbrev pub take_from : ℕ → Option ℕ → Pool → Option ℕ × Pool
take_from key none s = (none, s)
take_from key (some c) s =
    let next = record s { prewarmed_connections = pop s.prewarmed_connections key } in
    if prepared_is_usable s c
    then (some c, record next { runs = c ∷ s.runs })
    else (none, record next { shut = c ∷ s.shut })

-- `_take_prepared_connection`
unfoldable pub take_prepared_connection : ℕ → Pool → Option ℕ × Pool
take_prepared_connection key s = take_from key (get s.prewarmed_connections key) s

abbrev pub cancel_task : Task → Task
cancel_task task = elim task.state [
  | running ↦ record task { state = cancelled }
  | built ↦ task
  | failed ↦ task
  | cancelled ↦ task
]

abbrev pub cancel_tasks : List ℕ → Dict Task → Dict Task
cancel_tasks [] tasks = tasks
cancel_tasks (t ∷ ts) tasks = adjust (cancel_tasks ts tasks) t cancel_task

unfoldable pub clear_prewarmed_job_connections : Pool → Pool
clear_prewarmed_job_connections s = record s {
  prewarm_tasks = empty;
  tasks = cancel_tasks (values s.prewarm_tasks) s.tasks;
  prewarmed_connections = empty;
  shut = values s.prewarmed_connections ++ s.shut;
}

unfoldable pub close : Pool → Pool
unfolding clear_prewarmed_job_connections
close s = if s.is_closed then s else record (clear_prewarmed_job_connections s) { is_closed = true }
