-- ===== src/Jobs/Rows.antt =====
-- app_v1/server/app/db.py: the rows that the job service reads and writes. A time is a number of
-- microseconds. A user, a job and a launcher are known by opaque ids, a number for each.
use gpstation.Prelude.{ℕ, ◌*◌, String, Bool, true, false, Option, none, some, List, ◌≡◌, refl}
use gpstation.Protocol.{Json}

pub data JobState : Type 0 where
  queued assigned answer_ready running succeeded failed cancelled killed : JobState

pub record Job : Type 0 where
  pub id : ℕ
  pub user_id : ℕ
  pub launcher_id : Option ℕ
  pub handler_type : String
  pub slave_app_id : ℕ
  pub offer : Json
  pub answer : Option Json
  pub progress : List (ℕ × Json)
  pub state : JobState
  pub assigned_at : Option ℕ
  pub answer_ready_at : Option ℕ
  pub started_at : Option ℕ
  pub finished_at : Option ℕ
  pub cancel_requested_at : Option ℕ
  pub last_error : Option String
  pub attempt_count : ℕ
  pub created_at : ℕ
  pub updated_at : ℕ

pub data LauncherStatus : Type 0 where
  ready busy disconnected : LauncherStatus

pub record Launcher : Type 0 where
  pub id : ℕ
  pub user_id : ℕ
  pub status : LauncherStatus
  pub slave_app_ids : List ℕ
  pub connected_at : ℕ
  pub last_heartbeat_at : ℕ
  pub disconnected_at : Option ℕ
  pub updated_at : ℕ

pub record Db : Type 0 where
  pub jobs : List Job
  pub launchers : List Launcher

-- A service method returns, or raises `ValueError` before it has written anything.
pub data Outcome (A : Type 0) : Type 0 where
  returned : A → Outcome A
  raised : String → Outcome A

infixl 5 ◌>>=◌ ◌>>◌
abbrev pub ◌>>=◌ : {A B : Type 0} → Outcome A → (A → Outcome B) → Outcome B
returned a >>= f = f a
raised message >>= f = raised message

abbrev pub ◌>>◌ : {B : Type 0} → Outcome Unit → Outcome B → Outcome B
m >> k = m >>= λ _. k

-- `if test: raise ValueError(message)`
abbrev pub raise_if : Bool → String → Outcome Unit
raise_if true message = raised message
raise_if false message = returned tt

abbrev pub or_raise : {A : Type 0} → Option A → String → Outcome A
or_raise none message = raised message
or_raise (some a) message = returned a

-- The tables after a method: one that raises has written nothing.
abbrev pub after : {A : Type 0} → Db → Outcome (A × Db) → Db
after db (returned (a, db')) = db'
after db (raised message) = db

-- What holds of the tables, and after the rest of a method, holds after the method.
pub after-bind :
    {A B : Type 0} (P : Db → Type 0) (db : Db) (m : Outcome A) (f : A → Outcome (B × Db))
    → P db
    → ((a : A) → m ≡ returned a → P (after db (f a)))
    → P (after db (m >>= f))
after-bind P db (returned a) f h k = k a refl
after-bind P db (raised message) f h k = h

pub raise_if-returned :
    (test : Bool) (message : String) {u : Unit} → raise_if test message ≡ returned u → test ≡ false
raise_if-returned true message e = cc
raise_if-returned false message e = refl

abbrev pub is_terminal : JobState → Bool
is_terminal succeeded = true
is_terminal failed = true
is_terminal cancelled = true
is_terminal killed = true
is_terminal _ = false

abbrev pub is_active : JobState → Bool
is_active assigned = true
is_active answer_ready = true
is_active running = true
is_active _ = false

abbrev pub is_queued : JobState → Bool
is_queued queued = true
is_queued _ = false

abbrev pub is_assigned : JobState → Bool
is_assigned assigned = true
is_assigned _ = false

abbrev pub is_answer_ready : JobState → Bool
is_answer_ready answer_ready = true
is_answer_ready _ = false

abbrev pub is_running : JobState → Bool
is_running running = true
is_running _ = false

abbrev pub is_ready : LauncherStatus → Bool
is_ready ready = true
is_ready _ = false

abbrev pub is_disconnected : LauncherStatus → Bool
is_disconnected disconnected = true
is_disconnected _ = false

abbrev pub job_offer_max_bytes : ℕ
job_offer_max_bytes = 512 * 1024

abbrev pub job_progress_max_bytes : ℕ
job_progress_max_bytes = 64 * 1024

abbrev pub job_progress_max_items : ℕ
job_progress_max_items = 1000

-- Two hours and a day.
abbrev pub job_idle_timeout : ℕ
job_idle_timeout = 7_200_000_000

abbrev pub job_max_lifetime : ℕ
job_max_lifetime = 86_400_000_000
