-- ===== src/Protocol.antt =====
-- app_v1/sdk/protocol/messages.py: the JSON values and the control messages that the server and a
-- launcher exchange. Ids are opaque and are only compared: a number stands for each.
use gpstation.Prelude.{ℕ, String, Bool, true, false, Option, none, some}

mutual
  pub data Json : Type 0 where
    null : Json
    bool : Bool → Json
    num : ℕ → Json
    str : String → Json
    arr : Items → Json
    obj : Fields → Json

  pub data Items : Type 0 where
    nil : Items
    cons : Json → Items → Items

  pub data Fields : Type 0 where
    end : Fields
    field : String → Json → Fields → Fields

pub data SignalType : Type 0 where
  offer answer ice end_of_candidates : SignalType

pub record SignalPayload : Type 0 where
  pub type : SignalType
  pub sdp : Option String
  pub candidate : Option String
  pub sdp_mid : Option String
  pub sdp_m_line_index : Option ℕ

-- The launcher's side of the protocol, behind `launcher.hello`.
pub data LauncherMessage : Type 0 where
  job_answer : ℕ → SignalPayload → LauncherMessage
  job_running : ℕ → LauncherMessage
  job_progress : ℕ → Json → LauncherMessage
  job_result : ℕ → LauncherMessage
  job_error : ℕ → String → String → LauncherMessage
  job_cancelled : ℕ → String → LauncherMessage
  worker_reset_done : LauncherMessage

-- What the server relies on of the json module and of pydantic: the size of a value's compact
-- UTF-8 text, if it has one, and the two directions of the model `SignalPayload`.
pub record Codec : Type 0 where
  pub size : Json → Option ℕ
  pub validate_signal : Json → Option SignalPayload
  pub dump_signal : SignalPayload → Json

-- Python's `not text` on an optional text.
abbrev pub is_blank : Option String → Bool
is_blank none = true
is_blank (some String.[]) = true
is_blank (some (String.◌∷◌ c s)) = false

abbrev pub is_offer : SignalType → Bool
is_offer offer = true
is_offer _ = false

abbrev pub is_answer : SignalType → Bool
is_answer answer = true
is_answer _ = false
