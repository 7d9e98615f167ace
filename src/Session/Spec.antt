-- ===== src/Session/Spec.antt =====
-- app_v1/sdk/master/python/gpstation_master/job_peer.py and app_v1/sdk/slave/worker.py: what a session promises its
-- user: calls are asked, answered at most once and settled at most once, and a call that is resolved has that call's
-- answer.
use gpstation.Prelude.{ℕ, suc, ◌≤◌, none, some, ◌≡◌, ◌⊎◌}
use gpstation.Prelude.Dict.{Dict, get, put}
use gpstation.Session.Client.{Outcome, resolved, rejected, given_up, Client}
use gpstation.Session.Steps.{Session}

-- Calls are numbered as they are asked.
pub record Rpc : Type 0 where
  pub asked : ℕ
  pub answered : Dict ℕ
  pub settled : Dict Outcome

-- An outcome that the history bears out.
abbrev pub IsTrue : Dict ℕ → ℕ → Outcome → Type 0
IsTrue answered id (resolved r) = get answered id ≡ some r
IsTrue answered id rejected = Unit
IsTrue answered id given_up = Unit

pub data Move (s : Rpc) : Rpc → Type 0 where
  asks : Move s (record s { asked = suc s.asked })
  answers :
      (id r : ℕ)
      → id ≤ s.asked
      → get s.answered id ≡ none
      → Move s (record s { answered = put s.answered id r })
  settles :
      (id : ℕ) (o : Outcome)
      → id ≤ s.asked
      → get s.settled id ≡ none
      → IsTrue s.answered id o
      → Move s (record s { settled = put s.settled id o })

pub data Run (s : Rpc) : Rpc → Type 0 where
  here : Run s s
  next : {u v : Rpc} → Run s u → Move u v → Run s v

abbrev pub AtMostOne : Rpc → Rpc → Type 0
AtMostOne s u = (u ≡ s) ⊎ Move s u

abbrev pub rpc : Client → Dict ℕ → Rpc
rpc c answered = record { asked = c.call_index; answered = answered; settled = c.futures }

-- What the user of a session sees: neither the messages on their way nor where the worker is.
abbrev pub view : Session → Rpc
view s = rpc s.client s.answered
