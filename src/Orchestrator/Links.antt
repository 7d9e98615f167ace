-- ===== src/Orchestrator/Links.antt =====
-- A new connection and the heartbeats on it keep the database and the registry in step.
use gpstation.Prelude.{
  ℕ, Bool, ◌&&◌, not, Option, some, List, refl, sym, ap, ◌∙◌, inl, inr, ◌≢◌, arith, Memᴰ,
  Bool-cases, Option-cases, ◌==◌, ==_iff,
}
use gpstation.Prelude.Dict.{Dict, get, get-put}
use gpstation.Jobs.Rows.{Job}
use gpstation.Jobs.LauncherRows
use gpstation.Jobs.LauncherRows.{create_connected_launcher, find_disconnected_launcher_ids}
use gpstation.Registry.Launchers.{
  new_launcher, key_of, Launchers, HeartbeatStatus, register_launcher, mark_heartbeat,
  heartbeat_actions, note_heartbeat,
}
use gpstation.Orchestrator.Server.{Server}
use gpstation.Orchestrator.Connections.{
  connect_launcher, Heartbeat, handle_heartbeat, heartbeat_interval, key_is_active,
}
use gpstation.Orchestrator.Ownership.{Coherent, Weaker, Weaker-Coherent, Weaker-adjust}
use gpstation.Orchestrator.Upkeep.{InStep}

pub connect-InStep :
    (launcher user : ℕ) (apps : List ℕ) (socket : ℕ) (timeouts : Dict ℕ) (key : Option ℕ)
    (clock now : ℕ) (s : Server)
    → ((j : Job) → Memᴰ j s.db.jobs → j.launcher_id ≢ some launcher)
    → InStep s
    → InStep (connect_launcher launcher user apps socket timeouts key clock now s)
unfolding connect_launcher create_connected_launcher register_launcher
connect-InStep launcher user apps socket timeouts key clock now s fresh v = record {
  table = record { distinct = v.table.distinct; sound = v.table.sound };
  owned = λ j l r m a on g. elim (Bool-cases (launcher == l)) [
    | inl here ↦ absurd (fresh j m (on ∙ ap some (sym ((==_iff launcher l).0 here))))
    | inr there ↦ v.owned j l r m a on (
        ground (
          arith,
          get-put s.launchers launcher l (new_launcher launcher socket timeouts key clock),
          there,
          g,
        ))
  ];
}

noted-Weaker :
    (launcher : ℕ) (status : HeartbeatStatus) (now interval : ℕ) (launchers : Launchers)
    → Weaker launchers (heartbeat_actions launcher status now interval launchers).2
unfolding heartbeat_actions
noted-Weaker launcher status now interval launchers = elim (Option-cases (get launchers launcher)) [
  | inl n ↦ rw (n, heartbeat_actions) (λ l r g. (r, g, refl))
  | inr (q, e) ↦
      rw (e, heartbeat_actions)
        (Weaker-adjust launchers launcher (note_heartbeat status now interval) (λ p h. refl))
]

pub heartbeat-InStep :
    (active : ℕ → Bool) (launcher : ℕ) (message : Heartbeat) (clock now : ℕ) (s : Server)
    → InStep s
    → InStep (handle_heartbeat active launcher message clock now s).1
unfolding handle_heartbeat mark_heartbeat LauncherRows.mark_heartbeat
heartbeat-InStep active launcher message clock now s v =
    let (persist, check, noted) =
      heartbeat_actions launcher message.status clock heartbeat_interval s.launchers in
    let n : Coherent s.db noted =
      Weaker-Coherent s.db s.launchers noted
        (noted-Weaker launcher message.status clock heartbeat_interval s.launchers) v in
    let m =
      Weaker-Coherent s.db noted _
        (Weaker-adjust noted launcher
          (λ l. record l {
            loaded_slave_app_id = message.loaded_slave_app_id;
            worker_status = message.worker_status;
            metadata = message.metadata;
          })
          (λ q h. refl))
        n in
    elim (Bool-cases (check && not (key_is_active active (key_of noted launcher)))) [
      | inl bad ↦ rw bad n
      | inr good ↦ elim (Bool-cases persist) [
        | inl y ↦ rw good (
            rw y (record {
              table = record { distinct = m.table.distinct; sound = m.table.sound };
              owned = m.owned;
            }))
        | inr x ↦ rw good (rw x m)
      ]
    ]
