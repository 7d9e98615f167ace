-- ===== src/Session/Invariant.antt =====
-- app_v1/sdk/master/python/gpstation_master/job_peer.py and app_v1/sdk/slave/worker.py: what holds of a session at any
-- time: a call is on its way, with the worker, or answered, at
-- most once, and no result is there that was not sent.
use gpstation.Prelude.{
  ℕ, suc, ◌+◌, ◌≤◌, ◌<◌, List, [], ◌∷◌, ◌++◌, ◌≡◌, inl, inr, refl, ap, arith, ◌==◌, is_some,
  Bool-cases, All, All-append, All-map, if◌then◌else◌,
}
use gpstation.Prelude.Dict.{Dict, get}
use gpstation.Transfer.Receiving.{Metadata}
use gpstation.Session.Messages.{
  ToWorker, job_call, ToClient, job_result, job_error, job_event, job_finished,
}
use gpstation.Session.Client.{Client}
use gpstation.Session.Worker.{Worker}
use gpstation.Session.Steps.{Session, worker_does}
use gpstation.Session.Spec.{Rpc, Move, asks, answers, settles, AtMostOne, rpc, view}
use gpstation.Session.Clients.{ClientOk}
use gpstation.Session.Handling.{IsSent, Keeps}
use gpstation.Session.Workers.{load, on_wire, on_wire-append}
use gpstation.Session.Peers.{one}

abbrev pub answers_to : ℕ → Dict ℕ → ℕ
answers_to j answered = if is_some (get answered j) then 1 else 0

-- How often call `j` is on its way, with the worker, or answered.
abbrev pub total : ℕ → Session → ℕ
total j s = answers_to j s.answered + load j s.worker + on_wire j s.to_worker

pub record IsCounted (s : Session) : Type 0 where
  pub once : (j : ℕ) → total j s ≤ 1
  pub asked : (j : ℕ) → s.client.call_index < j → total j s ≡ 0

pub record IsGood (s : Session) : Type 0 where
  pub client : ClientOk s.answered s.client
  pub counted : IsCounted s
  pub to_client : All (IsSent s.answered s.client.call_index) s.to_client

abbrev pub IsFine : Session → Session → Type 0
IsFine s u = IsGood u × AtMostOne (view s) (view u)

pub fewer :
    (s u : Session)
    → s.client.call_index ≤ u.client.call_index
    → ((j : ℕ) → total j u ≤ total j s)
    → IsCounted s
    → IsCounted u
fewer s u h less v = record {
  once = λ j. omega (arith, v.once j, less j);
  asked = λ j k. omega (arith, v.asked j (omega (arith, h, k)), less j);
}

asked_grows : {s u : Rpc} → Move s u → s.asked ≤ u.asked
asked_grows asks = omega arith
asked_grows (answers id r h fresh) = omega arith
asked_grows (settles id o h fresh t) = omega arith

never_fewer : (s u : Rpc) → AtMostOne s u → s.asked ≤ u.asked
never_fewer s u (inl e) = ground (arith, ap (λ r. r.asked) e)
never_fewer s u (inr m) = asked_grows m

IsSent-weaken :
    (answered : Dict ℕ) (n k : ℕ) (m : ToClient) → n ≤ k → IsSent answered n m → IsSent answered k m
IsSent-weaken answered n k (job_result id r) h (there, old) = (there, omega (arith, h, old))
IsSent-weaken answered n k (job_error id) h v = tt
IsSent-weaken answered n k (job_event id) h v = tt
IsSent-weaken answered n k job_finished h v = tt

module _ (s : Session) (g : IsGood s) where
  pub client-Fine :
      (c : Client) (ms : List ToWorker)
      → Keeps s.answered s.client c
      → IsCounted (record s { client = c; to_worker = ms })
      → IsFine s (record s { client = c; to_worker = ms })
  client-Fine c ms (v, m) counted =
      let h = never_fewer (view s) (rpc c s.answered) m in
      (
        record {
          client = v;
          counted = counted;
          to_client =
              All-map (IsSent s.answered s.client.call_index) (IsSent s.answered c.call_index)
                s.to_client (λ x w. IsSent-weaken s.answered s.client.call_index c.call_index x h w)
                g.to_client;
        },
        m,
      )

  -- An operation of the client that asks nothing.
  pub quiet-Fine :
      (c : Client) (ms : List ToWorker)
      → Keeps s.answered s.client c
      → ((j : ℕ) → on_wire j ms ≡ 0)
      → IsFine s (record s { client = c; to_worker = s.to_worker ++ ms })
  quiet-Fine c ms (v, m) quiet =
      client-Fine c (s.to_worker ++ ms) (v, m)
        (fewer s (record s { client = c; to_worker = s.to_worker ++ ms })
          (never_fewer (view s) (rpc c s.answered) m)
          (λ j. omega (arith, on_wire-append j s.to_worker ms, quiet j)) g.counted)

  pub silent-Fine : (c : Client) → Keeps s.answered s.client c → IsFine s (record s { client = c })
  silent-Fine c (v, m) =
      client-Fine c s.to_worker (v, m)
        (fewer s (record s { client = c }) (never_fewer (view s) (rpc c s.answered) m)
          (λ j. omega arith) g.counted)

  pub asked-IsCounted :
      (c : Client) (ms : List Metadata)
      → c.call_index ≡ suc s.client.call_index
      → IsCounted (record s {
        client = c;
        to_worker = s.to_worker ++ job_call (suc s.client.call_index) ms ∷ [];
      })
  asked-IsCounted c ms e =
      let n = s.client.call_index in
      let added : (j : ℕ)
          → on_wire j (s.to_worker ++ job_call (suc n) ms ∷ [])
            ≡ on_wire j s.to_worker + (one j (suc n) + 0) =
        λ j. on_wire-append j s.to_worker (job_call (suc n) ms ∷ []) in
      record {
        once = λ j. elim (Bool-cases (suc n == j)) [
          | inl same ↦ ground (arith, same, added j, g.counted.asked j, g.counted.once j)
          | inr other ↦ ground (arith, other, added j, g.counted.once j)
        ];
        asked = λ j k. ground (arith, e, k, added j, g.counted.asked j);
      }

  pub worker-Fine :
      (w : Worker) (ms : List ToClient)
      → ((j : ℕ) → load j w ≤ load j s.worker)
      → All (IsSent s.answered s.client.call_index) ms
      → IsFine s (worker_does (w, ms) s)
  worker-Fine w ms less told = (
    record {
      client = g.client;
      counted =
          fewer s (worker_does (w, ms) s) (omega arith) (λ j. omega (arith, less j)) g.counted;
      to_client =
          All-append (IsSent s.answered s.client.call_index) s.to_client ms g.to_client told;
    },
    inl refl,
  )
