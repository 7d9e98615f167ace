-- ===== src/Session/Refinement.antt =====
-- app_v1/sdk/master/python/gpstation_master/job_peer.py and app_v1/sdk/slave/worker.py: every step of a session is a
-- move of its contract, or one that the user does not see.
use mathlib.Core.Path.{subst}
use gpstation.Prelude.{ℕ, ◌≤◌, List, [], ◌∷◌, ◌≡◌, inl, inr, refl, sym, ap, ◌∙◌, arith, All-append}
use gpstation.Prelude.Dict.{get-empty}
use gpstation.Transfer.Frames.{HeaderText}
use gpstation.Session.Messages.{ToWorker, chunk, job_event}
use gpstation.Session.Client.{
  rejected, given_up, end_pending, reject_open_work, give_up_finish, on_close, close, drained,
  not_drained,
}
use gpstation.Session.Worker.{
  Worker, on_message, take_next, begin_call, fail_call, end_call, finish_session, break_off,
}
use gpstation.Session.Steps.{
  rejects, Session, worker_does, start, Step, calls, sends_frame, asks_to_finish, times_out,
  finish_times_out, errs, loses_channel, closes, client_receives, drains, drain_fails,
  worker_receives, takes, begins, tells, responds, fails, is_acknowledged, ends_session, breaks,
  Reach,
}
use gpstation.Session.Spec.{Rpc, Run, AtMostOne, view}
use gpstation.Session.Clients.{
  end_pending-ClientOk, end_pending-move, drained-ClientOk, drained-move, not_drained-ClientOk,
  not_drained-move,
}
use gpstation.Session.Handling.{
  IsSent, rejected-Keeps, give_up_finish-Keeps, reject_open_work-Keeps, on_close-Keeps, close-Keeps,
}
use gpstation.Session.Workers.{load, on_wire, load-message, message-IsSent, load-take, load-begin}
use gpstation.Session.Invariant.{IsGood, IsFine, fewer, quiet-Fine, silent-Fine, worker-Fine}
use gpstation.Session.Answers.{call-Fine, finish-Fine, receipt-Fine, responds-Fine}

-- A step of the worker that is not seen.
unseen-Fine :
    (s : Session) (w : Worker)
    → ((j : ℕ) → load j w ≤ load j s.worker)
    → IsGood s
    → IsFine s (record s { worker = w })
unseen-Fine s w less g = (
  record {
    client = g.client;
    counted =
        fewer s (record s { worker = w }) (omega arith) (λ j. omega (arith, less j)) g.counted;
    to_client = g.to_client;
  },
  inl refl,
)

delivery-Fine :
    (t : HeaderText) (s : Session) (m : ToWorker) (rest : List ToWorker)
    → s.to_worker ≡ m ∷ rest
    → IsGood s
    → IsFine s (worker_does (on_message t m s.worker) (record s { to_worker = rest }))
delivery-Fine t s m rest e g =
    let u = worker_does (on_message t m s.worker) (record s { to_worker = rest }) in
    (
      record {
        client = g.client;
        counted =
            fewer s u (omega arith)
              (λ j. omega (arith, load-message j t m s.worker, ap (on_wire j) e)) g.counted;
        to_client =
            All-append (IsSent s.answered s.client.call_index) s.to_client _ g.to_client
              (message-IsSent s.answered s.client.call_index t m s.worker);
      },
      inl refl,
    )

Step-Fine : {t : HeaderText} {s u : Session} → Step t s u → IsGood s → IsFine s u
unfolding fail_call end_call finish_session break_off
Step-Fine {s = s} (calls ms) g = call-Fine s ms g
Step-Fine {s = s} (sends_frame frame) g =
    quiet-Fine s g s.client (chunk frame ∷ []) (g.client, inl refl) (λ j. omega arith)
Step-Fine {s = s} asks_to_finish g = finish-Fine s g
Step-Fine {s = s} times_out g = silent-Fine s g (end_pending given_up s.client) (
  end_pending-ClientOk s.answered s.client g.client given_up,
  end_pending-move s.answered s.client g.client given_up (λ i. tt),
)
Step-Fine {s = s} finish_times_out g =
    silent-Fine s g (give_up_finish s.client) (give_up_finish-Keeps s.answered s.client g.client)
Step-Fine {s = s} rejects g =
    silent-Fine s g (end_pending rejected s.client) (rejected-Keeps s.answered s.client g.client)
Step-Fine {s = s} errs g =
    silent-Fine s g (reject_open_work s.client)
      (reject_open_work-Keeps s.answered s.client g.client)
Step-Fine {s = s} loses_channel g =
    silent-Fine s g (on_close s.client) (on_close-Keeps s.answered s.client g.client)
Step-Fine {s = s} closes g =
    silent-Fine s g (close s.client) (close-Keeps s.answered s.client g.client)
Step-Fine {s = s} (client_receives m rest e free) g = receipt-Fine s m rest e g
Step-Fine {s = s} drains g =
    silent-Fine s g (drained s.client)
      (drained-ClientOk s.answered s.client g.client, drained-move s.answered s.client g.client)
Step-Fine {s = s} drain_fails g = silent-Fine s g (not_drained s.client) (
  not_drained-ClientOk s.answered s.client g.client,
  not_drained-move s.answered s.client g.client,
)
Step-Fine {t = t} {s = s} (worker_receives m rest e) g = delivery-Fine t s m rest e g
Step-Fine {s = s} (takes c rest free e) g =
    unseen-Fine s (take_next c s.worker) (λ j. load-take j c rest s.worker e) g
Step-Fine {s = s} (begins id e) g =
    unseen-Fine s (begin_call id s.worker) (λ j. omega (arith, load-begin j id s.worker e)) g
Step-Fine {s = s} (tells id e) g =
    worker-Fine s g s.worker (job_event id ∷ []) (λ j. omega arith) (tt, tt)
Step-Fine {s = s} (responds id payload e) g = responds-Fine s id payload e g
Step-Fine {s = s} (fails id e) g =
    worker-Fine s g (fail_call id s.worker).0 _ (λ j. omega arith) (tt, tt)
Step-Fine {s = s} (is_acknowledged id e) g = unseen-Fine s (end_call s.worker) (λ j. omega arith) g
Step-Fine {s = s} (ends_session free e) g =
    worker-Fine s g (finish_session s.worker).0 _ (λ j. omega arith) (tt, tt)
Step-Fine {s = s} breaks g = worker-Fine s g (break_off s.worker).0 _ (λ j. omega arith) (tt, tt)

start-Good : IsGood start
start-Good = record {
  client = record {
    pending = λ id e. absurd (ground (arith, e));
    old = λ id o e. absurd (ground (arith, sym (get-empty id) ∙ e));
    resolving = λ id r e. absurd (ground (arith, e));
  };
  counted = record {
    once = λ j. ground (arith, get-empty {V = ℕ} j);
    asked = λ j k. ground (arith, get-empty {V = ℕ} j);
  };
  to_client = tt;
}

more : {a : Rpc} (s u : Session) → AtMostOne (view s) (view u) → Run a (view s) → Run a (view u)
more {a = a} s u (inl e) r = subst (Run a) (sym e) r
more s u (inr m) r = Run.next r m

Run-Good :
    {t : HeaderText} {s u : Session} → IsGood s → Reach t s u → IsGood u × Run (view s) (view u)
Run-Good g Reach.here = (g, Run.here)
Run-Good g (Reach.next {u = u} {v = v} r st) =
    let (h, run) = Run-Good g r in let (w, m) = Step-Fine st h in (w, more u v m run)

pub Reach-Good : {t : HeaderText} {s : Session} → Reach t start s → IsGood s
Reach-Good r = (Run-Good start-Good r).0

-- Between any two states of a session, the later one reached from the earlier, whatever is on its way, times out or
-- fails, what the user sees moves along a run of the contract: calls are asked, answered at most once and settled at
-- most once, an answer and an outcome stay as they are, and a call is resolved only with the answer that the worker
-- gave to that call.
pub view-Run :
    (t : HeaderText) (s u : Session) → Reach t start s → Reach t s u → Run (view s) (view u)
view-Run t s u r q = (Run-Good (Reach-Good r) q).1
