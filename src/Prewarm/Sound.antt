-- ===== src/Prewarm/Sound.antt =====
-- app_v1/sdk/master/python/gpstation_master/client.py: what stands in the tables of prepared connections is of the key
-- under which it stands.
use gpstation.Prelude.{ℕ, some, ◌≡◌, sym, ◌∙◌, arith}
use gpstation.Prelude.Dict.{Dict, get, put, pop, get-empty, empty}
use gpstation.Prelude.Entries.{put-cases, pop-cases}
use gpstation.Prewarm.Pool.{TaskState, built, Task, Caller}

abbrev pub IsAt : Dict Task → ℕ → ℕ → TaskState → Type 0
IsAt ts t key state = get ts t ≡ some (record { key = key; state = state })

abbrev pub IsOf : Dict Task → ℕ → ℕ → Type 0
IsOf ts t key = (state : TaskState) × IsAt ts t key state

-- A task keeps its key, and its connection once it is built.
pub record IsLater (ts us : Dict Task) : Type 0 where
  pub same : (t key : ℕ) → IsOf ts t key → IsOf us t key
  pub done : (t key : ℕ) → IsAt ts t key built → IsAt us t key built

pub record IsSound (connections tasks : Dict ℕ) (ts : Dict Task) (callers : Dict Caller)
    : Type 0 where
  pub pooled : (key c : ℕ) → get connections key ≡ some c → IsAt ts c key built
  pub tasked : (key t : ℕ) → get tasks key ≡ some t → IsOf ts t key
  pub called : (id : ℕ) (c : Caller) → get callers id ≡ some c → IsOf ts c.task c.key

-- An entry of a dictionary after an update is the new one or an old one.
module _ (ps ws : Dict ℕ) (ts : Dict Task) (cs : Dict Caller) (v : IsSound ps ws ts cs) where
  pub put_pool-IsSound : (key c : ℕ) → IsAt ts c key built → IsSound (put ps key c) ws ts cs
  put_pool-IsSound key c h = record {
    pooled = put-cases ps (λ k d. IsAt ts d k built) key c h v.pooled;
    tasked = v.tasked;
    called = v.called;
  }

  pub pop_pool-IsSound : (key : ℕ) → IsSound (pop ps key) ws ts cs
  pop_pool-IsSound key = record {
    pooled = λ k c e. v.pooled k c (pop-cases ps key k c e);
    tasked = v.tasked;
    called = v.called;
  }

  pub put_task-IsSound : (key t : ℕ) → IsOf ts t key → IsSound ps (put ws key t) ts cs
  put_task-IsSound key t h = record {
    pooled = v.pooled;
    tasked = put-cases ws (λ k w. IsOf ts w k) key t h v.tasked;
    called = v.called;
  }

  pub pop_task-IsSound : (key : ℕ) → IsSound ps (pop ws key) ts cs
  pop_task-IsSound key = record {
    pooled = v.pooled;
    tasked = λ k t e. v.tasked k t (pop-cases ws key k t e);
    called = v.called;
  }

  pub put_caller-IsSound :
      (id : ℕ) (c : Caller) → IsOf ts c.task c.key → IsSound ps ws ts (put cs id c)
  put_caller-IsSound id c h = record {
    pooled = v.pooled;
    tasked = v.tasked;
    called = put-cases cs (λ i d. IsOf ts d.task d.key) id c h v.called;
  }

  pub pop_caller-IsSound : (id : ℕ) → IsSound ps ws ts (pop cs id)
  pop_caller-IsSound id = record {
    pooled = v.pooled;
    tasked = v.tasked;
    called = λ i c e. v.called i c (pop-cases cs id i c e);
  }

  pub later-IsSound : (us : Dict Task) → IsLater ts us → IsSound ps ws us cs
  later-IsSound us h = record {
    pooled = λ key c e. h.done c key (v.pooled key c e);
    tasked = λ key t e. h.same t key (v.tasked key t e);
    called = λ id c e. h.same c.task c.key (v.called id c e);
  }

  pub cleared-IsSound : IsSound empty empty ts cs
  cleared-IsSound = record {
    pooled = λ key c e. absurd (ground (arith, sym (get-empty {V = ℕ} key) ∙ e));
    tasked = λ key t e. absurd (ground (arith, sym (get-empty {V = ℕ} key) ∙ e));
    called = v.called;
  }
