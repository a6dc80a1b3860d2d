-- ===== src/SendQueue.antt =====
-- src/lib/zcash/queue.ts: SerialQueue. A task that `run` accepts is a job, and the jobs stand in the
-- order of their calls. Each promise of the chain is a phase of its job: a job may start once the
-- tail before it has resolved, its work ends, and then its own tail resolves and frees its slot.
-- The events of the promises and the timers come in any order; one whose turn it is not does nothing.
pub mod Serial
mod Tests
use zcash_faucet.Base.{
  ℕ, zero, suc, ◌+◌, ◌-◌, Bool, true, false, not, ◌&&◌, Option, none, some, List, [], ◌∷◌, ◌++◌,
  ltb, leb, if◌then◌else◌,
}

-- `waiting` for the tail before it, `running` its task, `ended` before its own tail has resolved.
pub data Phase : Type 0 where
  waiting running ended settled : Phase

-- What the caller of `run` was given: the task's own result, or TaskDeadlineError.
pub data Answer : Type 0 where
  result past_deadline : Answer

pub record Job : Type 0 where
  pub deadline_ms : ℕ
  pub phase : Phase
  pub answer : Option Answer

pub record SerialQueue : Type 0 where
  pub jobs : List Job
  pub pending : ℕ
  pub max_pending : ℕ

unfoldable pub new_queue : ℕ → SerialQueue
new_queue max_pending = record { jobs = []; pending = 0; max_pending = max_pending }

abbrev pub is_waiting : Job → Bool
is_waiting j = elim j.phase [ waiting ↦ true | _ ↦ false ]

abbrev pub is_running : Job → Bool
is_running j = elim j.phase [ running ↦ true | _ ↦ false ]

abbrev pub is_ended : Job → Bool
is_ended j = elim j.phase [ ended ↦ true | _ ↦ false ]

abbrev pub is_settled : Job → Bool
is_settled j = elim j.phase [ settled ↦ true | _ ↦ false ]

-- `run`: whether the task was accepted, or met QueueFullError.
pub run : ℕ → SerialQueue → SerialQueue × Bool
run deadline_ms q = if leb q.max_pending q.pending then (q, false) else (
  record q {
    jobs = q.jobs ++ record { deadline_ms = deadline_ms; phase = waiting; answer = none } ∷ [];
    pending = q.pending + 1;
  },
  true,
)

-- `this.tail.then(...)`: the job at a place starts if the tail before it has resolved.
pub start_job : Bool → ℕ → List Job → List Job
start_job tail_resolved k [] = []
start_job tail_resolved zero (j ∷ js) =
    (if tail_resolved && is_waiting j then record j { phase = running } else j) ∷ js
start_job tail_resolved (suc k) (j ∷ js) = j ∷ start_job (is_settled j) k js

-- The race of the work and the deadline: the first to answer is the answer.
abbrev pub answer_first : Answer → Option Answer → Option Answer
answer_first a none = some a
answer_first a (some b) = some b

-- The work of the job at a place ends, in its result or in its error.
pub end_job : ℕ → List Job → List Job
end_job k [] = []
end_job zero (j ∷ js) =
    (if is_running j then record j { phase = ended; answer = answer_first result j.answer } else j)
    ∷ js
end_job (suc k) (j ∷ js) = j ∷ end_job k js

-- The timer of a job, armed when its task starts and cleared when it settles, fires.
pub expire_job : ℕ → List Job → List Job
expire_job k [] = []
expire_job zero (j ∷ js) =
    (if is_running j && ltb 0 j.deadline_ms
      then record j { answer = answer_first past_deadline j.answer }
      else j)
    ∷ js
expire_job (suc k) (j ∷ js) = j ∷ expire_job k js

-- `settle`: whether the job at a place settles now, and the jobs afterwards.
pub settle_job : ℕ → List Job → List Job × Bool
settle_job k [] = ([], false)
settle_job zero (j ∷ js) =
    if is_ended j then (record j { phase = settled } ∷ js, true) else (j ∷ js, false)
settle_job (suc k) (j ∷ js) = let rest = settle_job k js in (j ∷ rest.0, rest.1)

abbrev pub free_slot : SerialQueue → List Job × Bool → SerialQueue
free_slot q (js, true) = record q { jobs = js; pending = q.pending - 1 }
free_slot q (js, false) = record q { jobs = js }

pub data Event : Type 0 where
  runs starts ends expires settles : ℕ → Event

pub handle : SerialQueue → Event → SerialQueue
unfolding run start_job end_job expire_job settle_job
handle q (runs deadline_ms) = (run deadline_ms q).0
handle q (starts k) = record q { jobs = start_job true k q.jobs }
handle q (ends k) = record q { jobs = end_job k q.jobs }
handle q (expires k) = record q { jobs = expire_job k q.jobs }
handle q (settles k) = free_slot q (settle_job k q.jobs)

abbrev pub handle_all : List Event → SerialQueue → SerialQueue
handle_all [] q = q
handle_all (e ∷ es) q = handle_all es (handle q e)
