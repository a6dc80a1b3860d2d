-- ===== src/SendQueue/Serial.antt =====
-- One task at a time: no two sends ever run together, whatever fires in whatever order.
use zcash_faucet.Base.{
  ℕ, zero, suc, ◌+◌, ◌≤◌, ◌≡◌, refl, ◌∙◌, Bool, true, false, not, ◌&&◌, none, List, [], ◌∷◌, ◌++◌,
  arith, total, count_if, one_if, if◌then◌else◌,
}
use zcash_faucet.SendQueue.{
  waiting, Job, SerialQueue, new_queue, is_waiting, is_running, is_settled, run, start_job, end_job,
  expire_job, settle_job, Event, runs, starts, ends, expires, settles, handle, handle_all,
}

abbrev all_waiting : List Job → Bool
all_waiting [] = true
all_waiting (j ∷ js) = is_waiting j && all_waiting js

-- Settled jobs, then at most one that has started, then waiting ones.
abbrev pub in_order : List Job → Bool
in_order [] = true
in_order (j ∷ js) = let rest = in_order js in if is_settled j then rest else all_waiting js

abbrev pub unsettled : List Job → ℕ
unsettled = count_if λ j. not (is_settled j)

waiting-in_order : (js : List Job) → all_waiting js ≡ true → in_order js ≡ true
waiting-in_order [] w = refl
waiting-in_order (j ∷ js) w = ground (arith, waiting-in_order js)

-- Jobs that wait behind one that has not settled are not moved by any event.
start_waiting : (k : ℕ) (js : List Job) → all_waiting js ≡ true → start_job false k js ≡ js
unfolding start_job
start_waiting k [] w = refl
start_waiting zero (j ∷ js) w = refl
start_waiting (suc k) (j ∷ js) w = ground (arith, start_waiting k js)

end_waiting : (k : ℕ) (js : List Job) → all_waiting js ≡ true → end_job k js ≡ js
unfolding end_job
end_waiting k [] w = refl
end_waiting zero (j ∷ js) w = ground arith
end_waiting (suc k) (j ∷ js) w = ground (arith, end_waiting k js)

expire_waiting : (k : ℕ) (js : List Job) → all_waiting js ≡ true → expire_job k js ≡ js
unfolding expire_job
expire_waiting k [] w = refl
expire_waiting zero (j ∷ js) w = ground arith
expire_waiting (suc k) (j ∷ js) w = ground (arith, expire_waiting k js)

settle_waiting :
    (k : ℕ) (js : List Job)
    → all_waiting js ≡ true
    → ((settle_job k js).0 ≡ js) × ((settle_job k js).1 ≡ false)
unfolding settle_job
settle_waiting k [] w = (refl, refl)
settle_waiting zero (j ∷ js) w = ground arith
settle_waiting (suc k) (j ∷ js) w = ground (arith, settle_waiting k js)

start_job-in_order :
    (resolved : Bool) (k : ℕ) (js : List Job)
    → in_order js ≡ true
    → (in_order (start_job resolved k js) ≡ true)
      × (unsettled (start_job resolved k js) ≡ unsettled js)
unfolding start_job total
start_job-in_order resolved k [] s = (refl, refl)
start_job-in_order resolved zero (j ∷ js) s = ground arith
start_job-in_order resolved (suc k) (j ∷ js) s =
    ground (arith, start_job-in_order true k js, start_waiting k js)

end_job-in_order :
    (k : ℕ) (js : List Job)
    → in_order js ≡ true
    → (in_order (end_job k js) ≡ true) × (unsettled (end_job k js) ≡ unsettled js)
unfolding end_job total
end_job-in_order k [] s = (refl, refl)
end_job-in_order zero (j ∷ js) s = ground arith
end_job-in_order (suc k) (j ∷ js) s = ground (arith, end_job-in_order k js, end_waiting k js)

expire_job-in_order :
    (k : ℕ) (js : List Job)
    → in_order js ≡ true
    → (in_order (expire_job k js) ≡ true) × (unsettled (expire_job k js) ≡ unsettled js)
unfolding expire_job total
expire_job-in_order k [] s = (refl, refl)
expire_job-in_order zero (j ∷ js) s = ground arith
expire_job-in_order (suc k) (j ∷ js) s =
    ground (arith, expire_job-in_order k js, expire_waiting k js)

settle_job-in_order :
    (k : ℕ) (js : List Job)
    → in_order js ≡ true
    → (in_order (settle_job k js).0 ≡ true)
      × (unsettled (settle_job k js).0 + one_if (settle_job k js).1 ≡ unsettled js)
unfolding settle_job total
settle_job-in_order k [] s = (refl, refl)
settle_job-in_order zero (j ∷ js) s = ground (arith, waiting-in_order js)
settle_job-in_order (suc k) (j ∷ js) s =
    ground (arith, settle_job-in_order k js, settle_waiting k js)

waiting-snoc :
    (js : List Job) (j : Job)
    → all_waiting js ≡ true
    → is_waiting j ≡ true
    → all_waiting (js ++ j ∷ []) ≡ true
waiting-snoc [] j w n = ground arith
waiting-snoc (i ∷ js) j w n = ground (arith, waiting-snoc js j)

in_order-snoc :
    (js : List Job) (j : Job)
    → in_order js ≡ true
    → is_waiting j ≡ true
    → (in_order (js ++ j ∷ []) ≡ true) × (unsettled (js ++ j ∷ []) ≡ unsettled js + 1)
unfolding total
in_order-snoc [] j s n = ground arith
in_order-snoc (i ∷ js) j s n =
    ground (arith, in_order-snoc js j, waiting-snoc js j, waiting-in_order js)

running-waiting : (js : List Job) → all_waiting js ≡ true → count_if is_running js ≡ 0
unfolding total
running-waiting [] w = refl
running-waiting (j ∷ js) w = ground (arith, running-waiting js)

running-in_order : (js : List Job) → in_order js ≡ true → count_if is_running js ≤ 1
unfolding total
running-in_order [] s = omega arith
running-in_order (j ∷ js) s = ground (arith, running-in_order js, running-waiting js)

record IsValid (q : SerialQueue) : Type 0 where
  ordered : in_order q.jobs ≡ true
  counted : q.pending ≡ unsettled q.jobs
  bounded : q.pending ≤ q.max_pending

handle-IsValid :
    (q : SerialQueue) (e : Event)
    → IsValid q
    → IsValid (handle q e) × ((handle q e).max_pending ≡ q.max_pending)
unfolding handle run
handle-IsValid q (runs deadline_ms) v = ground (
  arith,
  in_order-snoc q.jobs (record { deadline_ms = deadline_ms; phase = waiting; answer = none })
      v.ordered refl,
)
handle-IsValid q (starts k) v = ground (arith, start_job-in_order true k q.jobs v.ordered)
handle-IsValid q (ends k) v = ground (arith, end_job-in_order k q.jobs v.ordered)
handle-IsValid q (expires k) v = ground (arith, expire_job-in_order k q.jobs v.ordered)
handle-IsValid q (settles k) v = ground (arith, settle_job-in_order k q.jobs v.ordered)

handle_all-IsValid :
    (es : List Event) (q : SerialQueue)
    → IsValid q
    → IsValid (handle_all es q) × ((handle_all es q).max_pending ≡ q.max_pending)
handle_all-IsValid [] q v = (v, refl)
handle_all-IsValid (e ∷ es) q v =
    let (w, same) = handle-IsValid q e v in
    let (x, same') = handle_all-IsValid es (handle q e) w in (x, same' ∙ same)

-- From a new queue, whatever calls, starts, ends, expired deadlines and settlements come in
-- whatever order: at most one task runs at a time; a task starts only once all before it have
-- settled, one whose caller was told of a deadline included; `pending` counts exactly the tasks
-- that have not settled; and it stays within the queue's bound.
pub handle_all-serial :
    (max_pending : ℕ) (es : List Event)
    → (count_if is_running (handle_all es (new_queue max_pending)).jobs ≤ 1)
      × (in_order (handle_all es (new_queue max_pending)).jobs ≡ true)
      × ((handle_all es (new_queue max_pending)).pending
          ≡ unsettled (handle_all es (new_queue max_pending)).jobs)
      × ((handle_all es (new_queue max_pending)).pending ≤ max_pending)
unfolding new_queue total
handle_all-serial max_pending es =
    let (v, same) =
      handle_all-IsValid es (new_queue max_pending)
        (record { ordered = refl; counted = refl; bounded = omega arith }) in
    (
      running-in_order (handle_all es (new_queue max_pending)).jobs v.ordered,
      v.ordered,
      v.counted,
      omega (arith, v.bounded, same),
    )
