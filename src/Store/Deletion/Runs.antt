-- ===== src/Store/Deletion/Runs.antt =====
-- The queue over time: any sequence of its transactions, while administrators come, go and change
-- their passwords.
use icloud_api_mangobubu.Store.Deletion.Fifo.{
  list_heads-Ordered, work_wanted-Ordered, claim-Ordered, save-Ordered, cancel-Ordered,
  recover-Ordered,
}
use icloud_api_mangobubu.Store.Deletion.Queue.{
  precedes, list_heads, claim, save, cancel, work_wanted, recover,
}
use icloud_api_mangobubu.Store.Deletion.Arrivals.{enqueue-Ordered}
use icloud_api_mangobubu.Store.Deletion.Enqueue.{enqueue}
use icloud_api_mangobubu.Store.Deletion.Snapshot.{has_id}
use icloud_api_mangobubu.Store.Deletion.Types.{
  AliasDeletionWork, AliasDeletionJob, Admin, Db, Error, is_running,
}
use icloud_api_mangobubu.Store.Deletion.Pruning.{Ordered}
use icloud_api_mangobubu.Base.{
  ℕ, ◌≤◌, ◌<◌, ◌≡◌, inl, inr, refl, Bool, true, false, ◌&&◌, none, some, List, [], ◌∷◌, arith,
  Bool-cases, Result, ok, err, after, Text, text_eq, text_eq_iff, first_where, count_where, All-map,
  All-both, All-first_where, count_where-none,
}
use icloud_api_mangobubu.Store.Deletion.Order.{head_if_running, HeadsRun, Increasing}

pub data Call : Type 0 where
  enqueues : ℕ → List AliasDeletionWork → AliasDeletionJob → Call
  lists : ℕ → ℕ → Call
  claims : Text → ℕ → ℕ → Text → Call
  saves : ℕ → AliasDeletionWork → Call
  cancels : ℕ → Text → ℕ → Call
  asks : ℕ → Text → Call
  recovers : ℕ → Call
  changes_admins : List Admin → Call

-- The database that a call with a result leaves.
abbrev after_call {ℓ} : {A : Type ℓ} → Db → Result Error (Db × A) → Db
after_call db (ok r) = r.0
after_call db (err e) = db

abbrev runs_for : Text → AliasDeletionWork → Bool
runs_for subject w = is_running w.status && text_eq w.apple_subject subject

head_if_running-tail :
    (w v : AliasDeletionWork) (ws : List AliasDeletionWork)
    → head_if_running (w ∷ ws) v ≡ true
    → head_if_running ws v ≡ true
unfolding first_where
head_if_running-tail w v ws h = ground arith

-- Behind a running row, nothing of the same identity runs.
behind_running :
    (subject : Text) (w v : AliasDeletionWork) (ws : List AliasDeletionWork)
    → runs_for subject w ≡ true
    → w.sequence < v.sequence
    → head_if_running (w ∷ ws) v ≡ true
    → runs_for subject v ≡ false
unfolding first_where
behind_running subject w v ws h l k = elim (Bool-cases (runs_for subject v)) [
  | inl e ↦ absurd (
      ground (
        arith,
        text_eq_iff w.apple_subject subject,
        text_eq_iff v.apple_subject subject,
        text_eq_iff w.apple_subject v.apple_subject,
      ))
  | inr e ↦ e
]

one_running :
    (subject : Text) (works : List AliasDeletionWork)
    → Increasing works
    → HeadsRun works
    → count_where (runs_for subject) works ≤ 1
unfolding count_where
one_running subject [] i h = omega arith
one_running subject (w ∷ ws) i h =
    let tail =
      All-map (λ v. head_if_running (w ∷ ws) v ≡ true) (λ v. head_if_running ws v ≡ true) ws
        (λ v k. head_if_running-tail w v ws k) h.1 in
    let rest = one_running subject ws i.1 tail in
    elim (Bool-cases (runs_for subject w)) [
      | inl e ↦
          let none_behind =
            All-map (λ v. (w.sequence < v.sequence) × (head_if_running (w ∷ ws) v ≡ true))
              (λ v. runs_for subject v ≡ false) ws (λ v k. behind_running subject w v ws e k.0 k.1)
              (All-both (λ v. w.sequence < v.sequence) (λ v. head_if_running (w ∷ ws) v ≡ true) ws
                i.0 h.1) in
          ground (arith, count_where-none (runs_for subject) ws none_behind)
      | inr e ↦ ground (arith, rest)
    ]

abbrev empty_db : Db
empty_db = record {
  sequence = 0;
  works = [];
  jobs = [];
  metadata = [];
  job_works = [];
  admins = [];
  audits = [];
}

after_call-Ordered {ℓ} :
    {A : Type ℓ} (db : Db) (m : Result Error (Db × A))
    → ((r : Db × A) → m ≡ ok r → Ordered r.0)
    → Ordered db
    → Ordered (after_call db m)
after_call-Ordered db (ok r) h o = h r refl
after_call-Ordered db (err e) h o = o

after-Ordered :
    (db : Db) (m : Result Error Db)
    → ((next : Db) → m ≡ ok next → Ordered next)
    → Ordered db
    → Ordered (after db m)
after-Ordered db (ok next) h o = h next refl
after-Ordered db (err e) h o = o

module _ (to_lower : Text → Text) (new_id : ℕ → Text) where
  unfoldable pub step : Call → Db → Db
  step (enqueues clock targets job) db =
      after_call db (enqueue to_lower new_id clock targets job db)
  step (lists clock now) db = after_call db (list_heads clock now db)
  step (claims token clock now id) db = after_call db (claim token clock now id db)
  step (saves clock work) db = after db (save clock work db)
  step (cancels clock id admin) db = after_call db (cancel clock id admin db)
  step (asks clock id) db = after_call db (work_wanted clock id db)
  step (recovers clock) db = after db (recover clock db)
  step (changes_admins admins) db = record db { admins = admins }

  step-Ordered : (c : Call) (db : Db) → Ordered db → Ordered (step c db)
  unfolding step
  step-Ordered (enqueues clock targets job) db o =
      after_call-Ordered db _ (λ r e. enqueue-Ordered to_lower new_id clock targets job db e o) o
  step-Ordered (lists clock now) db o =
      after_call-Ordered db _ (λ r e. list_heads-Ordered clock now db e o) o
  step-Ordered (claims token clock now id) db o =
      after_call-Ordered db _ (λ r e. claim-Ordered token clock now id db e o) o
  step-Ordered (saves clock work) db o =
      after-Ordered db _ (λ n e. save-Ordered clock work db e o) o
  step-Ordered (cancels clock id admin) db o =
      after_call-Ordered db _ (λ r e. cancel-Ordered clock id admin db e o) o
  step-Ordered (asks clock id) db o =
      after_call-Ordered db _ (λ r e. work_wanted-Ordered clock id db e o) o
  step-Ordered (recovers clock) db o = after-Ordered db _ (λ n e. recover-Ordered clock db e o) o
  step-Ordered (changes_admins admins) db o = o

  -- The calls from an empty database on; the last one stands first.
  unfoldable pub run : List Call → Db
  run [] = empty_db
  run (c ∷ cs) = step c (run cs)

  run-Ordered : (cs : List Call) → Ordered (run cs)
  unfolding run
  run-Ordered [] = record { unique = tt; increasing = tt; heads = tt; issued = tt }
  run-Ordered (c ∷ cs) = step-Ordered c (run cs) (run-Ordered cs)

  -- After any calls of the queue's transactions, at most one piece of work of an Apple identity
  -- is running.
  pub run-one_running :
      (cs : List Call) (subject : Text)
      → count_where (λ w. is_running w.status && text_eq w.apple_subject subject) (run cs).works ≤ 1
  run-one_running cs subject =
      one_running subject (run cs).works (run-Ordered cs).increasing (run-Ordered cs).heads

  -- After any calls of the queue's transactions, work that is running is the earliest active work
  -- of its Apple identity: nothing has overtaken an earlier request.
  pub run-in_order :
      (cs : List Call) (id : Text) {w : AliasDeletionWork}
      → first_where (has_id id) (run cs).works ≡ some w
      → is_running w.status ≡ true
      → first_where (precedes w) (run cs).works ≡ none
  run-in_order cs id {w} found runs =
      let h =
        All-first_where (λ v. head_if_running (run cs).works v ≡ true) (has_id id) (run cs).works
          found (run-Ordered cs).heads in
      ground arith
