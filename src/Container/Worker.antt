-- ===== src/Container/Worker.antt =====
-- src/server.rs: the thread that owns a container (`ContainerOwner::start`,
-- `monitor_container_startup`), with the handle that commands it, in every order of their steps.
-- `is_running` that answers anything but false changes nothing, and the thread polls again.
use postgres_test_harness.Base.{
  if◌then◌else◌, ℕ, ◌+◌, ◌≤◌, ◌<◌, ◌≡◌, ◌≢◌, refl, ap, subst, Bool, true, false, List, [], ◌∷◌,
  ◌++◌, arith, Option, none, some,
}
use postgres_test_harness.Container.{ContainerExit}

pub data ContainerCommand : Type 0 where
  ready shutdown : ContainerCommand

-- `recv` of the last command, in `monitor_container_startup`, is the phase `waiting`.
pub data Phase : Type 0 where
  requesting resolving monitoring waiting ended : Phase

-- The containers whose `start` has returned them to the thread, its calls of `rm`, those of them that
-- succeeded, and whether the thread's result is a success.
pub record ContainerWorker : Type 0 where
  pub phase : Phase
  pub created : ℕ
  pub removals : ℕ
  pub removed : ℕ
  pub result_is_ok : Bool
  pub commands : List ContainerCommand
  pub sender : Bool
  pub receiver : Bool
  pub startup_exit : Option ContainerExit

unfoldable pub spawned : ContainerWorker
spawned = record {
  phase = requesting;
  created = 0;
  removals = 0;
  removed = 0;
  result_is_ok = true;
  commands = [];
  sender = true;
  receiver = true;
  startup_exit = none;
}

-- `rm` succeeds or fails, and its result is the thread's.
abbrev pub remove : Bool → ContainerWorker → ContainerWorker
remove gone w = record w {
  phase = ended;
  removals = w.removals + 1;
  removed = if gone then w.removed + 1 else w.removed;
  result_is_ok = gone;
}

-- A step of the thread.
pub data WorkerStep (w : ContainerWorker) : ContainerWorker → Type 0 where
  request_fails : w.phase ≡ requesting → WorkerStep w (record w { phase = ended })
  request_succeeds :
      w.phase ≡ requesting → WorkerStep w (record w { phase = resolving; created = w.created + 1 })
  answers : w.phase ≡ resolving → w.receiver ≡ true → WorkerStep w (record w { phase = monitoring })
  is_abandoned :
      (gone : Bool) → w.phase ≡ resolving → w.receiver ≡ false → WorkerStep w (remove gone w)
  hears_ready :
      (rest : List ContainerCommand)
      → w.phase ≡ monitoring
      → w.commands ≡ ready ∷ rest
      → WorkerStep w (record w { phase = waiting; commands = rest })
  hears_shutdown :
      (gone : Bool) (rest : List ContainerCommand)
      → w.phase ≡ monitoring
      → w.commands ≡ shutdown ∷ rest
      → WorkerStep w (remove gone (record w { commands = rest }))
  is_disconnected :
      (gone : Bool)
      → w.phase ≡ monitoring
      → w.commands ≡ []
      → w.sender ≡ false
      → WorkerStep w (remove gone w)
  sees_exit :
      (exit : ContainerExit)
      → w.phase ≡ monitoring
      → WorkerStep w (record w { phase = waiting; startup_exit = some exit })
  wakes :
      (gone : Bool) (c : ContainerCommand) (rest : List ContainerCommand)
      → w.phase ≡ waiting
      → w.commands ≡ c ∷ rest
      → WorkerStep w (remove gone (record w { commands = rest }))
  hangs_up :
      (gone : Bool)
      → w.phase ≡ waiting
      → w.commands ≡ []
      → w.sender ≡ false
      → WorkerStep w (remove gone w)

-- A step of the thread or of the handle.
pub data Step (w : ContainerWorker) : ContainerWorker → Type 0 where
  works : {v : ContainerWorker} → WorkerStep w v → Step w v
  marks_ready : w.sender ≡ true → Step w (record w { commands = w.commands ++ ready ∷ [] })
  shuts_down :
      w.sender ≡ true → Step w (record w { commands = w.commands ++ shutdown ∷ []; sender = false })
  fails_start : Step w (record w { receiver = false; sender = false })

pub data Reach : ContainerWorker → Type 0 where
  start : Reach spawned
  next : {w v : ContainerWorker} → Reach w → Step w v → Reach v

-- The containers of a thread that has not ended: one, or none yet, and none is removed.
abbrev IsLive : ℕ → ContainerWorker → Type 0
IsLive n w = (w.created ≡ n) × (w.removals ≡ 0) × (w.removed ≡ 0)

IsOwned : Phase → ContainerWorker → Type 0
IsOwned requesting w = IsLive 0 w × (w.result_is_ok ≡ true)
IsOwned resolving w = IsLive 1 w
IsOwned monitoring w = IsLive 1 w
IsOwned waiting w = IsLive 1 w
IsOwned ended w =
    (w.created ≤ 1) × (w.removals ≡ w.created) × (w.result_is_ok ≡ true → w.removed ≡ w.created)

at_phase : (w : ContainerWorker) (p : Phase) → w.phase ≡ p → IsOwned w.phase w → IsOwned p w
at_phase w p e h = subst (λ q. IsOwned q w) e h

remove-IsOwned :
    (gone : Bool) (w : ContainerWorker) → IsLive 1 w → IsOwned (remove gone w).phase (remove gone w)
unfolding IsOwned
remove-IsOwned true w (c, r, d) = (omega arith, omega arith, λ _. omega arith)
remove-IsOwned false w (c, r, d) = (omega arith, omega arith, λ e. absurd (cc))

IsOwned-step : {w v : ContainerWorker} → IsOwned w.phase w → WorkerStep w v → IsOwned v.phase v
unfolding IsOwned
IsOwned-step h (request_fails p) =
    let ((c, r, d), o) = at_phase _ requesting p h in (omega arith, omega arith, λ _. omega arith)
IsOwned-step h (request_succeeds p) =
    let ((c, r, d), o) = at_phase _ requesting p h in (omega arith, r, d)
IsOwned-step h (answers p a) = at_phase _ resolving p h
IsOwned-step {w} h (is_abandoned gone p a) = remove-IsOwned gone w (at_phase _ resolving p h)
IsOwned-step h (hears_ready rest p e) = at_phase _ monitoring p h
IsOwned-step {w} h (hears_shutdown gone rest p e) =
    remove-IsOwned gone (record w { commands = rest }) (at_phase _ monitoring p h)
IsOwned-step {w} h (is_disconnected gone p e a) = remove-IsOwned gone w (at_phase _ monitoring p h)
IsOwned-step h (sees_exit exit p) = at_phase _ monitoring p h
IsOwned-step {w} h (wakes gone c rest p e) =
    remove-IsOwned gone (record w { commands = rest }) (at_phase _ waiting p h)
IsOwned-step {w} h (hangs_up gone p e a) = remove-IsOwned gone w (at_phase _ waiting p h)

-- The handle touches neither the containers nor the result.
handled :
    (p : Phase) (w : ContainerWorker) (commands : List ContainerCommand) (sender receiver : Bool)
    → IsOwned p w
    → IsOwned p (record w { commands = commands; sender = sender; receiver = receiver })
unfolding IsOwned
handled requesting w commands sender receiver h = h
handled resolving w commands sender receiver h = h
handled monitoring w commands sender receiver h = h
handled waiting w commands sender receiver h = h
handled ended w commands sender receiver h = h

Reach-IsOwned : {w : ContainerWorker} → Reach w → IsOwned w.phase w
unfolding IsOwned spawned
Reach-IsOwned start = ((refl, refl, refl), refl)
Reach-IsOwned (next r (works s)) = IsOwned-step (Reach-IsOwned r) s
Reach-IsOwned (next {w = w} r (marks_ready a)) = handled w.phase w _ _ _ (Reach-IsOwned r)
Reach-IsOwned (next {w = w} r (shuts_down a)) = handled w.phase w _ _ _ (Reach-IsOwned r)
Reach-IsOwned (next {w = w} r fails_start) = handled w.phase w _ _ _ (Reach-IsOwned r)

-- However the steps of the thread and its handle are ordered: a thread that has ended was given at
-- most one container by the start of its request, and has called `rm` exactly once on it, if it was
-- given one. Where its result is a success, these containers are removed.
pub ended_is_removed :
    {w : ContainerWorker}
    → Reach w
    → w.phase ≡ ended
    → (w.removals ≡ w.created) × (w.created ≤ 1) × (w.result_is_ok ≡ true → w.removed ≡ w.created)
unfolding IsOwned
ended_is_removed r p = let (a, b, c) = at_phase _ ended p (Reach-IsOwned r) in (b, a, c)

-- How many steps the thread may still take.
abbrev pub rank : Phase → ℕ
rank requesting = 4
rank resolving = 3
rank monitoring = 2
rank waiting = 1
rank ended = 0

rank-decreases : {w v : ContainerWorker} → WorkerStep w v → rank v.phase < rank w.phase
rank-decreases (request_fails p) = omega (arith, ap rank p)
rank-decreases (request_succeeds p) = omega (arith, ap rank p)
rank-decreases (answers p a) = omega (arith, ap rank p)
rank-decreases (is_abandoned gone p a) = omega (arith, ap rank p)
rank-decreases (hears_ready rest p e) = omega (arith, ap rank p)
rank-decreases (hears_shutdown gone rest p e) = omega (arith, ap rank p)
rank-decreases (is_disconnected gone p e a) = omega (arith, ap rank p)
rank-decreases (sees_exit exit p) = omega (arith, ap rank p)
rank-decreases (wakes gone c rest p e) = omega (arith, ap rank p)
rank-decreases (hangs_up gone p e a) = omega (arith, ap rank p)

can_step :
    (w : ContainerWorker)
    → w.sender ≡ false
    → w.phase ≢ ended
    → (v : ContainerWorker) × WorkerStep w v
can_step w closed n = by_phase w.phase refl
  where
    by_commands :
        (cs : List ContainerCommand)
        → w.commands ≡ cs
        → w.phase ≡ monitoring
        → (v : ContainerWorker) × WorkerStep w v
    by_commands [] e p = (_, is_disconnected true p e closed)
    by_commands (ready ∷ rest) e p = (_, hears_ready rest p e)
    by_commands (shutdown ∷ rest) e p = (_, hears_shutdown true rest p e)

    by_wake :
        (cs : List ContainerCommand)
        → w.commands ≡ cs
        → w.phase ≡ waiting
        → (v : ContainerWorker) × WorkerStep w v
    by_wake [] e p = (_, hangs_up true p e closed)
    by_wake (c ∷ rest) e p = (_, wakes true c rest p e)

    by_receiver :
        (b : Bool) → w.receiver ≡ b → w.phase ≡ resolving → (v : ContainerWorker) × WorkerStep w v
    by_receiver true e p = (_, answers p e)
    by_receiver false e p = (_, is_abandoned true p e)

    by_phase : (p : Phase) → w.phase ≡ p → (v : ContainerWorker) × WorkerStep w v
    by_phase requesting p = (_, request_fails p)
    by_phase resolving p = by_receiver w.receiver refl p
    by_phase monitoring p = by_commands w.commands refl p
    by_phase waiting p = by_wake w.commands refl p
    by_phase ended p = absurd (n p)

-- Once the handle has shut the thread down, or start-up has failed, the thread ends: as long as it
-- has not, it can take a step, and each step it takes lowers its rank, which is at most four, so
-- that joining it returns.
pub closed_thread_ends :
    (w : ContainerWorker)
    → w.sender ≡ false
    → w.phase ≢ ended
    → ((v : ContainerWorker) × WorkerStep w v)
      × (rank w.phase ≤ 4)
      × ((v : ContainerWorker) → WorkerStep w v → rank v.phase < rank w.phase)
closed_thread_ends w closed n = (can_step w closed n, at_most w.phase, λ v s. rank-decreases s)
  where
    at_most : (p : Phase) → rank p ≤ 4
    at_most requesting = omega arith
    at_most resolving = omega arith
    at_most monitoring = omega arith
    at_most waiting = omega arith
    at_most ended = omega arith
