-- ===== src/Initialization.antt =====
-- src/harness.rs: preparing a template under advisory locks: `begin_template`, and the end of an
-- initialization. The client whose session holds the locks is that of the actions.
pub mod Locking
pub mod Inspected
pub mod Observed
pub mod Made
pub mod Begun
pub mod Decided
pub mod Ended
pub mod Prepared
pub mod Others
pub mod Recorded
use postgres_test_harness.Base.{
  ℕ, zero, suc, not, Bool, true, false, List, Text, text, Option, none, some, Error,
  inconsistent_metadata, template_initializer, template_initializer_and_cleanup, Result, ok, err,
}
use postgres_test_harness.Config.Project.{ProjectName}
use postgres_test_harness.Fingerprint.Identity.{TemplateIdentity}
use postgres_test_harness.Name.{DatabaseName}
use postgres_test_harness.Metadata.Decimal.{ℤ}
use postgres_test_harness.Metadata.Resource.{ResourceMetadata, initializing, ready, new_template}
use postgres_test_harness.Semaphore.{Semaphore}
use postgres_test_harness.Admin.Action.{Action, pure, raise_if, ◌>>=◌, ◌>>◌}
use postgres_test_harness.Admin.Postgres.{Postgres}
use postgres_test_harness.Admin.Client.{
  Call, DatabaseRecord, drop_database, find_database, set_database_metadata,
  disable_database_connections, release_advisory_lock, release_shared_advisory_lock,
}
use postgres_test_harness.Admin.Settings.{
  acquire_template_advisory_lock, acquire_shared_template_advisory_lock,
  terminate_database_connections,
}
use postgres_test_harness.Admission.{
  DatabaseAdmission, CreationResult, created, failed_creation, into_error,
}
use postgres_test_harness.Admission.Creation.{create_managed_database_classified}
use postgres_test_harness.Stale.Classify.{metadata_of}
use postgres_test_harness.Readiness.{template_record_is_ready, recoverable_template_initialization}

pub data TemplateSource : Type 0 where
  empty_source : TemplateSource
  template_source : DatabaseName → TemplateSource

unfoldable pub source_name : TemplateSource → Text
source_name empty_source = text "template0"
source_name (template_source name) = name.value

-- What a caller has to do; either way its client holds locks.
pub data TemplatePreparation : Type 0 where
  ready_template : TemplatePreparation
  initialization : TemplatePreparation

-- The server's fields that are read, with the template's name and identity and its two keys.
pub record TemplateRequest : Type 0 where
  pub project : ProjectName
  pub template_wait_timeout : ℕ
  pub operation_timeout : ℕ
  pub name : DatabaseName
  pub identity : TemplateIdentity
  pub lock_key : ℤ
  pub coordination_key : ℤ

abbrev pub is_recoverable_metadata : TemplateRequest → Option ResourceMetadata → Bool
is_recoverable_metadata q none = false
is_recoverable_metadata q (some m) =
    recoverable_template_initialization q.project q.identity q.lock_key m

abbrev pub as_result : CreationResult → Result (Unit {0})
as_result created = ok tt
as_result (failed_creation f) = err (into_error f)

-- `Result::and`, of two results that are both there.
abbrev pub and_result : Result (Unit {0}) → Result (Unit {0}) → Result (Unit {0})
and_result (ok _) r = r
and_result (err e) r = err e

module _ (pg : Postgres) (timeout : ℕ) (clock : pg.World → ℕ) (q : TemplateRequest) where
  unfoldable pub template_is_ready : Call pg timeout Bool
  template_is_ready = do
    found ← find_database pg timeout q.name
    pure (template_record_is_ready q.project q.identity q.lock_key found)

  -- Only a ready template's lock is kept.
  abbrev pub keep_if_ready : Bool → Call pg timeout Bool
  keep_if_ready true = pure true
  keep_if_ready false = do release_shared_advisory_lock pg timeout q.lock_key; pure false

  unfoldable pub acquire_and_inspect_shared_template_lock : Call pg timeout Bool
  unfolding template_is_ready
  acquire_and_inspect_shared_template_lock = do
    acquire_shared_template_advisory_lock pg timeout clock q.lock_key q.template_wait_timeout
        q.operation_timeout
    is_ready ← template_is_ready
    keep_if_ready is_ready

  -- A database of the template's name is dropped where it is a recoverable initialization.
  abbrev pub drop_recoverable : Option DatabaseRecord → Call pg timeout (Unit {0})
  drop_recoverable none = pure tt
  drop_recoverable (some r) = do
    raise_if (not (is_recoverable_metadata q (metadata_of r.comment)))
        (inconsistent_metadata q.name.value)
    drop_database pg timeout q.name

  abbrev pub inconsistent_unless : Bool → Call pg timeout (Unit {0})
  inconsistent_unless is_ready = raise_if (not is_ready) (inconsistent_metadata q.name.value)

  -- `TemplateInitialization::finish`; `now` is when the metadata is made.
  unfoldable pub finish : ℕ → Call pg timeout (Unit {0})
  unfolding acquire_and_inspect_shared_template_lock
  finish now = do
    disable_database_connections pg timeout q.name
    terminate_database_connections pg timeout clock q.name q.operation_timeout
    set_database_metadata pg timeout q.name (new_template now q.project q.lock_key q.identity ready)
    release_advisory_lock pg timeout q.lock_key
    is_ready ← acquire_and_inspect_shared_template_lock
    release_advisory_lock pg timeout q.coordination_key
    inconsistent_unless is_ready

  -- `TemplateInitialization::abort`: every step is taken, and the first error is returned.
  unfoldable pub abort : Call pg timeout (Unit {0})
  abort w =
      let (cleanup, w1) = drop_database pg timeout q.name w in
      let (unlock_template, w2) = release_advisory_lock pg timeout q.lock_key w1 in
      let (unlock_coordination, w3) = release_advisory_lock pg timeout q.coordination_key w2 in
      (and_result (and_result cleanup unlock_template) unlock_coordination, w3)

  abbrev pub after_abort : ℕ → Result (Unit {0}) × pg.World → Result (Unit {0}) × pg.World
  after_abort k (ok _, w) = (err (template_initializer k), w)
  after_abort k (err cleanup, w) = (err (template_initializer_and_cleanup k cleanup), w)

  abbrev pub end_initialization : ℕ → Option ℕ × pg.World → Result (Unit {0}) × pg.World
  end_initialization now (none, w) = finish now w
  end_initialization now (some k, w) = after_abort k (abort w)

  -- The part of `get_or_initialize_template` that awaits the initializer, which stands for the
  -- caller's and may fail.
  unfoldable pub run_initializer : (pg.World → Option ℕ × pg.World) → ℕ → Call pg timeout (Unit {0})
  unfolding finish abort
  run_initializer initializer now w = end_initialization now (initializer w)

  -- The creation passes the server's admission, which is a state beside the client's.
  module _ (sem : Semaphore) (source : TemplateSource) (now : ℕ) where
    abbrev pub State : Type 0
    State = DatabaseAdmission sem × pg.World

    abbrev pub on_client : {A : Type 0} → Action pg.World A → Action State A
    on_client m (a, w) = let (r, v) = m w in (r, (a, v))

    abbrev pub create : Action State (Unit {0})
    create s =
        let (r, t) =
          create_managed_database_classified pg timeout sem q.name (source_name source)
            (new_template now q.project q.lock_key q.identity initializing) s in
        (as_result r, t)

    abbrev pub again_unless : Bool → Option TemplatePreparation
    again_unless true = some ready_template
    again_unless false = none

    -- Under both locks, by whether the template is ready.
    abbrev pub with_both_locks : Bool → Action State (Option TemplatePreparation)
    with_both_locks true = on_client do
      release_advisory_lock pg timeout q.lock_key
      is_ready ← acquire_and_inspect_shared_template_lock
      release_advisory_lock pg timeout q.coordination_key
      pure (again_unless is_ready)
    with_both_locks false = do
      found ← on_client (find_database pg timeout q.name)
      on_client (drop_recoverable found)
      create
      pure (some initialization)

    -- Under the coordination lock.
    abbrev pub with_coordination : Bool → Action State (Option TemplatePreparation)
    with_coordination true =
        on_client do release_advisory_lock pg timeout q.coordination_key; pure (some ready_template)
    with_coordination false = do
      on_client (
          acquire_template_advisory_lock pg timeout clock q.lock_key q.template_wait_timeout
            q.operation_timeout)
      is_ready ← on_client template_is_ready
      with_both_locks is_ready

    abbrev pub without_coordination : Bool → Action State (Option TemplatePreparation)
    without_coordination true = pure (some ready_template)
    without_coordination false = do
      on_client (
          acquire_template_advisory_lock pg timeout clock q.coordination_key q.template_wait_timeout
            q.operation_timeout)
      is_ready ← on_client acquire_and_inspect_shared_template_lock
      with_coordination is_ready

    -- A round of the loop; `none` continues it.
    unfoldable pub begin_round : Action State (Option TemplatePreparation)
    unfolding acquire_and_inspect_shared_template_lock template_is_ready
    begin_round = do
      is_ready ← on_client acquire_and_inspect_shared_template_lock
      without_coordination is_ready

    abbrev pub or_again :
        Action State (Option TemplatePreparation)
        → Option TemplatePreparation
        → Action State (Option TemplatePreparation)
    or_again rest (some p) = pure (some p)
    or_again rest none = rest

    -- `begin_template` on a connected client, at most so many rounds; `none` is out of fuel.
    unfoldable pub begin_template : ℕ → Action State (Option TemplatePreparation)
    unfolding begin_round
    begin_template zero = pure none
    begin_template (suc fuel) = do p ← begin_round; or_again (begin_template fuel) p

    abbrev pub prepared_or_initialize :
        (pg.World → Option ℕ × pg.World)
        → Option TemplatePreparation
        → Action State (Option TemplatePreparation)
    prepared_or_initialize initializer none = pure none
    prepared_or_initialize initializer (some ready_template) = pure (some ready_template)
    prepared_or_initialize initializer (some initialization) = do
      on_client (run_initializer initializer now)
      pure (some ready_template)

    -- What the owner of a cache flight does before it publishes; `none` is out of fuel.
    unfoldable pub prepare_template :
        (pg.World → Option ℕ × pg.World) → ℕ → Action State (Option TemplatePreparation)
    unfolding begin_template run_initializer
    prepare_template initializer fuel = do
      p ← begin_template fuel
      prepared_or_initialize initializer p
