-- ===== src/Server/Templates.antt =====
-- src/server.rs, `TemplateCache`: one flight for the initialization of a template, which others
-- await. A flight and a template are numbers, the identities of their `Arc`s.
use postgres_test_harness.Base.{
  ℕ, ◌+◌, Bool, true, false, ◌==◌, if◌then◌else◌, text_eq, Option, none, some,
}
use postgres_test_harness.Fingerprint.Hex.{TemplateFingerprint}

-- `ready` holds a weak reference.
pub data TemplateCacheEntry : Type 0 where
  initializing : ℕ → TemplateCacheEntry
  ready : ℕ → TemplateCacheEntry

pub record TemplateFlight : Type 0 where
  pub completed : Bool
  pub template : Option ℕ

-- The map, and the flights that have been allocated.
pub record TemplateCache : Type 0 where
  pub entries : TemplateFingerprint → Option TemplateCacheEntry
  pub flights : ℕ → TemplateFlight
  pub next_flight : ℕ

abbrev pub empty_cache : TemplateCache
empty_cache = record {
  entries = λ k. none;
  flights = λ f. record { completed = false; template = none };
  next_flight = 0;
}

pub data TemplateCacheAction : Type 0 where
  ready_action : ℕ → TemplateCacheAction
  initialize : ℕ → TemplateCacheAction
  wait : ℕ → TemplateCacheAction

abbrev pub same : TemplateFingerprint → TemplateFingerprint → Bool
same k l = text_eq k.bytes l.bytes

abbrev pub put :
    TemplateFingerprint
    → Option TemplateCacheEntry
    → (TemplateFingerprint → Option TemplateCacheEntry)
    → TemplateFingerprint
    → Option TemplateCacheEntry
put k e entries l = if same k l then e else entries l

abbrev pub set_flight : ℕ → TemplateFlight → (ℕ → TemplateFlight) → ℕ → TemplateFlight
set_flight f v flights g = if f == g then v else flights g

-- `live` tells whether a template has a strong reference.
abbrev pub unexpired : (ℕ → Bool) → Option TemplateCacheEntry → Option TemplateCacheEntry
unexpired live none = none
unexpired live (some (initializing f)) = some (initializing f)
unexpired live (some (ready t)) = if live t then some (ready t) else none

unfoldable pub prune_expired_ready_entries : (ℕ → Bool) → TemplateCache → TemplateCache
prune_expired_ready_entries live c = record c { entries = λ k. unexpired live (c.entries k) }

unfoldable pub begin_flight :
    (ℕ → Bool) → TemplateFingerprint → TemplateCache → TemplateCacheAction × TemplateCache
unfolding prune_expired_ready_entries
begin_flight live k c =
    let f = c.next_flight in
    (
      initialize f,
      record c {
        entries = put k (some (initializing f)) (prune_expired_ready_entries live c).entries;
        flights = set_flight f (record { completed = false; template = none }) c.flights;
        next_flight = f + 1;
      },
    )

unfoldable pub act_on :
    (ℕ → Bool)
    → TemplateFingerprint
    → Option TemplateCacheEntry
    → TemplateCache
    → TemplateCacheAction × TemplateCache
act_on live k (some (ready t)) c = if live t then (ready_action t, c) else begin_flight live k c
act_on live k (some (initializing f)) c = (wait f, c)
act_on live k none c = begin_flight live k c

unfoldable pub template_cache_action :
    (ℕ → Bool) → TemplateFingerprint → TemplateCache → TemplateCacheAction × TemplateCache
unfolding act_on
template_cache_action live k c = act_on live k (c.entries k) c

abbrev pub owns_entry : Option TemplateCacheEntry → ℕ → Bool
owns_entry (some (initializing g)) f = g == f
owns_entry _ f = false

-- `TemplateFlight::complete`.
unfoldable pub complete : ℕ → TemplateCache → TemplateCache
complete f c = record c {
  flights = set_flight f (record (c.flights f) { completed = true }) c.flights;
}

unfoldable pub publish : TemplateFingerprint → ℕ → ℕ → TemplateCache → TemplateCache
unfolding complete
publish k f t c =
    if owns_entry (c.entries k) f
    then complete f (record c {
      entries = put k (some (ready t)) c.entries;
      flights = set_flight f (record (c.flights f) { template = some t }) c.flights;
    })
    else complete f c

-- `Drop` of an initializer that has not published.
unfoldable pub drop_initializer : TemplateFingerprint → ℕ → TemplateCache → TemplateCache
unfolding complete
drop_initializer k f c =
    if owns_entry (c.entries k) f
    then complete f (record c { entries = put k none c.entries })
    else complete f c

-- `TemplateCacheWaiter::wait`: `none` waits on.
unfoldable pub await_flight : ℕ → TemplateCache → Option (Option ℕ)
await_flight f c = if (c.flights f).completed then some (c.flights f).template else none
