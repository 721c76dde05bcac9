-- ===== src/Vendor.antt =====
-- The cache of the backend's configuration schema, `useVendorSchema` of
-- frontend/src/panels/PropertiesPanel.tsx. `S` is the type of schemas. A call of the backend, a
-- mounted hook and its listener are known by numbers; `ready` has the callbacks of promises that are
-- resolved and still to run. A hook is rendered and its effect run in one step.
pub mod Epochs
pub mod Stale
use workflowui.Base.{
  ℕ, ◌+◌, Bool, true, false, not, Option, none, some, List, [], ◌∷◌, ◌++◌, map, filter, find?, eqb,
  if◌then◌else◌,
}

-- a call in flight, with the epoch in which it was launched
pub record Fetch : Type 0 where
  pub id : ℕ
  pub launched_at : ℕ

pub record Hook (S : Type 0) : Type 0 where
  pub id : ℕ
  pub schema : Option S

pub record Vendor (S : Type 0) : Type 0 where
  pub cached_schema : Option S
  pub schema_promise : Option ℕ
  pub schema_epoch : ℕ
  -- the mounted hooks, which are the subscribers
  pub hooks : List (Hook S)
  pub next_fetch : ℕ
  pub in_flight : List Fetch
  -- the hooks that wait for a call, and those whose promise is resolved
  pub waiting : List (ℕ × ℕ)
  pub ready : List (ℕ × S)

module _ {S : Type 0} where
  abbrev pub init : Vendor S
  init = record {
    cached_schema = none;
    schema_promise = none;
    schema_epoch = 0;
    hooks = [];
    next_fetch = 0;
    in_flight = [];
    waiting = [];
    ready = [];
  }

  abbrev pub show_in : ℕ → Option S → Hook S → Hook S
  show_in id schema h = if eqb h.id id then record h { schema = schema } else h

  -- `if (!cancelled) setSchema(...)`
  unfoldable pub set_schema : ℕ → Option S → Vendor S → Vendor S
  set_schema id schema c = record c { hooks = map (show_in id schema) c.hooks }

  -- `fetchVendorSchema().then(...)` of a hook, past the test of the cache
  unfoldable pub await_promise : Option ℕ → ℕ → Vendor S → Vendor S
  await_promise (some fetch) hook c = record c { waiting = c.waiting ++ (fetch, hook) ∷ [] }
  await_promise none hook c =
      let id = c.next_fetch in
      record c {
        schema_promise = some id;
        next_fetch = id + 1;
        in_flight = c.in_flight ++ record { id = id; launched_at = c.schema_epoch } ∷ [];
        waiting = c.waiting ++ (id, hook) ∷ [];
      }

  unfoldable pub await_schema : Option S → ℕ → Vendor S → Vendor S
  unfolding await_promise
  await_schema (some s) hook c = record c { ready = c.ready ++ (hook, s) ∷ [] }
  await_schema none hook c = await_promise c.schema_promise hook c

  unfoldable pub fetch_vendor_schema : ℕ → Vendor S → Vendor S
  unfolding await_schema
  fetch_vendor_schema hook c = await_schema c.cached_schema hook c

  unfoldable pub refetch : ℕ → Vendor S → Vendor S
  unfolding set_schema fetch_vendor_schema
  refetch hook c = fetch_vendor_schema hook (set_schema hook none c)

  unfoldable pub refetch_all : List (Hook S) → Vendor S → Vendor S
  unfolding refetch
  refetch_all [] c = c
  refetch_all (h ∷ hs) c = refetch_all hs (refetch h.id c)

  unfoldable pub invalidate_vendor_schema_cache : Vendor S → Vendor S
  unfolding refetch_all
  invalidate_vendor_schema_cache c =
      refetch_all c.hooks (record c {
        schema_epoch = c.schema_epoch + 1;
        cached_schema = none;
        schema_promise = none;
      })

  abbrev pub or_schema : Option S → S → S
  or_schema none s = s
  or_schema (some cached) s = cached

  -- the cache and the value of the promise once a call has succeeded or failed
  unfoldable pub settle : S → Fetch → Option S → Vendor S → Option S × S
  settle fallback f (some s) c =
      if not (eqb f.launched_at c.schema_epoch)
      then (c.cached_schema, or_schema c.cached_schema s)
      else (some s, s)
  settle fallback f none c =
      if eqb f.launched_at c.schema_epoch
      then (some fallback, fallback)
      else (c.cached_schema, fallback)

  -- the callbacks that wait for the call get its value
  abbrev pub resolve : ℕ → Option S × S → Vendor S → Vendor S
  resolve fetch (cached, value) c = record c {
    cached_schema = cached;
    in_flight = filter (λ f. not (eqb f.id fetch)) c.in_flight;
    waiting = filter (λ w. not (eqb w.0 fetch)) c.waiting;
    ready = c.ready ++ map (λ w. (w.1, value)) (filter (λ w. eqb w.0 fetch) c.waiting);
  }

  -- the answer to a call, `none` for a failure; `fallback` is `{ vendor: 'unknown', fields: [] }`
  unfoldable pub answer : S → ℕ → Option S → Vendor S → Vendor S
  unfolding settle
  answer fallback fetch result c = elim (find? (λ f. eqb f.id fetch) c.in_flight) [
    | none ↦ c
    | some f ↦ resolve fetch (settle fallback f result c) c
  ]

  unfoldable pub run_ready : List (ℕ × S) → Vendor S → Vendor S
  unfolding set_schema
  run_ready [] c = c
  run_ready ((hook, s) ∷ rest) c = set_schema hook (some s) (record c { ready = rest })

  -- the hook on mount and on unmount
  unfoldable pub mount : ℕ → Vendor S → Vendor S
  unfolding fetch_vendor_schema
  mount hook c =
      let mounted : Vendor S = record c {
        hooks = c.hooks ++ record { id = hook; schema = c.cached_schema } ∷ [];
      } in
      elim c.cached_schema [ some s ↦ mounted | none ↦ fetch_vendor_schema hook mounted ]

  unfoldable pub unmount : ℕ → Vendor S → Vendor S
  unmount hook c = record c { hooks = filter (λ h. not (eqb h.id hook)) c.hooks }

-- what the page, the backend and the browser do
pub data Event (S : Type 0) : Type 0 where
  mounts unmounts : ℕ → Event S
  reconnects : Event S
  answers : ℕ → Option S → Event S
  runs_callback : Event S

module _ {S : Type 0} (fallback : S) where
  unfoldable pub step : Event S → Vendor S → Vendor S
  unfolding mount unmount invalidate_vendor_schema_cache answer run_ready
  step (mounts hook) c = mount hook c
  step (unmounts hook) c = unmount hook c
  step reconnects c = invalidate_vendor_schema_cache c
  step (answers fetch result) c = answer fallback fetch result c
  step runs_callback c = run_ready c.ready c

  unfoldable pub run : List (Event S) → Vendor S → Vendor S
  unfolding step
  run [] c = c
  run (e ∷ es) c = run es (step e c)
