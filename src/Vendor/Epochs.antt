-- ===== src/Vendor/Epochs.antt =====
-- Calls that were launched before the cache was invalidated.
use workflowui.Base.{
  ℕ, ◌+◌, ◌≤◌, ◌<◌, ◌≡◌, refl, Option, none, some, List, [], ◌∷◌, ◌++◌, All, All-append,
  All-map_imp, All-filter, All-mem, Memᴰ, find?, arith, eqb,
}
use workflowui.Vendor.{
  Fetch, Hook, Vendor, init, set_schema, await_promise, await_schema, fetch_vendor_schema, refetch,
  refetch_all, invalidate_vendor_schema_cache, resolve, settle, answer, run_ready, mount, unmount,
  Event, mounts, unmounts, reconnects, answers, runs_callback, step, run,
}

module _ {S : Type 0} where
  -- no call is of a later epoch or has a number not given out, and one of the present epoch is the
  -- call that the shared promise stands for
  pub record IsTimely (c : Vendor S) : Type 0 where
    pub known : All (λ f. f.launched_at ≤ c.schema_epoch) c.in_flight
    pub numbered : All (λ f. f.id < c.next_fetch) c.in_flight
    pub shared :
        All (λ f. f.launched_at ≡ c.schema_epoch → c.schema_promise ≡ some f.id) c.in_flight

  await_promise_lem :
      (o : Option ℕ) (hook : ℕ) (c : Vendor S)
      → c.schema_promise ≡ o
      → IsTimely c
      → IsTimely (await_promise o hook c)
  unfolding await_promise
  await_promise_lem (some fetch) hook c e h = record {
    known = h.known;
    numbered = h.numbered;
    shared = h.shared;
  }
  await_promise_lem none hook c e h = record {
    known = All-append _ c.in_flight h.known (omega arith);
    numbered =
        All-append _ c.in_flight (All-map_imp _ _ c.in_flight (λ f l. omega (arith, l)) h.numbered)
          (omega arith);
    shared =
        All-append _ c.in_flight
          (All-map_imp _ _ c.in_flight (λ f only now. cc (only now)) h.shared) (λ now. refl);
  }

  await_schema_lem :
      (o : Option S) (hook : ℕ) (c : Vendor S) → IsTimely c → IsTimely (await_schema o hook c)
  unfolding await_schema
  await_schema_lem none hook c h = await_promise_lem c.schema_promise hook c refl h
  await_schema_lem (some s) hook c h = record {
    known = h.known;
    numbered = h.numbered;
    shared = h.shared;
  }

  refetch_lem : (hook : ℕ) (c : Vendor S) → IsTimely c → IsTimely (refetch hook c)
  unfolding refetch set_schema fetch_vendor_schema
  refetch_lem hook c h =
      await_schema_lem c.cached_schema hook (set_schema hook none c)
        (record { known = h.known; numbered = h.numbered; shared = h.shared })

  refetch_all_lem : (hs : List (Hook S)) (c : Vendor S) → IsTimely c → IsTimely (refetch_all hs c)
  unfolding refetch_all
  refetch_all_lem [] c h = h
  refetch_all_lem (x ∷ hs) c h = refetch_all_lem hs (refetch x.id c) (refetch_lem x.id c h)

  -- the cache as an invalidation leaves it before the subscribers fetch
  abbrev pub cleared : Vendor S → Vendor S
  cleared c = record c {
    schema_epoch = c.schema_epoch + 1;
    cached_schema = none;
    schema_promise = none;
  }

  cleared_lem : (c : Vendor S) → IsTimely c → IsTimely (cleared c)
  cleared_lem c h = record {
    known = All-map_imp _ _ c.in_flight (λ f l. omega (arith, l)) h.known;
    numbered = h.numbered;
    shared =
        All-map_imp (λ f. f.launched_at ≤ c.schema_epoch) _ c.in_flight
          (λ f l now. absurd (omega (arith, l, now))) h.known;
  }

  answer_lem :
      (fallback : S) (fetch : ℕ) (result : Option S) (c : Vendor S)
      → IsTimely c
      → IsTimely (answer fallback fetch result c)
  unfolding answer
  answer_lem fallback fetch result c h =
      elim (find? (λ f. eqb f.id fetch) c.in_flight)
        as (λ o.
          IsTimely (elim o [ none ↦ c | some f ↦ resolve fetch (settle fallback f result c) c ])) [
            | none ↦ h
            | some f ↦ record {
              known = All-filter _ _ c.in_flight h.known;
              numbered = All-filter _ _ c.in_flight h.numbered;
              shared = All-filter _ _ c.in_flight h.shared;
            }
          ]

  mount_lem : (hook : ℕ) (c : Vendor S) → IsTimely c → IsTimely (mount hook c)
  unfolding mount fetch_vendor_schema
  mount_lem hook c h =
      let mounted : Vendor S = record c {
        hooks = c.hooks ++ record { id = hook; schema = c.cached_schema } ∷ [];
      } in
      let timely : IsTimely mounted = record {
        known = h.known;
        numbered = h.numbered;
        shared = h.shared;
      } in
      elim c.cached_schema
        as (λ o.
          IsTimely
            (elim o [ some s ↦ mounted | none ↦ await_schema c.cached_schema hook mounted ])) [
              | some s ↦ timely
              | none ↦ await_schema_lem c.cached_schema hook mounted timely
            ]

  run_ready_lem : (rs : List (ℕ × S)) (c : Vendor S) → IsTimely c → IsTimely (run_ready rs c)
  unfolding run_ready set_schema
  run_ready_lem [] c h = h
  run_ready_lem (r ∷ rs) c h = record { known = h.known; numbered = h.numbered; shared = h.shared }

  step-IsTimely :
      (fallback : S) (e : Event S) (c : Vendor S) → IsTimely c → IsTimely (step fallback e c)
  unfolding step unmount invalidate_vendor_schema_cache
  step-IsTimely fallback (mounts hook) c h = mount_lem hook c h
  step-IsTimely fallback (unmounts hook) c h = record {
    known = h.known;
    numbered = h.numbered;
    shared = h.shared;
  }
  step-IsTimely fallback reconnects c h = refetch_all_lem c.hooks (cleared c) (cleared_lem c h)
  step-IsTimely fallback (answers fetch result) c h = answer_lem fallback fetch result c h
  step-IsTimely fallback runs_callback c h = run_ready_lem c.ready c h

  run_from-IsTimely :
      (fallback : S) (es : List (Event S)) (c : Vendor S)
      → IsTimely c
      → IsTimely (run fallback es c)
  unfolding run
  run_from-IsTimely fallback [] c h = h
  run_from-IsTimely fallback (e ∷ es) c h =
      run_from-IsTimely fallback es (step fallback e c) (step-IsTimely fallback e c h)

  pub run-IsTimely : (fallback : S) (es : List (Event S)) → IsTimely (run fallback es init)
  run-IsTimely fallback es =
      run_from-IsTimely fallback es init (record { known = tt; numbered = tt; shared = tt })

  -- However pages mount and unmount hooks and the backend answers and reconnects, two calls in flight
  -- that were launched in the present epoch are the same call: hooks share one fetch.
  pub run_shares :
      (fallback : S) (es : List (Event S)) (f g : Fetch)
      → Memᴰ f (run fallback es init).in_flight
      → Memᴰ g (run fallback es init).in_flight
      → f.launched_at ≡ (run fallback es init).schema_epoch
      → g.launched_at ≡ (run fallback es init).schema_epoch
      → f.id ≡ g.id
  run_shares fallback es f g mf mg ef eg =
      let c = run fallback es init in
      let h = run-IsTimely fallback es in
      let of_f : c.schema_promise ≡ some f.id = All-mem _ c.in_flight h.shared mf ef in
      let of_g : c.schema_promise ≡ some g.id = All-mem _ c.in_flight h.shared mg eg in
      ground (arith, of_f, of_g)
