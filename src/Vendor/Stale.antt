-- ===== src/Vendor/Stale.antt =====
-- Answers to calls that were launched before the cache was invalidated.
use workflowui.Base.{
  ℕ, ◌≤◌, ◌<◌, ◌≡◌, ◌≢◌, ◌⊎◌, refl, subst, if_true, if_false, eqb-false_iff, ap, sym, ◌∙◌, inl, inr,
  not, Option, none, some, List, [], ◌∷◌, All, All-append, All-map_imp, All-filter, All-mem, find?,
  find?-mem, arith, eqb, eqb_iff, Option-cases,
}
use workflowui.Vendor.{
  Fetch, Hook, Vendor, init, set_schema, await_promise, await_schema, fetch_vendor_schema, refetch,
  refetch_all, invalidate_vendor_schema_cache, resolve, settle, answer, Event, run,
}
use workflowui.Vendor.Epochs.{IsTimely, cleared, run-IsTimely}

module _ {S : Type 0} where
  -- no call numbered below `n` can fill the cache, which is empty
  record IsSealed (n : ℕ) (c : Vendor S) : Type 0 where
    empty : c.cached_schema ≡ none
    later : n ≤ c.next_fetch
    old : All (λ f. (n ≤ f.id) ⊎ (f.launched_at ≢ c.schema_epoch)) c.in_flight

  await_promise-IsSealed :
      (n : ℕ) (o : Option ℕ) (hook : ℕ) (c : Vendor S)
      → IsSealed n c
      → IsSealed n (await_promise o hook c)
  unfolding await_promise
  await_promise-IsSealed n (some fetch) hook c h = record {
    empty = h.empty;
    later = h.later;
    old = h.old;
  }
  await_promise-IsSealed n none hook c h = record {
    empty = h.empty;
    later = omega (arith, h.later);
    old = All-append _ c.in_flight h.old (inl h.later);
  }

  refetch-IsSealed : (n hook : ℕ) (c : Vendor S) → IsSealed n c → IsSealed n (refetch hook c)
  unfolding refetch set_schema fetch_vendor_schema await_schema
  refetch-IsSealed n hook c h =
      let cleared_hook = set_schema hook none c in
      subst (λ o. IsSealed n (await_schema o hook cleared_hook)) (sym h.empty)
        (await_promise-IsSealed n c.schema_promise hook cleared_hook
          (record { empty = h.empty; later = h.later; old = h.old }))

  refetch_all-IsSealed :
      (n : ℕ) (hs : List (Hook S)) (c : Vendor S) → IsSealed n c → IsSealed n (refetch_all hs c)
  unfolding refetch_all
  refetch_all-IsSealed n [] c h = h
  refetch_all-IsSealed n (x ∷ hs) c h =
      refetch_all-IsSealed n hs (refetch x.id c) (refetch-IsSealed n x.id c h)

  invalidate-IsSealed :
      (c : Vendor S) → IsTimely c → IsSealed c.next_fetch (invalidate_vendor_schema_cache c)
  unfolding invalidate_vendor_schema_cache
  invalidate-IsSealed c h = refetch_all-IsSealed c.next_fetch c.hooks (cleared c) (record {
    empty = refl;
    later = omega arith;
    old =
        All-map_imp (λ f. f.launched_at ≤ c.schema_epoch) _ c.in_flight
          (λ f l. inr (λ now. omega (arith, l, now))) h.known;
  })

  settle_old :
      (fallback : S) (f : Fetch) (result : Option S) (c : Vendor S)
      → f.launched_at ≢ c.schema_epoch
      → (settle fallback f result c).0 ≡ c.cached_schema
  unfolding settle
  settle_old fallback f none c h =
      ap (λ (p : Option S × S). p.0)
        (if_false (eqb f.launched_at c.schema_epoch) _ _ ((eqb-false_iff _ _).1 h))
  settle_old fallback f (some s) c h =
      ap (λ (p : Option S × S). p.0)
        (if_true (not (eqb f.launched_at c.schema_epoch)) _ _
          (ap not ((eqb-false_iff f.launched_at c.schema_epoch).1 h)))

  answer-IsSealed :
      (fallback : S) (n fetch : ℕ) (result : Option S) (c : Vendor S)
      → fetch < n
      → IsSealed n c
      → IsSealed n (answer fallback fetch result c)
  unfolding answer
  answer-IsSealed fallback n fetch result c small h =
      let after : Option Fetch → Vendor S =
        λ o. elim o [ none ↦ c | some f ↦ resolve fetch (settle fallback f result c) c ] in
      elim (Option-cases (find? (λ f. eqb f.id fetch) c.in_flight)) [
        | inl missing ↦ subst (λ o. IsSealed n (after o)) (sym missing) h
        | inr (f, found) ↦
            let (m, same) = find?-mem (λ (f : Fetch). eqb f.id fetch) c.in_flight f found in
            let expired : f.launched_at ≢ c.schema_epoch = elim (All-mem _ c.in_flight h.old m) [
              | inl young ↦ absurd (omega (arith, young, small, (eqb_iff f.id fetch).0 same))
              | inr other ↦ other
            ] in
            subst (λ o. IsSealed n (after o)) (sym found)
              (record {
                empty = settle_old fallback f result c expired ∙ h.empty;
                later = h.later;
                old = All-filter _ _ c.in_flight h.old;
              })
      ]

  -- answers one after another
  pub answer_all : S → List (ℕ × Option S) → Vendor S → Vendor S
  answer_all fallback [] c = c
  answer_all fallback ((fetch, result) ∷ rest) c =
      answer_all fallback rest (answer fallback fetch result c)

  answer_all-IsSealed :
      (fallback : S) (n : ℕ) (late : List (ℕ × Option S)) (c : Vendor S)
      → All (λ a. a.0 < n) late
      → IsSealed n c
      → IsSealed n (answer_all fallback late c)
  unfolding answer_all
  answer_all-IsSealed fallback n [] c small h = h
  answer_all-IsSealed fallback n ((fetch, result) ∷ rest) c small h =
      answer_all-IsSealed fallback n rest (answer fallback fetch result c) small.1
        (answer-IsSealed fallback n fetch result c small.0 h)

  -- After a reconnection at any time, no answer to a call made before it, be it a schema or a failure,
  -- fills the cache, in whatever order the answers come.
  pub reconnect_forgets :
      (fallback : S) (es : List (Event S)) (late : List (ℕ × Option S))
      → All (λ a. a.0 < (run fallback es init).next_fetch) late
      → (answer_all fallback late
          (invalidate_vendor_schema_cache (run fallback es init))).cached_schema
        ≡ none
  reconnect_forgets fallback es late old =
      let c = run fallback es init in
      (answer_all-IsSealed fallback c.next_fetch late (invalidate_vendor_schema_cache c) old
        (invalidate-IsSealed c (run-IsTimely fallback es))).empty
