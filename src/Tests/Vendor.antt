-- ===== src/Tests/Vendor.antt =====
-- Hooks that share a fetch, and one that is answered too late. A schema is a number here.
use workflowui.Base.{ℕ, ◌≡◌, ◌<◌, refl, none, some, List, [], ◌∷◌, Memᴰ, arith}
use workflowui.Vendor.{
  Vendor, Fetch, Event, mounts, reconnects, answers, runs_callback, init,
  invalidate_vendor_schema_cache, step, run, mount,
}
use workflowui.Vendor
use workflowui.Vendor.Epochs.{run_shares}
use workflowui.Vendor.Stale.{answer_all, reconnect_forgets}

-- a hook mounts, the backend reconnects, and another mounts before any answer
abbrev shared : List (Event ℕ)
shared = mounts 1 ∷ reconnects ∷ mounts 2 ∷ []

abbrev second : Fetch
second = record { id = 1; launched_at = 1 }

second_flies : Memᴰ second (run 9 shared init).in_flight
unfolding run step mount Vendor.fetch_vendor_schema
second_flies = Memᴰ.tail (Memᴰ.head refl)

run_shares_example : second.id ≡ second.id
unfolding run step mount Vendor.fetch_vendor_schema
run_shares_example = run_shares 9 shared second second second_flies second_flies refl refl

call_0_old : 0 < (run 9 shared init).next_fetch
unfolding run step mount Vendor.fetch_vendor_schema
call_0_old = omega arith

reconnect_forgets_example :
    (answer_all 9
      ((0, some 5) ∷ [])
      (invalidate_vendor_schema_cache (run 9 shared init))).cached_schema
    ≡ none
reconnect_forgets_example = reconnect_forgets 9 shared ((0, some 5) ∷ []) (call_0_old, tt)
