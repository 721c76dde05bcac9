-- ===== src/Inspect.antt =====
-- The model inspection of frontend/src/hooks/useModelInspect.ts: calls of 'model.inspect' of which
-- only the latest may show its result. `G` is the type of a `ModelGraph`.
pub mod Latest
pub mod Codes
use Prim.Native.String
use workflowui.Base.{
  ℕ, ◌+◌, String, Bool, true, false, not, Option, none, some, List, [], ◌∷◌, eqb, if◌then◌else◌,
}
use workflowui.Base.{ℤ, pos}
use workflowui.Ws.{RpcError, Outcome, resolved, rejected, timed_out}

pub record ModelInspectError : Type 0 where
  pub code : ℤ
  pub message : String

-- what a call is rejected with: an object with a numeric code and a text, an `Error`, or anything
-- else, by its text
pub data Rejection : Type 0 where
  coded : ℤ → String → Rejection
  thrown : String → Rejection
  anything : String → Rejection

unfoldable pub to_inspect_error : Rejection → ModelInspectError
to_inspect_error (coded code message) = record { code = code; message = message }
to_inspect_error (thrown message) = record { code = pos 0; message = message }
to_inspect_error (anything text) = record { code = pos 0; message = text }

-- how a call of `WsClient` ends for its caller; `shown` prints a code and `decimal` a number
unfoldable pub rejection_of {ℓ} :
    {V : Type ℓ} → (ℤ → String) → (ℕ → String) → Outcome V → Option Rejection
rejection_of shown decimal (resolved result) = none
rejection_of shown decimal (rejected e) =
    some (thrown (String.◌++◌ (shown e.code) (String.◌++◌ ": " e.message)))
rejection_of shown decimal (timed_out ms method) =
    some
      (thrown (String.◌++◌ "Timeout after " (String.◌++◌ (decimal ms) (String.◌++◌ "ms: " method))))

pub record InspectState (G : Type 0) : Type 0 where
  pub graph : Option G
  pub loading : Bool
  pub error : Option ModelInspectError
  pub seq : ℕ

-- the end of one call: its result, or what it was rejected with
pub data Ending (G : Type 0) : Type 0 where
  answered : G → Ending G
  failed : Rejection → Ending G

module _ {G : Type 0} where
  abbrev pub init : InspectState G
  init = record { graph = none; loading = false; error = none; seq = 0 }

  -- `inspect` up to its `await`
  unfoldable pub inspect : InspectState G → InspectState G
  inspect s = record s { seq = s.seq + 1; loading = true; error = none }

  -- what the latest call commits
  unfoldable pub commit : Ending G → InspectState G → InspectState G
  unfolding to_inspect_error
  commit (answered g) s = record s { graph = some g; loading = false }
  commit (failed e) s = record s { error = some (to_inspect_error e); loading = false }

  -- `inspect` after its `await`
  unfoldable pub resume : ℕ → Ending G → InspectState G → InspectState G
  unfolding commit
  resume seq o s = if not (eqb seq s.seq) then s else commit o s

  unfoldable pub reset : InspectState G → InspectState G
  reset s = record { graph = none; loading = false; error = none; seq = s.seq + 1 }

  -- calls that end, in any order
  unfoldable pub resume_all : List (ℕ × Ending G) → InspectState G → InspectState G
  unfolding resume
  resume_all [] s = s
  resume_all ((seq, o) ∷ rest) s = resume_all rest (resume seq o s)
