-- ===== src/Inspect/Codes.antt =====
-- What becomes of the code of an RPC error.
use workflowui.Base.{ℕ, ◌≡◌, String, some, arith}
use workflowui.Base.{ℤ, pos}
use workflowui.Ws.{Outcome, resolved, rejected, timed_out}
use workflowui.Inspect.{Rejection, to_inspect_error, rejection_of}

-- However a call that the client has sent fails, also by an error of the server with its own code,
-- the inspection shows the code 0.
pub to_inspect_error-rejection_of {ℓ} :
    {V : Type ℓ} (shown : ℤ → String) (decimal : ℕ → String) (o : Outcome V) (r : Rejection)
    → rejection_of shown decimal o ≡ some r
    → (to_inspect_error r).code ≡ pos 0
unfolding rejection_of to_inspect_error
to_inspect_error-rejection_of shown decimal (resolved result) r e = cc
to_inspect_error-rejection_of shown decimal (rejected err) r e = ground arith
to_inspect_error-rejection_of shown decimal (timed_out ms method) r e = ground arith
