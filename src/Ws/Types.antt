-- ===== src/Ws/Types.antt =====
-- The state of `WsClient` and of the platform under it. A subscriber is known by a number, and `V`
-- is the type of the source's `unknown` payloads. Subscribers return normally and make no call of
-- the client while they are told something: what they do later is a later event.
use workflowui.Base.{ℤ, ℕ, String, Bool, Option, List}

pub record RpcError : Type 0 where
  pub code : ℤ
  pub message : String

-- `msg.id` of a message: `other` is any value that is no natural number, `null` included
pub data MessageId : Type 0 where
  absent other : MessageId
  number : ℕ → MessageId

pub record RpcResponse {ℓ} (V : Type ℓ) : Type ℓ where
  pub id : MessageId
  pub method : Option String
  pub result : Option V
  pub params : Option V
  pub error : Option RpcError

-- what `JSON.parse` makes of a message; `null` makes the first field access throw
pub data Parsed {ℓ} (V : Type ℓ) : Type ℓ where
  invalid null : Parsed V
  response : RpcResponse V → Parsed V

-- how a call's promise ends
pub data Outcome {ℓ} (V : Type ℓ) : Type ℓ where
  resolved : Option V → Outcome V
  rejected : RpcError → Outcome V
  timed_out : ℕ → String → Outcome V

pub record PendingCall : Type 0 where
  pub id : ℕ
  pub timer : Option ℕ

-- what an armed `setTimeout` will do: expire a call, or reconnect
pub data Purpose : Type 0 where
  reply : ℕ → ℕ → String → Purpose
  retry : ℕ → Purpose

pub record Timer : Type 0 where
  pub handle : ℕ
  pub purpose : Purpose

pub record ConnectionState : Type 0 where
  pub connected : Bool
  pub reconnecting : Bool
  pub attempt : ℕ
  pub next_retry_ms : ℕ

-- what leaves the client, the settling of calls apart
pub data Output {ℓ} (V : Type ℓ) : Type ℓ where
  request : ℕ → String → Option V → Output V
  notification : String → Option V → Output V
  not_connected : String → Output V
  tell_notification : ℕ → String → Option V → Output V
  tell_connection : ℕ → Bool → Output V
  tell_state : ℕ → ConnectionState → Output V
  tell_reconnect : ℕ → Output V
  connect_resolved connect_rejected : ℕ → Output V
  connect_threw handler_threw : Output V

pub record Client {ℓ} (V : Type ℓ) : Type ℓ where
  -- the fields of the class; a socket is known by its number
  pub ws : Option ℕ
  pub request_id : ℕ
  pub pending : List PendingCall
  pub notification_handlers : List ℕ
  pub connection_handlers : List ℕ
  pub connection_state_handlers : List ℕ
  pub reconnect_handlers : List ℕ
  pub reconnect_timer : Option ℕ
  pub connected : Bool
  pub reconnecting : Bool
  pub attempt : ℕ
  pub next_retry_ms : ℕ
  pub stopped : Bool
  pub had_first_open : Bool
  -- the platform: sockets made, `readyState === OPEN`, the `settled` variable of each `connect`,
  -- armed timers, the settling of calls (newest first), and all other effects (oldest first)
  pub next_socket : ℕ
  pub is_open : ℕ → Bool
  pub is_settled : ℕ → Bool
  pub timers : List Timer
  pub next_handle : ℕ
  pub settlements : List (ℕ × Outcome V)
  pub outputs : List (Output V)
