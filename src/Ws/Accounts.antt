-- ===== src/Ws/Accounts.antt =====
-- Counting the calls of a `WsClient`: those that wait, those that have been settled, and the timers
-- that are armed for a reply.
use workflowui.Base.{
  ℕ, ◌+◌, ◌≤◌, ◌≡◌, ◌≢◌, refl, sym, ap, inl, inr, true, false, Option, some, none, List, [], ◌∷◌,
  Memᴰ, arith, ◌++◌, All-append, mem-append_left, mem-append_right, eqb, eqb_iff, eqb-false_iff,
  All-map_imp, leb, if◌then◌else◌, All, Bool-cases, String, ◌∙◌,
}
use workflowui.Ws.{Outcome, PendingCall, Purpose, reply, retry, Timer, delete_call, clear_timeout}

-- how many entries of `pending` are under an id
unfoldable pub waiting : ℕ → List PendingCall → ℕ
waiting id [] = 0
waiting id (p ∷ ps) = (if eqb p.id id then 1 else 0) + waiting id ps

-- how often the promise of a call has been settled
unfoldable pub settled {ℓ} : {V : Type ℓ} → ℕ → List (ℕ × Outcome V) → ℕ
settled id [] = 0
settled id ((i, o) ∷ rest) = (if eqb i id then 1 else 0) + settled id rest

-- how many calls have been issued under an id, ids being handed out from 1 upwards
abbrev pub issued : ℕ → ℕ → ℕ
issued id last = if eqb id 0 then 0 else if leb id last then 1 else 0

pub waiting-mem : (p : PendingCall) (ps : List PendingCall) → Memᴰ p ps → 1 ≤ waiting p.id ps
unfolding waiting
waiting-mem p [] m = elim m [ ]
waiting-mem p (q ∷ ps) (Memᴰ.head e) = rw (sym e, (eqb_iff p.id p.id).1 refl) (omega arith)
waiting-mem p (q ∷ ps) (Memᴰ.tail m) = omega (arith, waiting-mem p ps m)

pub waiting-delete_call :
    (id i : ℕ) (ps : List PendingCall)
    → waiting i (delete_call id ps) ≡ (if eqb id i then 0 else waiting i ps)
unfolding waiting
waiting-delete_call id i [] = ground arith
waiting-delete_call id i (p ∷ ps) = ground (arith, waiting-delete_call id i ps)

-- entries under one id are the same if there is room for one only
pub same_call :
    (p q : PendingCall) (ps : List PendingCall)
    → Memᴰ p ps
    → Memᴰ q ps
    → p.id ≡ q.id
    → waiting p.id ps ≤ 1
    → p ≡ q
unfolding waiting
same_call p q [] m n e h = elim m [ ]
same_call p q (r ∷ ps) (Memᴰ.head a) (Memᴰ.head b) e h = cc
same_call p q (r ∷ ps) (Memᴰ.head a) (Memᴰ.tail n) e h =
    let more : 1 ≤ waiting p.id ps = rw e (waiting-mem q ps n) in
    let here : eqb r.id p.id ≡ true = (eqb_iff _ _).1 (ap PendingCall.id (sym a)) in
    absurd (ground arith)
same_call p q (r ∷ ps) (Memᴰ.tail m) (Memᴰ.head b) e h =
    let more = waiting-mem p ps m in
    let here : eqb r.id p.id ≡ true = (eqb_iff _ _).1 (ap PendingCall.id (sym b) ∙ sym e) in
    absurd (ground arith)
same_call p q (r ∷ ps) (Memᴰ.tail m) (Memᴰ.tail n) e h = same_call p q ps m n e (ground arith)

-- the entry that a timer of the given handle and purpose belongs to is still waiting
abbrev pub ExpectedFor : List PendingCall → ℕ → Purpose → Type 0
ExpectedFor ps handle (reply id ms method) = Memᴰ (record { id = id; timer = some handle }) ps
ExpectedFor ps handle (retry delay) = Unit

abbrev pub IsExpected : List PendingCall → Timer → Type 0
IsExpected ps t = ExpectedFor ps t.handle t.purpose

pub ExpectedFor-mono :
    (ps qs : List PendingCall) (handle : ℕ) (purpose : Purpose)
    → ((p : PendingCall) → p.timer ≡ some handle → Memᴰ p ps → Memᴰ p qs)
    → ExpectedFor ps handle purpose
    → ExpectedFor qs handle purpose
ExpectedFor-mono ps qs handle (reply id ms method) f m = f _ refl m
ExpectedFor-mono ps qs handle (retry delay) f m = tt

-- what a cleared timer leaves armed
pub All-clear_timeout {κ} :
    (P : Timer → Type κ) (o : Option ℕ) (ts : List Timer)
    → All P ts
    → All (λ t. P t × (o ≢ some t.handle)) (clear_timeout o ts)
All-clear_timeout P none ts h = All-map_imp _ _ ts (λ t x. (x, λ e. cc)) h
All-clear_timeout P (some handle) [] h = tt
All-clear_timeout P (some handle) (t ∷ ts) h = elim (Bool-cases (eqb t.handle handle)) [
  | inl gone ↦ rw gone (All-clear_timeout P (some handle) ts h.1)
  | inr kept ↦ rw kept (
    (h.0, λ e. (eqb-false_iff _ _).0 kept (ground arith)),
    All-clear_timeout P (some handle) ts h.1,
  )
]

-- a call that is not taken out stays
pub mem-delete_call :
    (id : ℕ) (p : PendingCall) (ps : List PendingCall)
    → Memᴰ p ps
    → p.id ≢ id
    → Memᴰ p (delete_call id ps)
mem-delete_call id p [] m n = elim m [ ]
mem-delete_call id p (q ∷ ps) (Memᴰ.head e) n =
    let kept : eqb q.id id ≡ false = rw (← e) ((eqb-false_iff _ _).1 n) in rw kept (Memᴰ.head e)
mem-delete_call id p (q ∷ ps) (Memᴰ.tail m) n = elim (Bool-cases (eqb q.id id)) [
  | inl gone ↦ rw gone (mem-delete_call id p ps m n)
  | inr kept ↦ rw kept (Memᴰ.tail (mem-delete_call id p ps m n))
]

pub waiting-append :
    (id : ℕ) (ps : List PendingCall) (p : PendingCall)
    → waiting id (ps ++ p ∷ []) ≡ waiting id ps + (if eqb p.id id then 1 else 0)
unfolding waiting
waiting-append id [] p = omega arith
waiting-append id (q ∷ ps) p = omega (arith, waiting-append id ps p)

-- The books of a client: every issued call is waiting or settled, once, and a timer that is armed
-- for a reply belongs to a call that waits.
pub record IsAccounted {ℓ} {V : Type ℓ} (last : ℕ) (ps : List PendingCall) (ts : List Timer)
    (ss : List (ℕ × Outcome V)) : Type ℓ where
  pub once : (id : ℕ) → waiting id ps + settled id ss ≡ issued id last
  pub expected : All (IsExpected ps) ts

module _ {ℓ} {V : Type ℓ} {last : ℕ} {ps : List PendingCall} {ts : List Timer}
    {ss : List (ℕ × Outcome V)} (v : IsAccounted last ps ts ss) where
  pub waiting-le-one : (id : ℕ) → waiting id ps ≤ 1
  waiting-le-one id = ground (arith, v.once id)

  -- a call that waits is settled, taken out, and its timer cleared
  pub settle-IsAccounted :
      (p : PendingCall) (o : Outcome V)
      → Memᴰ p ps
      → IsAccounted last (delete_call p.id ps) (clear_timeout p.timer ts) ((p.id, o) ∷ ss)
  unfolding settled
  settle-IsAccounted p o m = record {
    once = λ id. ground (
      arith,
      v.once id,
      v.once p.id,
      waiting-mem p ps m,
      waiting-delete_call p.id id ps,
      eqb_iff p.id id,
    );
    expected =
        All-map_imp _ _ _
          (λ t x.
            ExpectedFor-mono ps (delete_call p.id ps) t.handle t.purpose
              (λ q e n. mem-delete_call p.id q ps n (λ same.
                x.1 (
                  ap PendingCall.timer (same_call p q ps m n (sym same) (waiting-le-one p.id))
                  ∙ e)))
              x.0)
          (All-clear_timeout _ p.timer ts v.expected);
  }

  -- a new call waits, with a timer or without one
  pub issue-IsAccounted :
      IsAccounted (last + 1) (ps ++ record { id = last + 1; timer = none } ∷ []) ts ss
  issue-IsAccounted = record {
    once = λ id.
        ground (arith, v.once id, waiting-append id ps (record { id = last + 1; timer = none }));
    expected =
        All-map_imp _ _ ts
          (λ t x. ExpectedFor-mono ps _ t.handle t.purpose (λ q e n. mem-append_left _ _ n) x)
          v.expected;
  }

  pub issue_timed-IsAccounted :
      (handle ms : ℕ) (method : String)
      → IsAccounted
          (last + 1)
          (ps ++ record { id = last + 1; timer = some handle } ∷ [])
          (ts ++ record { handle = handle; purpose = reply (last + 1) ms method } ∷ [])
          ss
  issue_timed-IsAccounted handle ms method = record {
    once = λ id.
        ground
          (arith, v.once id, waiting-append id ps (record { id = last + 1; timer = some handle }));
    expected =
        All-append _ ts
          (All-map_imp _ _ ts
            (λ t x. ExpectedFor-mono ps _ t.handle t.purpose (λ q e n. mem-append_left _ _ n) x)
            v.expected)
          (mem-append_right ps _ (Memᴰ.head refl));
  }

  -- timers that are not for a reply come and go
  pub retry-IsAccounted :
      (handle delay : ℕ)
      → IsAccounted last ps (ts ++ record { handle = handle; purpose = retry delay } ∷ []) ss
  retry-IsAccounted handle delay = record {
    once = v.once;
    expected = All-append _ ts v.expected tt;
  }

  pub clear-IsAccounted : (o : Option ℕ) → IsAccounted last ps (clear_timeout o ts) ss
  clear-IsAccounted o = record {
    once = v.once;
    expected = All-map_imp _ _ _ (λ t x. x.0) (All-clear_timeout _ o ts v.expected);
  }
