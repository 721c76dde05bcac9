-- ===== src/Ports/Compatible.antt =====
-- The lattice of port types, as the comment of portSchema.ts draws it.
use workflowui.Base.{◌≡◌, ◌≢◌, ◌↔◌, refl, true, Option, none, some, arith}
use workflowui.Manifest.{DataType, tensor, image, net, generic, branch}
use workflowui.Ports.{are_types_compatible, known_types_compatible}

-- which data may flow into which input
pub data Feeds : DataType → DataType → Type 0 where
  same : {t : DataType} → Feeds t t
  routed : {t : DataType} → t ≢ branch → Feeds branch t
  to_any : {s : DataType} → Feeds s generic
  from_any : {t : DataType} → t ≢ branch → Feeds generic t
  coerced : Feeds image tensor

-- the edges between an unregistered port and any other are let through
abbrev pub MayFeed : Option DataType → Option DataType → Type 0
MayFeed (some s) (some t) = Feeds s t
MayFeed _ _ = Unit

Feeds-ok : {s t : DataType} → Feeds s t → (known_types_compatible s t).ok ≡ true
unfolding known_types_compatible
Feeds-ok (same {t}) = ground arith
Feeds-ok (routed {t} h) = ground arith
Feeds-ok (to_any {s}) = ground arith
Feeds-ok (from_any {t} h) = ground arith
Feeds-ok coerced = refl

ok-Feeds : (s t : DataType) → (known_types_compatible s t).ok ≡ true → Feeds s t
unfolding known_types_compatible
ok-Feeds tensor tensor h = same
ok-Feeds image image h = same
ok-Feeds net net h = same
ok-Feeds generic generic h = same
ok-Feeds branch branch h = same
ok-Feeds image tensor h = coerced
ok-Feeds branch t h = routed (λ e. cc)
ok-Feeds s generic h = to_any
ok-Feeds generic t h = from_any (λ e. cc)
ok-Feeds s t h = cc

-- Two ports may be joined exactly when the lattice lets the data through, or one of them is not in
-- the registry.
pub are_types_compatible_iff :
    (s t : Option DataType) → ((are_types_compatible s t).ok ≡ true) ↔ MayFeed s t
unfolding are_types_compatible
are_types_compatible_iff (some s) (some t) = (ok-Feeds s t, Feeds-ok)
are_types_compatible_iff none _ = (λ h. tt, λ h. refl)
are_types_compatible_iff (some s) none = (λ h. tt, λ h. refl)
