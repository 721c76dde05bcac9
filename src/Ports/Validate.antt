-- ===== src/Ports/Validate.antt =====
-- When `validateConnection` accepts a connection.
use workflowui.Base.{
  ◌≡◌, ◌≢◌, ◌↔◌, refl, true, false, Option, none, some, arith, inl, inr, String, List, Bool-cases,
  is_some, ◌==◌, eq_false_of_ne, ne_of_eq_false,
}
use workflowui.Manifest.{DataType, Direction, source, target, PortDef}
use workflowui.Ports.{
  ConnectionLike, NodeLike, type_of, get_port, is_misdirected, data_type_of, are_types_compatible,
  known_types_compatible, validate_ports, validate_endpoints, validate_options, validate_connection,
  is_connection_valid,
}
use workflowui.Ports.Compatible.{MayFeed, are_types_compatible_iff}

-- a registered port must have the direction of its end of the connection
abbrev pub PointsAs : Direction → Option PortDef → Type 0
PointsAs d none = Unit
PointsAs d (some p) = p.direction ≡ d

pub record IsLegal (c : ConnectionLike) (nodes : List NodeLike) : Type 0 where
  pub src : String
  pub tgt : String
  pub from : c.source ≡ some src
  pub to : c.target ≡ some tgt
  pub src_named : src ≢ ""
  pub tgt_named : tgt ≢ ""
  pub no_loop : src ≢ tgt
  pub gives : PointsAs source (get_port (type_of src nodes) c.source_handle)
  pub takes : PointsAs target (get_port (type_of tgt nodes) c.target_handle)
  pub feeds :
      MayFeed
        (data_type_of (get_port (type_of src nodes) c.source_handle))
        (data_type_of (get_port (type_of tgt nodes) c.target_handle))

is_misdirected_iff :
    (d : Direction) (p : Option PortDef) → (is_misdirected p d ≡ false) ↔ PointsAs d p
unfolding is_misdirected
is_misdirected_iff source none = (λ h. tt, λ h. refl)
is_misdirected_iff target none = (λ h. tt, λ h. refl)
is_misdirected_iff source (some p) = ground arith
is_misdirected_iff target (some p) = ground arith

module _ (st sh tt' th : Option String) where
  validate_ports_iff : ((validate_ports st sh tt' th).ok ≡ true) ↔ (
      PointsAs source (get_port st sh)
      × PointsAs target (get_port tt' th)
      × MayFeed (data_type_of (get_port st sh)) (data_type_of (get_port tt' th)))
  unfolding validate_ports
  validate_ports_iff =
      let fit =
        are_types_compatible_iff (data_type_of (get_port st sh)) (data_type_of (get_port tt' th)) in
      let out = is_misdirected_iff source (get_port st sh) in
      let into = is_misdirected_iff target (get_port tt' th) in
      elim (Bool-cases (is_misdirected (get_port st sh) source)) [
        | inl wrong ↦ (λ h. absurd (ground arith), λ l. absurd (ground (arith, out.1 l.0)))
        | inr right ↦ elim (Bool-cases (is_misdirected (get_port tt' th) target)) [
          | inl wrong ↦ (λ h. absurd (ground arith), λ l. absurd (ground (arith, into.1 l.1)))
          | inr good ↦ (
            λ h. (out.0 right, into.0 good, fit.0 (rw (right, good) at h)),
            λ l. rw (right, good) (fit.1 l.2),
          )
        ]
      ]

module _ (c : ConnectionLike) (nodes : List NodeLike) where
  endpoints-IsLegal :
      (src tgt : String)
      → c.source ≡ some src
      → c.target ≡ some tgt
      → (validate_endpoints src tgt c nodes).ok ≡ true
      → IsLegal c nodes
  unfolding validate_endpoints
  endpoints-IsLegal src tgt p q h = elim (Bool-cases (src == "")) [
    | inl e ↦ absurd (ground arith)
    | inr named ↦ elim (Bool-cases (tgt == "")) [
      | inl e ↦ absurd (ground arith)
      | inr aimed ↦ elim (Bool-cases (src == tgt)) [
        | inl e ↦ absurd (ground arith)
        | inr apart ↦
            let (g, t, f) =
              (validate_ports_iff (type_of src nodes) c.source_handle (type_of tgt nodes)
                  c.target_handle).0
                (rw (named, aimed, apart) at h) in
            record {
              src = src;
              tgt = tgt;
              from = p;
              to = q;
              src_named = ne_of_eq_false src "" named;
              tgt_named = ne_of_eq_false tgt "" aimed;
              no_loop = ne_of_eq_false src tgt apart;
              gives = g;
              takes = t;
              feeds = f;
            }
      ]
    ]
  ]

  options-IsLegal :
      (so to : Option String)
      → c.source ≡ so
      → c.target ≡ to
      → (validate_options so to c nodes).ok ≡ true
      → IsLegal c nodes
  unfolding validate_options
  options-IsLegal (some src) (some tgt) p q h = endpoints-IsLegal src tgt p q h
  options-IsLegal none to p q h = absurd (ground arith)
  options-IsLegal (some src) none p q h = absurd (ground arith)

  IsLegal-ok : IsLegal c nodes → (validate_connection c nodes).ok ≡ true
  unfolding validate_connection
  IsLegal-ok l =
      rw
        (
          l.from,
          l.to,
          eq_false_of_ne l.src "" l.src_named,
          eq_false_of_ne l.tgt "" l.tgt_named,
          eq_false_of_ne l.src l.tgt l.no_loop,
        )
        ((validate_ports_iff (type_of l.src nodes) c.source_handle (type_of l.tgt nodes)
            c.target_handle).1
          (l.gives, l.takes, l.feeds))

-- A connection is accepted exactly when both ends are named and different, each registered port
-- has the direction of its end, and the lattice lets the source's data into the target.
pub is_connection_valid_iff :
    (c : ConnectionLike) (nodes : List NodeLike)
    → (is_connection_valid c nodes ≡ true) ↔ IsLegal c nodes
unfolding is_connection_valid
is_connection_valid_iff c nodes = (
  unfold validate_connection in options-IsLegal c nodes c.source c.target refl refl,
  IsLegal-ok c nodes,
)

known_types_reason :
    (s t : DataType)
    → (known_types_compatible s t).ok ≡ false
    → is_some (known_types_compatible s t).reason ≡ true
unfolding known_types_compatible
known_types_reason s t h = ground arith

types_reason :
    (s t : Option DataType)
    → (are_types_compatible s t).ok ≡ false
    → is_some (are_types_compatible s t).reason ≡ true
unfolding are_types_compatible
types_reason (some s) (some t) h = known_types_reason s t h
types_reason none _ h = refl
types_reason (some s) none h = refl

ports_reason :
    (st sh tt' th : Option String)
    → (validate_ports st sh tt' th).ok ≡ false
    → is_some (validate_ports st sh tt' th).reason ≡ true
unfolding validate_ports
ports_reason st sh tt' th h =
    ground (arith, types_reason (data_type_of (get_port st sh)) (data_type_of (get_port tt' th)))

options_reason :
    (so to : Option String) (c : ConnectionLike) (nodes : List NodeLike)
    → (validate_options so to c nodes).ok ≡ false
    → is_some (validate_options so to c nodes).reason ≡ true
unfolding validate_options
options_reason (some src) (some tgt) c nodes h =
    unfold validate_endpoints in
    ground
      (arith, ports_reason (type_of src nodes) c.source_handle (type_of tgt nodes) c.target_handle)
options_reason none _ c nodes h = refl
options_reason (some src) none c nodes h = refl

-- Whenever a connection is rejected, on whatever check, the result carries a reason to show.
pub rejection_has_reason :
    (c : ConnectionLike) (nodes : List NodeLike)
    → (validate_connection c nodes).ok ≡ false
    → is_some (validate_connection c nodes).reason ≡ true
unfolding validate_connection
rejection_has_reason c nodes h = options_reason c.source c.target c nodes h
