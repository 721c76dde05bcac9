-- ===== src/Properties/Groups.antt =====
-- The groups of the vendor's fields.
use mathlib.Core.List.{append-nil}
use workflowui.Base.{
  append_one, filter, if◌then◌else◌, ◌≡◌, ◌≢◌, refl, sym, ◌∙◌, List, [], ◌∷◌, ◌++◌, map, All,
  All-append, All-of_map, Distinct, Bool-cases, inl, inr, if_both, if_cases, ◌==◌, eq_iff,
  ne_of_eq_false, arith, String,
}
use workflowui.Properties.{VendorFieldDef, FieldGroup, push_field, group_fields}

-- the fields under a name
abbrev pub named : String → List FieldGroup → List VendorFieldDef
named n [] = []
named n (g ∷ gs) = if g.name == n then g.fields else named n gs

abbrev DistinctGroups : List FieldGroup → Type 0
DistinctGroups [] = Unit
DistinctGroups (g ∷ gs) = All (λ h. g.name ≢ h.name) gs × DistinctGroups gs

-- what holds of the groups at every round
pub record IsGrouped (gs : List FieldGroup) : Type 0 where
  pub distinct : DistinctGroups gs
  pub pure : All (λ g. All (λ f. f.group ≡ g.name) g.fields) gs

push_other :
    (n : String) (f : VendorFieldDef) (gs : List FieldGroup)
    → n ≢ f.group
    → All (λ g. n ≢ g.name) gs
    → All (λ g. n ≢ g.name) (push_field f gs)
unfolding push_field
push_other n f [] new h = (new, tt)
push_other n f (g ∷ gs) new h =
    if_both (All (λ (x : FieldGroup). n ≢ x.name)) (g.name == f.group) _ _ h
      (h.0, push_other n f gs new h.1)

push_field-IsGrouped :
    (f : VendorFieldDef) (gs : List FieldGroup) → IsGrouped gs → IsGrouped (push_field f gs)
unfolding push_field
push_field-IsGrouped f [] h = record { distinct = (tt, tt); pure = ((refl, tt), tt) }
push_field-IsGrouped f (g ∷ gs) h =
    let later = push_field-IsGrouped f gs (record { distinct = h.distinct.1; pure = h.pure.1 }) in
    if_cases IsGrouped (g.name == f.group) _ _
      (λ same. record {
        distinct = h.distinct;
        pure = (All-append _ g.fields h.pure.0 (sym ((eq_iff g.name f.group).0 same)), h.pure.1);
      })
      (λ other. record {
        distinct = (
          push_other g.name f gs (ne_of_eq_false g.name f.group other) h.distinct.0,
          later.distinct,
        );
        pure = (h.pure.0, later.pure);
      })

group_fields-IsGrouped :
    (fs : List VendorFieldDef) (gs : List FieldGroup)
    → IsGrouped gs
    → IsGrouped (group_fields fs gs)
unfolding group_fields
group_fields-IsGrouped [] gs h = h
group_fields-IsGrouped (f ∷ fs) gs h =
    group_fields-IsGrouped fs (push_field f gs) (push_field-IsGrouped f gs h)

named-push_field :
    (n : String) (f : VendorFieldDef) (gs : List FieldGroup)
    → named n (push_field f gs) ≡ (if f.group == n then named n gs ++ f ∷ [] else named n gs)
unfolding push_field
named-push_field n f [] = refl
named-push_field n f (g ∷ gs) =
    ground
      (arith, eq_iff g.name f.group, eq_iff g.name n, eq_iff f.group n, named-push_field n f gs)

named-group_fields :
    (n : String) (fs : List VendorFieldDef) (gs : List FieldGroup)
    → named n (group_fields fs gs) ≡ named n gs ++ filter (λ f. f.group == n) fs
unfolding group_fields
named-group_fields n [] gs = sym (append-nil (named n gs))
named-group_fields n (f ∷ fs) gs =
    named-group_fields n fs (push_field f gs) ∙ elim (Bool-cases (f.group == n)) [
      | inl here ↦ rw (named-push_field n f gs, here) (append_one (named n gs) f _)
      | inr other ↦ rw (named-push_field n f gs, other) refl
    ]

DistinctGroups-names :
    (gs : List FieldGroup) → DistinctGroups gs → Distinct (map FieldGroup.name gs)
DistinctGroups-names [] h = tt
DistinctGroups-names (g ∷ gs) h =
    (All-of_map FieldGroup.name (λ n. g.name ≢ n) gs h.0, DistinctGroups-names gs h.1)

-- The groups that the vendor's panel shows have different names, each holds only fields of its name,
-- and a name has exactly the schema's fields of that group, in the order of the schema.
pub group_fields_lem :
    (fs : List VendorFieldDef) (n : String)
    → Distinct (map FieldGroup.name (group_fields fs []))
      × All (λ g. All (λ f. f.group ≡ g.name) g.fields) (group_fields fs [])
      × (named n (group_fields fs []) ≡ filter (λ f. f.group == n) fs)
group_fields_lem fs n =
    let h = group_fields-IsGrouped fs [] (record { distinct = tt; pure = tt }) in
    (DistinctGroups-names (group_fields fs []) h.distinct, h.pure, named-group_fields n fs [])
