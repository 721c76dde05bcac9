-- ===== src/Drawer/Shapes.antt =====
-- The shape of a layer on the canvas and in the table.
use workflowui.Base.{
  ℕ, ◌≡◌, ◌≢◌, refl, ap, sym, ◌∙◌, String, Option, none, some, List, [], ◌∷◌, map, find?, All,
  All-map, All-map_imp, Distinct, Bool-cases, inl, inr, ◌==◌, eq_iff, if_false, eq_false_of_ne,
}
use workflowui.Store.{Dict, get, put}
use workflowui.Store.Index.{get-put}
use workflowui.Drawer.{
  ModelBlob, shapes_from, first_out, or_nil, shape_of, canvas_shape, table_shape,
}

find_absent :
    (k : String) (bs : List ModelBlob)
    → All (λ b. k ≢ b.name) bs
    → find? (λ b. b.name == k) bs ≡ none
find_absent k [] h = refl
find_absent k (b ∷ bs) h =
    if_false (b.name == k) _ _ (eq_false_of_ne b.name k (λ e. h.0 (sym e))) ∙ find_absent k bs h.1

-- the shape that was found, or else what the map had
abbrev found_or : Option (List ℕ) → Option ModelBlob → Option (List ℕ)
found_or before none = before
found_or before (some b) = some b.shape

get-shapes_from :
    (k : String) (bs : List ModelBlob) (m : Dict (List ℕ))
    → Distinct (map ModelBlob.name bs)
    → get k (shapes_from m bs) ≡ found_or (get k m) (find? (λ b. b.name == k) bs)
get-shapes_from k [] m d = refl
get-shapes_from k (b ∷ bs) m d =
    get-shapes_from k bs (put b.name b.shape m) d.1 ∙ elim (Bool-cases (b.name == k)) [
      | inl same ↦
          let none_later = find_absent k bs (
            All-map_imp _ _ bs (λ x other e. other ((eq_iff b.name k).0 same ∙ e))
              (All-map ModelBlob.name (λ (i : String). b.name ≢ i) bs d.0)) in
          rw (none_later, get-put k b.name b.shape m, same) refl
      | inr other ↦ rw (get-put k b.name b.shape m, other) refl
    ]

shape_found : (o : Option ModelBlob) → or_nil (found_or none o) ≡ shape_of o
shape_found none = refl
shape_found (some b) = refl

-- In a model no two blobs of which have one name, the canvas and the table show the same shape for
-- every layer.
pub canvas_shape-table_shape :
    (blobs : List ModelBlob) (outputs : List String)
    → Distinct (map ModelBlob.name blobs)
    → canvas_shape blobs outputs ≡ table_shape blobs outputs
unfolding canvas_shape table_shape
canvas_shape-table_shape blobs outputs d =
    elim (first_out outputs)
      as (λ o.
        (elim o [ none ↦ [] | some name ↦ or_nil (get name (shapes_from [] blobs)) ])
        ≡ (elim o [ none ↦ [] | some name ↦ shape_of (find? (λ b. b.name == name) blobs) ])) [
          | none ↦ refl
          | some name ↦
              ap or_nil (get-shapes_from name blobs [] d)
              ∙ shape_found (find? (λ b. b.name == name) blobs)
        ]
