-- ===== src/Store/Index.antt =====
-- The index `nodesById`: it finds what a search of the array finds.
use workflowui.Base.{
  length, ◌+◌, All-tabulate, All-both, ◌≡◌, ◌≢◌, refl, sym, ◌∙◌, ap, inl, inr, String, Option, some,
  none, List, [], ◌∷◌, map, arith, ◌==◌, eq_iff, eq_false_of_ne, find?, All, All-map, Distinct,
  Bool-cases, if◌then◌else◌, All-map_imp,
}
use workflowui.Store.{Dict, put, get, Node, rebuild_from, rebuild_nodes_by_id}

pub get-put :
    {A : Type 0} (j k : String) (a : A) (m : Dict A)
    → get j (put k a m) ≡ (if k == j then some a else get j m)
get-put j k a [] = refl
get-put j k a ((i, b) ∷ m) = ground (arith, eq_iff k j, eq_iff i k, eq_iff i j, get-put j k a m)

module _ {N V : Type 0} where
  -- the last node under an id, or else what was found before
  abbrev pub find_last : String → Option (Node N V) → List (Node N V) → Option (Node N V)
  find_last id found [] = found
  find_last id found (n ∷ ns) = find_last id (if n.id == id then some n else found) ns

  get-rebuild_from :
      (id : String) (ns : List (Node N V)) (m : Dict (Node N V))
      → get id (rebuild_from m ns) ≡ find_last id (get id m) ns
  get-rebuild_from id [] m = refl
  get-rebuild_from id (n ∷ ns) m =
      get-rebuild_from id ns (put n.id n m)
      ∙ ap (λ (o : Option (Node N V)). find_last id o ns) (get-put id n.id n m)

  pub get-rebuild :
      (id : String) (ns : List (Node N V)) → get id (rebuild_nodes_by_id ns) ≡ find_last id none ns
  get-rebuild id ns = get-rebuild_from id ns []

  find_last_absent :
      (id : String) (found : Option (Node N V)) (ns : List (Node N V))
      → All (λ n. n.id ≢ id) ns
      → find_last id found ns ≡ found
  find_last_absent id found [] h = refl
  find_last_absent id found (n ∷ ns) h =
      rw (eq_false_of_ne n.id id h.0) (find_last_absent id found ns h.1)

  -- with distinct ids the last node under an id is the first
  pub find_last-Distinct :
      (id : String) (ns : List (Node N V))
      → Distinct (map Node.id ns)
      → find_last id none ns ≡ find? (λ n. n.id == id) ns
  find_last-Distinct id [] d = refl
  find_last-Distinct id (n ∷ ns) d = elim (Bool-cases (n.id == id)) [
    | inl here ↦ rw here (
        find_last_absent id (some n) ns (
          All-map_imp _ _ ns (λ m e same. e ((eq_iff n.id id).0 here ∙ sym same))
            (All-map Node.id (λ (i : String). n.id ≢ i) ns d.0)))
    | inr other ↦ rw other (find_last-Distinct id ns d.1)
  ]

  length-put :
      (k : String) (a : Node N V) (m : Dict (Node N V))
      → get k m ≡ none
      → length (put k a m) ≡ length m + 1
  length-put k a [] e = refl
  length-put k a ((i, b) ∷ m) e = elim (Bool-cases (i == k)) [
    | inl here ↦ cc (rw here at e)
    | inr other ↦ rw other (omega (arith, length-put k a m (rw other at e)))
  ]

  length-rebuild_from :
      (ns : List (Node N V)) (m : Dict (Node N V))
      → Distinct (map Node.id ns)
      → All (λ n. get n.id m ≡ none) ns
      → length (rebuild_from m ns) ≡ length m + length ns
  length-rebuild_from [] m d h = omega arith
  length-rebuild_from (n ∷ ns) m d h =
      let left = All-both _ _ ns (All-map Node.id (λ (i : String). n.id ≢ i) ns d.0) h.1 in
      omega (
        arith,
        length-put n.id n m h.0,
        length-rebuild_from ns (put n.id n m) d.1 (
            All-map_imp _ _ ns
              (λ k x. get-put k.id n.id n m ∙ rw (eq_false_of_ne n.id k.id x.0) x.1) left),
      )

  -- with distinct ids the index is as large as the array
  pub length-rebuild :
      (ns : List (Node N V))
      → Distinct (map Node.id ns)
      → length (rebuild_nodes_by_id ns) ≡ length ns
  length-rebuild ns d = omega (arith, length-rebuild_from ns [] d (All-tabulate _ ns (λ n m. refl)))
