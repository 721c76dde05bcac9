-- ===== src/Drawer/Wires.antt =====
-- The edges of the drawer: each once, and all of them.
use workflowui.Base.{
  ◌≡◌, ◌≢◌, ◌↔◌, ◌∙◌, ap, mem_of_map, All-mem, refl, sym, subst, String, List, [], ◌∷◌, map, any,
  any_of_mem, Memᴰ, All, All-append, All-tabulate, Distinct, Distinct-append, ◌==◌, eq_iff,
  if_cases, if◌then◌else◌, mem-append_left, mem-append_right, mem_of_any, ne_of_eq_false,
  eq_false_of_ne,
}
use mathlib.Core.List.{map-append}
use workflowui.Drawer.{
  ModelBlob, ModelGraph, ModelEdge, Wiring, key_of, edge_of, add_wire, add_wires, wire_all,
  layout_edges,
}

-- an edge from the producer of a blob to one of its consumers
abbrev pub IsWire : List ModelBlob → ModelEdge → Type 0
IsWire bs e =
    (b : ModelBlob) × (c : String) × Memᴰ b bs
    × Memᴰ c b.consumers
    × (b.producer ≢ "")
    × (e ≡ edge_of b c)

module _ (all_blobs : List ModelBlob) where
  pub record IsWired (w : Wiring) : Type 0 where
    pub keys : w.edge_key ≡ map ModelEdge.id w.edges
    pub distinct : Distinct w.edge_key
    pub sound : All (IsWire all_blobs) w.edges

  add_wire_lem :
      (b : ModelBlob) (c : String) (w : Wiring)
      → Memᴰ b all_blobs
      → Memᴰ c b.consumers
      → b.producer ≢ ""
      → IsWired w
      → IsWired (add_wire b c w)
  unfolding add_wire
  add_wire_lem b c w mb mc named h =
      if_cases IsWired (any (λ k. k == key_of b c) w.edge_key) _ _ (λ known. h)
        (λ unknown. record {
          keys = rw (map-append, h.keys) refl;
          distinct = Distinct-append w.edge_key (key_of b c) h.distinct (
              All-tabulate _ w.edge_key (λ k m same.
                let seen =
                  any_of_mem (λ (i : String). i == key_of b c) k w.edge_key m
                    ((eq_iff k (key_of b c)).1 same) in
                cc));
          sound = All-append _ w.edges h.sound (b, c, mb, mc, named, refl);
        })

  add_wires_lem :
      (b : ModelBlob) (cs : List String) (w : Wiring)
      → Memᴰ b all_blobs
      → ((c : String) → Memᴰ c cs → Memᴰ c b.consumers)
      → b.producer ≢ ""
      → IsWired w
      → IsWired (add_wires b cs w)
  unfolding add_wires
  add_wires_lem b [] w mb inside named h = h
  add_wires_lem b (c ∷ cs) w mb inside named h =
      add_wires_lem b cs (add_wire b c w) mb (λ d m. inside d (Memᴰ.tail m)) named
        (add_wire_lem b c w mb (inside c (Memᴰ.head refl)) named h)

  wire_all_lem :
      (bs : List ModelBlob) (w : Wiring)
      → ((b : ModelBlob) → Memᴰ b bs → Memᴰ b all_blobs)
      → IsWired w
      → IsWired (wire_all bs w)
  unfolding wire_all
  wire_all_lem [] w inside h = h
  wire_all_lem (b ∷ bs) w inside h =
      wire_all_lem bs _ (λ d m. inside d (Memᴰ.tail m))
        (if_cases IsWired (b.producer == "") w (add_wires b b.consumers w) (λ input. h)
          (λ made.
            add_wires_lem b b.consumers w (inside b (Memᴰ.head refl)) (λ c m. m)
              (ne_of_eq_false b.producer "" made) h))

layout_edges_sound :
    {N : Type 0} (graph : ModelGraph N)
    → Distinct (map ModelEdge.id (layout_edges graph))
      × All (IsWire graph.blobs) (layout_edges graph)
unfolding layout_edges
layout_edges_sound graph =
    let h =
      wire_all_lem graph.blobs graph.blobs (record { edge_key = []; edges = [] }) (λ b m. m)
        (record { keys = refl; distinct = tt; sound = tt }) in
    (subst Distinct h.keys h.distinct, h.sound)

-- what has a key keeps it
add_wire_keeps :
    (k : String) (b : ModelBlob) (c : String) (w : Wiring)
    → Memᴰ k w.edge_key
    → Memᴰ k (add_wire b c w).edge_key
unfolding add_wire
add_wire_keeps k b c w m =
    if_cases (λ (v : Wiring). Memᴰ k v.edge_key) (any (λ i. i == key_of b c) w.edge_key) _ _
      (λ known. m) (λ unknown. mem-append_left w.edge_key _ m)

add_wire_has :
    (b : ModelBlob) (c : String) (w : Wiring) → Memᴰ (key_of b c) (add_wire b c w).edge_key
unfolding add_wire
add_wire_has b c w =
    if_cases (λ (v : Wiring). Memᴰ (key_of b c) v.edge_key) (any (λ i. i == key_of b c) w.edge_key)
      _ _
      (λ known.
        let (i, m, same) = mem_of_any (λ i. i == key_of b c) w.edge_key known in
        subst (λ j. Memᴰ j w.edge_key) ((eq_iff i (key_of b c)).0 same) m)
      (λ unknown. mem-append_right w.edge_key _ (Memᴰ.head refl))

add_wires_keeps :
    (k : String) (b : ModelBlob) (cs : List String) (w : Wiring)
    → Memᴰ k w.edge_key
    → Memᴰ k (add_wires b cs w).edge_key
unfolding add_wires
add_wires_keeps k b [] w m = m
add_wires_keeps k b (c ∷ cs) w m =
    add_wires_keeps k b cs (add_wire b c w) (add_wire_keeps k b c w m)

add_wires_has :
    (b : ModelBlob) (c : String) (cs : List String) (w : Wiring)
    → Memᴰ c cs
    → Memᴰ (key_of b c) (add_wires b cs w).edge_key
unfolding add_wires
add_wires_has b c [] w m = elim m [ ]
add_wires_has b c (d ∷ cs) w (Memᴰ.head e) =
    add_wires_keeps (key_of b c) b cs (add_wire b d w)
      (subst (λ x. Memᴰ (key_of b x) (add_wire b d w).edge_key) (sym e) (add_wire_has b d w))
add_wires_has b c (d ∷ cs) w (Memᴰ.tail m) = add_wires_has b c cs (add_wire b d w) m

wire_all_keeps :
    (k : String) (bs : List ModelBlob) (w : Wiring)
    → Memᴰ k w.edge_key
    → Memᴰ k (wire_all bs w).edge_key
unfolding wire_all
wire_all_keeps k [] w m = m
wire_all_keeps k (b ∷ bs) w m = wire_all_keeps k bs _ (
    if_cases (λ (v : Wiring). Memᴰ k v.edge_key) (b.producer == "") w (add_wires b b.consumers w)
      (λ i. m) (λ i. add_wires_keeps k b b.consumers w m))

wire_all_has :
    (b : ModelBlob) (c : String) (bs : List ModelBlob) (w : Wiring)
    → Memᴰ b bs
    → Memᴰ c b.consumers
    → b.producer ≢ ""
    → Memᴰ (key_of b c) (wire_all bs w).edge_key
unfolding wire_all
wire_all_has b c [] w m k named = elim m [ ]
wire_all_has b c (d ∷ bs) w (Memᴰ.head e) k named =
    let round : Memᴰ (key_of b c)
        (if b.producer == "" then w else add_wires b b.consumers w).edge_key =
      rw (eq_false_of_ne b.producer "" named) (add_wires_has b c b.consumers w k) in
    subst
      (λ (x : ModelBlob).
        Memᴰ (key_of b c)
          (wire_all bs (if x.producer == "" then w else add_wires x x.consumers w)).edge_key)
      e (wire_all_keeps (key_of b c) bs _ round)
wire_all_has b c (d ∷ bs) w (Memᴰ.tail m) k named = wire_all_has b c bs _ m k named

-- Every blob with a producer has an edge to each of its consumers, one with the id made of the three
-- names.
pub layout_edges_complete :
    {N : Type 0} (graph : ModelGraph N) (b : ModelBlob) (c : String)
    → Memᴰ b graph.blobs
    → Memᴰ c b.consumers
    → b.producer ≢ ""
    → Memᴰ (key_of b c) (map ModelEdge.id (layout_edges graph))
unfolding layout_edges
layout_edges_complete graph b c m k named =
    let start : Wiring = record { edge_key = []; edges = [] } in
    let h =
      wire_all_lem graph.blobs graph.blobs start (λ b m. m)
        (record { keys = refl; distinct = tt; sound = tt }) in
    subst (Memᴰ (key_of b c)) h.keys (wire_all_has b c graph.blobs start m k named)

-- some blob of the model with a producer has a consumer for which the id is made
abbrev pub IsNamed : List ModelBlob → String → Type 0
IsNamed bs k =
    (b : ModelBlob) × (c : String) × Memᴰ b bs
    × Memᴰ c b.consumers
    × (b.producer ≢ "")
    × (k ≡ key_of b c)

-- No two edges of the drawer have the same id, each edge leads from the producer of a blob of the
-- model to one of the blob's consumers, and the ids of the edges are those of all producers, blobs and
-- consumers, none left out.
pub layout_edges_lem :
    {N : Type 0} (graph : ModelGraph N) (k : String)
    → Distinct (map ModelEdge.id (layout_edges graph))
      × All (IsWire graph.blobs) (layout_edges graph)
      × (Memᴰ k (map ModelEdge.id (layout_edges graph)) ↔ IsNamed graph.blobs k)
layout_edges_lem graph k =
    let (distinct, sound) = layout_edges_sound graph in
    (
      distinct,
      sound,
      (
        λ m.
            let (e, l, same) = mem_of_map ModelEdge.id (layout_edges graph) m in
            let (b, c, here, listed, named, made) =
              All-mem (IsWire graph.blobs) (layout_edges graph) sound l in
            (b, c, here, listed, named, sym same ∙ ap ModelEdge.id made),
        λ (b, c, here, listed, named, made).
            subst (λ x. Memᴰ x (map ModelEdge.id (layout_edges graph))) (sym made)
              (layout_edges_complete graph b c here listed named),
      ),
    )
