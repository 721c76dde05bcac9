-- ===== src/Canvas/Styles.antt =====
-- How nodes and edges are drawn: `nodeCategory`, `styledNodes` and `styledEdges` of
-- frontend/src/App.tsx and `computeNodeClassName` of frontend/src/utils/nodeClassName.ts.
use workflowui.Base.{
  concat, ℕ, String, Bool, false, not, Option, none, some, List, [], ◌∷◌, map, any, filter, length,
  eqb, is_some, ◌==◌, if◌then◌else◌,
}
use workflowui.Manifest.{NodeCategory, category_visuals, get_manifest_entry}
use workflowui.Store.{
  NodeStatus, idle, running, done, error, paused, skipped, Dict, get, put, Node, Edge,
}
use workflowui.Debug.{Breakpoint}
use workflowui.Cycles.{CycleEdge, add, find_cyclic_edges}
use workflowui.Runner.{◌<>◌}

-- the values of `NodeStatus`
abbrev pub status_text : NodeStatus → String
status_text idle = "idle"
status_text running = "running"
status_text done = "done"
status_text error = "error"
status_text paused = "paused"
status_text skipped = "skipped"

pub record CategoryLook : Type 0 where
  pub mini_map_color : String
  pub css_class : String

-- `nodeCategory` of the entry that the registry has, `DEFAULT_NODE_CATEGORY` without one
abbrev pub look_of : Option NodeCategory → CategoryLook
look_of none = record { mini_map_color = "#444"; css_class = "" }
look_of (some c) =
    let visual = category_visuals c in
    record { mini_map_color = visual.color; css_class = visual.css_class }

abbrev pub category_of : Option String → Option NodeCategory
category_of type = elim (get_manifest_entry type) [ none ↦ none | some e ↦ some e.category ]

unfoldable pub node_category : Option String → CategoryLook
node_category type = look_of (category_of type)

-- `.filter(Boolean).join(' ')`
abbrev pub join_words : List String → String
join_words [] = ""
join_words (w ∷ ws) =
    let rest = join_words ws in if w == "" then rest else if rest == "" then w else w <> " " <> rest

pub record ClassArgs : Type 0 where
  pub category : String
  pub status : String
  pub selected : Bool
  pub has_bp : Bool
  pub bp_enabled : Bool

unfoldable pub compute_node_class_name : ClassArgs → String
compute_node_class_name a = join_words (
    a.category
    ∷ (if a.selected then "selected" else "")
    ∷ (if a.status == "running" then "node-running" else "")
    ∷ (if a.status == "paused" then "node-paused" else "")
    ∷ (if a.has_bp then if a.bp_enabled then "node-bp-armed" else "node-bp-disabled" else "")
    ∷ [])

-- the key under which `styledNodes` caches a class
unfoldable pub cache_key : ClassArgs → String
cache_key a =
    let bp = if a.has_bp then if a.bp_enabled then "a" else "d" else "n" in
    concat a.category (
      concat "|"
        (concat a.status (concat "|" (concat (if a.selected then "1" else "0") (concat "|" bp)))))

-- `new Map(breakpoints.map((b) => [b.nodeId, b.enabled]))`
abbrev pub bp_map_from : Dict Bool → List Breakpoint → Dict Bool
bp_map_from m [] = m
bp_map_from m (b ∷ bs) = bp_map_from (put b.node_id b.enabled m) bs

abbrev pub is_true : Option Bool → Bool
is_true none = false
is_true (some b) = b

abbrev pub is_selected : Option String → String → Bool
is_selected none id = false
is_selected (some selected) id = id == selected

pub record Cached : Type 0 where
  pub key : String
  pub class_name : String

abbrev pub is_fresh : Option Cached → String → Bool
is_fresh none key = false
is_fresh (some c) key = c.key == key

abbrev pub class_of_cached : Option Cached → String
class_of_cached none = ""
class_of_cached (some c) = c.class_name

-- the entry that a round of the loop leaves for its node
unfoldable pub refresh : ClassArgs → String → Dict Cached → Dict Cached
unfolding compute_node_class_name cache_key
refresh a id cache =
    if is_fresh (get id cache) (cache_key a)
    then cache
    else put id (record { key = cache_key a; class_name = compute_node_class_name a }) cache

unfoldable pub prune : List String → Dict Cached → Dict Cached
prune seen cache =
    if not (eqb (length seen) (length cache))
    then filter (λ (k, c). any (λ id. id == k) seen) cache
    else cache

-- what the memo reads
pub record View (N V : Type 0) : Type 0 where
  pub nodes : List (Node N V)
  pub selected_id : Option String
  pub breakpoints : List Breakpoint

module _ {N V : Type 0} where
  abbrev pub args_of : View N V → Node N V → ClassArgs
  args_of v n =
      let bps = bp_map_from [] v.breakpoints in
      record {
        category = (look_of (category_of n.type)).css_class;
        status = status_text n.body.status;
        selected = is_selected v.selected_id n.id;
        has_bp = is_some (get n.id bps);
        bp_enabled = is_true (get n.id bps);
      }

  -- the loop: the class of each node, and the cache
  unfoldable pub style_loop : View N V → List (Node N V) → Dict Cached → List String × Dict Cached
  unfolding refresh
  style_loop v [] cache = ([], cache)
  style_loop v (n ∷ ns) cache =
      let cache' = refresh (args_of v n) n.id cache in
      let (classes, last) = style_loop v ns cache' in
      (class_of_cached (get n.id cache') ∷ classes, last)

  -- the set `seen`
  abbrev pub seen_of : List (Node N V) → List String → List String
  seen_of [] seen = seen
  seen_of (n ∷ ns) seen = seen_of ns (add n.id seen)

  unfoldable pub styled_nodes : View N V → Dict Cached → List String × Dict Cached
  unfolding style_loop prune
  styled_nodes v cache =
      let (classes, last) = style_loop v v.nodes cache in (classes, prune (seen_of v.nodes []) last)

-- an edge as it is drawn: `...e` and what is set beside it; numbers are in tenths, the opacity in
-- hundredths
pub record EdgeLook (V : Type 0) : Type 0 where
  pub edge : Edge V
  pub type : String
  pub animated : Bool
  pub class_name : Option String
  pub stroke : String
  pub stroke_width : ℕ
  pub stroke_dasharray : Option String
  pub opacity : Option ℕ
  pub marker_color : String
  pub marker_size : ℕ

unfoldable pub base_stroke : Bool → String → String
base_stroke is_cyclic data_type =
    if is_cyclic
    then "var(--edge-cyclic)"
    else if data_type == "net"
    then "var(--edge-net)"
    else if data_type == "image"
    then "var(--edge-image)"
    else if data_type == "tensor"
    then "var(--edge-tensor)"
    else if data_type == "branch"
    then "var(--edge-branch)"
    else "var(--edge-generic)"

unfoldable pub edge_look : {V : Type 0} → Bool → Bool → String → Edge V → EdgeLook V
unfolding base_stroke
edge_look is_cyclic is_running data_type e =
    let stroke = base_stroke is_cyclic data_type in
    record {
      edge = e;
      type = "smoothstep";
      animated = is_running;
      class_name = if is_cyclic then some "edge-cyclic" else none;
      stroke = stroke;
      stroke_width = if is_cyclic then 30 else if is_running then 25 else 15;
      stroke_dasharray = if is_cyclic then some "6 3" else none;
      opacity = if is_cyclic then none else if is_running then none else some 75;
      marker_color = stroke;
      marker_size = if is_running then 180 else 140;
    }

-- `e.data?.dataType ?? 'generic'` is `data_type`
module _ {V : Type 0} (data_type : V → String) where
  abbrev pub cycle_edge : Edge V → CycleEdge
  cycle_edge e = record { id = e.id; source = e.source; target = e.target }

  abbrev pub cyclic_edge_ids : List (Edge V) → List String
  cyclic_edge_ids es = elim (find_cyclic_edges (map cycle_edge es)) [ none ↦ [] | some ids ↦ ids ]

  unfoldable pub styled_edges : Bool → List (Edge V) → List (EdgeLook V)
  unfolding edge_look
  styled_edges is_running es =
      let cyclic = cyclic_edge_ids es in
      map (λ e. edge_look (any (λ id. id == e.id) cyclic) is_running (data_type e.rest) e) es
