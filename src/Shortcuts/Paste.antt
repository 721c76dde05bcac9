-- ===== src/Shortcuts/Paste.antt =====
-- What a paste does to the graph.
use mathlib.Core.List.{map-append}
use workflowui.Base.{
  ◌≡◌, ◌∙◌, refl, String, Bool, true, Option, none, some, List, [], ◌∷◌, ◌++◌, map,
  mem-append_right, Memᴰ, ◌==◌, if_both,
}
use workflowui.Store.{
  NodeData, Node, WorkflowState, generate_node_id, update_node_data, add_node, set_selected_node,
  update_body,
}
use workflowui.Runner.{truthy}
use workflowui.Shortcuts.{paste_as, unmark, pasted, handle_legacy_paste}

module _ {N V : Type 0} where
  abbrev pub BodyFree : {B : Type 0} → (Node N V → B) → Type 0
  BodyFree f = (m : Node N V) (b : NodeData N V) → f (record m { body = b }) ≡ f m

  map-update_body :
      {B : Type 0} (f : Node N V → B) (id : String) (g : NodeData N V → NodeData N V)
      (ns : List (Node N V))
      → BodyFree f
      → map f (map (update_body id g) ns) ≡ map f ns
  map-update_body f id g [] free = refl
  map-update_body f id g (n ∷ ns) free =
      rw
        (
          if_both (λ m. f m ≡ f n) (n.id == id) _ _ (free n (g n.body)) refl,
          map-update_body f id g ns free,
        )
        refl

  unmark-map :
      {B : Type 0} (f : Node N V → B) (of_bool : Bool → V) (o : Option String)
      (s : WorkflowState N V)
      → BodyFree f
      → map f (unmark of_bool o s).nodes ≡ map f s.nodes
  unfolding update_node_data
  unmark-map f of_bool none s free = refl
  unmark-map f of_bool (some id) s free = map-update_body f id _ s.nodes free

  unmark-edges :
      (of_bool : Bool → V) (o : Option String) (s : WorkflowState N V)
      → (unmark of_bool o s).edges ≡ s.edges
  unfolding update_node_data
  unmark-edges of_bool none s = refl
  unmark-edges of_bool (some id) s = refl

  -- the graph before a paste of `n` under `id` and after it
  pub record IsPasted (n : Node N V) (id : String) (s t : WorkflowState N V) : Type 0 where
    pub chosen : t.selected_node_id ≡ some id
    pub shown : Memᴰ n t.nodes
    pub names : map Node.id t.nodes ≡ map Node.id s.nodes ++ id ∷ []
    pub marks : map Node.selected t.nodes ≡ map Node.selected s.nodes ++ some true ∷ []
    pub edges : t.edges ≡ s.edges

  paste_as_lem :
      (of_bool : Bool → V) (add_50 : N → N) (n : Node N V) (s s' : WorkflowState N V) (id : String)
      → s'.nodes ≡ s.nodes
      → s'.edges ≡ s.edges
      → IsPasted (pasted add_50 id n) id s (paste_as of_bool add_50 n s.selected_node_id (s', id))
  unfolding paste_as add_node set_selected_node
  paste_as_lem of_bool add_50 n s s' id nodes edges =
      let o = truthy s.selected_node_id in
      record {
        chosen = refl;
        shown = mem-append_right (unmark of_bool o s').nodes _ (Memᴰ.head refl);
        names = rw (map-append, unmark-map Node.id of_bool o s' (λ m b. refl), nodes) refl;
        marks = rw (map-append, unmark-map Node.selected of_bool o s' (λ m b. refl), nodes) refl;
        edges = unmark-edges of_bool o s' ∙ edges;
      }

  -- A paste adds one node at the end: the copied node under the next name, moved and marked as
  -- selected, and it becomes the store's selected node. The edges stay, and so do the names and the
  -- canvas marks of the nodes that were there, that of the node selected before included.
  pub handle_legacy_paste_lem :
      (of_bool : Bool → V) (add_50 : N → N) (n : Node N V) (s : WorkflowState N V)
      → let id = (generate_node_id s).1 in
        IsPasted (pasted add_50 id n) id s (handle_legacy_paste of_bool add_50 (some n) s)
  unfolding handle_legacy_paste generate_node_id
  handle_legacy_paste_lem of_bool add_50 n s =
      paste_as_lem of_bool add_50 n s (generate_node_id s).0 (generate_node_id s).1 refl refl
