-- ===== src/Canvas/Cache.antt =====
-- The cache of node classes never shows: every render has the classes computed afresh.
use workflowui.Base.{
  ◌≡◌, refl, subst, ap, sym, ◌∙◌, String, true, some, List, [], ◌∷◌, map, All, All-filter,
  Bool-cases, inl, inr, arith, ◌==◌, eq_iff, eq_refl, if_both, if_cases, length, eqb, not,
  Option-cases, if_true,
}
use workflowui.Store.{Dict, get, put, Node}
use workflowui.Store.Index.{get-put}
use workflowui.Canvas.{
  Cached, View, ClassArgs, args_of, category_of, cache_key, compute_node_class_name, is_fresh,
  class_of_cached, refresh, style_loop, prune, seen_of, styled_nodes,
}
use workflowui.Canvas.Classes.{class_of_key, class_of_key-cache_key}

module _ {A : Type 0} (P : A → Type 0) where
  All-put :
      (k : String) (a : A) (m : Dict A) → All (λ e. P e.1) m → P a → All (λ e. P e.1) (put k a m)
  All-put k a [] h p = (p, tt)
  All-put k a ((i, b) ∷ m) h p =
      if_both (All (λ (e : String × A). P e.1)) (i == k) _ _ (p, h.1) (h.0, All-put k a m h.1 p)

  All-get : (k : String) (m : Dict A) (a : A) → All (λ e. P e.1) m → get k m ≡ some a → P a
  All-get k [] a h e = cc
  All-get k ((i, b) ∷ m) a h e = elim (Bool-cases (i == k)) [
    | inl here ↦ let same : b ≡ a = ground arith in subst P same h.0
    | inr other ↦ All-get k m a h.1 (rw other at e)
  ]

-- each entry has the class of its key
abbrev IsFaithful : Cached → Type 0
IsFaithful c = c.class_name ≡ class_of_key c.key

abbrev pub AreFaithful : Dict Cached → Type 0
AreFaithful cache = All (λ e. IsFaithful e.1) cache

module _ (a : ClassArgs) (id : String)
    (known : class_of_key (cache_key a) ≡ compute_node_class_name a) where
  abbrev Refreshed : Dict Cached → Type 0
  Refreshed cache = (class_of_cached (get id cache) ≡ compute_node_class_name a) × AreFaithful cache

  hit_lem :
      (cache : Dict Cached)
      → AreFaithful cache
      → is_fresh (get id cache) (cache_key a) ≡ true
      → Refreshed cache
  hit_lem cache h fresh = elim (Option-cases (get id cache)) [
    | inl none_there ↦ cc (rw none_there at fresh)
    | inr (c, found) ↦
        let same = (eq_iff c.key (cache_key a)).0 (rw found at fresh) in
        (rw found (All-get IsFaithful id cache c h found ∙ ap class_of_key same ∙ known), h)
  ]

  refresh_lem : (cache : Dict Cached) → AreFaithful cache → Refreshed (refresh a id cache)
  unfolding refresh
  refresh_lem cache h =
      let entry : Cached = record { key = cache_key a; class_name = compute_node_class_name a } in
      if_cases Refreshed (is_fresh (get id cache) (cache_key a)) _ _ (hit_lem cache h) (λ stale. (
        ap class_of_cached (
            get-put id id entry cache
            ∙ if_true (id == id) (some entry) (get id cache) (eq_refl id)),
        All-put IsFaithful id entry cache h (sym known),
      ))

module _ {N V : Type 0} where
  -- the classes with no cache at all
  abbrev pub fresh_classes : View N V → List (Node N V) → List String
  fresh_classes v ns = map (λ n. compute_node_class_name (args_of v n)) ns

  style_loop_lem :
      (v : View N V) (ns : List (Node N V)) (cache : Dict Cached)
      → AreFaithful cache
      → ((style_loop v ns cache).0 ≡ fresh_classes v ns) × AreFaithful (style_loop v ns cache).1
  unfolding style_loop
  style_loop_lem v [] cache h = (refl, h)
  style_loop_lem v (n ∷ ns) cache h =
      let known = class_of_key-cache_key (category_of n.type) n.body.status _ _ _ in
      let (here, h') = refresh_lem (args_of v n) n.id known cache h in
      let (rest, last) = style_loop_lem v ns (refresh (args_of v n) n.id cache) h' in
      (rw (here, rest) refl, last)

  styled_nodes_lem :
      (v : View N V) (cache : Dict Cached)
      → AreFaithful cache
      → ((styled_nodes v cache).0 ≡ fresh_classes v v.nodes) × AreFaithful (styled_nodes v cache).1
  unfolding styled_nodes prune
  styled_nodes_lem v cache h =
      let (classes, last) = style_loop_lem v v.nodes cache h in
      (
        classes,
        if_both AreFaithful
            (not (eqb (length (seen_of v.nodes [])) (length (style_loop v v.nodes cache).1))) _ _
            (All-filter (λ e. IsFaithful e.1) _ (style_loop v v.nodes cache).1 last) last,
      )

  -- one render after another, from the cache that the last has left
  unfoldable pub render_all : List (View N V) → Dict Cached → List (List String)
  unfolding styled_nodes
  render_all [] cache = []
  render_all (v ∷ vs) cache = (styled_nodes v cache).0 ∷ render_all vs (styled_nodes v cache).1

  render_all_from :
      (vs : List (View N V)) (cache : Dict Cached)
      → AreFaithful cache
      → render_all vs cache ≡ map (λ v. fresh_classes v v.nodes) vs
  unfolding render_all
  render_all_from [] cache h = refl
  render_all_from (v ∷ vs) cache h =
      let (classes, last) = styled_nodes_lem v cache h in
      rw (classes, render_all_from vs (styled_nodes v cache).1 last) refl

  -- Whatever the canvas shows in whatever order, each render gives every node the class that
  -- `computeNodeClassName` has for it then: the cache of classes, pruned or not, is never stale.
  pub render_all_lem :
      (vs : List (View N V)) → render_all vs [] ≡ map (λ v. fresh_classes v v.nodes) vs
  render_all_lem vs = render_all_from vs [] tt
