-- ===== src/Cycles/Progress.antt =====
-- While the search reports nothing, every hop that a frame has passed leads to a finished node or to
-- the node above it, and no endless walk starts at a finished node.
use mathlib.Core.List.Memᴰ
use mathlib.Core.WellFounded.{Acc}
use workflowui.Base.{
  ◌≡◌, ◌≢◌, refl, sym, ◌∙◌, subst, inl, inr, ◌⊎◌, String, Option, none, some, List, [], ◌∷◌, Memᴰ,
  arith, ◌==◌, Bool-cases,
}
use workflowui.Cycles.{
  Hop, Colour, gray, black, Frame, Search, Adjacency, paint, mark, add_incoming, add, follow,
  advance, start, fresh,
}
use workflowui.Cycles.Loop.{Colour-cases, Keeps}
use workflowui.Cycles.Sound.{paint-cases}
use workflowui.Cycles.Acyclic.{add-ne-nil, Follows}

add_incoming-ne-nil : (o : Option String) (xs : List String) → xs ≢ [] → add_incoming o xs ≢ []
unfolding add_incoming
add_incoming-ne-nil none xs h = h
add_incoming-ne-nil (some id) xs h = elim (Bool-cases (id == "")) [
  | inl empty ↦ rw empty h
  | inr named ↦ rw named (add-ne-nil id xs)
]

mark-ne-nil :
    (target : String) (fs : List Frame) (xs : List String) → xs ≢ [] → mark target fs xs ≢ []
unfolding mark
mark-ne-nil target [] xs h = h
mark-ne-nil target (f ∷ fs) xs h = elim (Bool-cases (f.node == target)) [
  | inl found ↦ rw found h
  | inr other ↦
      rw other
        (mark-ne-nil target fs (add_incoming f.incoming xs) (add_incoming-ne-nil f.incoming xs h))
]

abbrev pub IsChild : String → Option String → Type 0
IsChild t none = ⊥
IsChild t (some n) = t ≡ n

module _ (adj : Adjacency) where
  abbrev pub Passed : (String → Colour) → Option String → Frame → Type 0
  Passed c child f =
      (h : Hop)
      → Memᴰ h (adj f.node)
      → Memᴰ h f.rest ⊎ ((c h.target ≡ black) ⊎ IsChild h.target child)

  abbrev pub Progress : (String → Colour) → Option String → List Frame → Type 0
  Progress c child [] = Unit
  Progress c child (f ∷ fs) = Passed c child f × Progress c (some f.node) fs

  pub record Clear (s : Search) : Type 0 where
    pub ended : (n : String) → s.colour n ≡ black → Acc (Follows adj) n
    pub frames : Progress s.colour none s.stack

  abbrev pub IsClear : Search → Type 0
  IsClear s = s.cyclic ≡ [] → Clear s

  Passed-mono :
      (c d : String → Colour) (child child' : Option String) (f : Frame)
      → ((t : String) → c t ≡ black → d t ≡ black)
      → ((t : String) → IsChild t child → (d t ≡ black) ⊎ IsChild t child')
      → Passed c child f
      → Passed d child' f
  Passed-mono c d child child' f keep move p h m = elim (p h m) [
    | inl left ↦ inl left
    | inr (inl done) ↦ inr (inl (keep h.target done))
    | inr (inr above) ↦ inr (move h.target above)
  ]

  Progress-mono :
      (c d : String → Colour) (child child' : Option String) (fs : List Frame)
      → ((t : String) → c t ≡ black → d t ≡ black)
      → ((t : String) → IsChild t child → (d t ≡ black) ⊎ IsChild t child')
      → Progress c child fs
      → Progress d child' fs
  Progress-mono c d child child' [] keep move p = tt
  Progress-mono c d child child' (f ∷ fs) keep move p = (
    Passed-mono c d child child' f keep move p.0,
    Progress-mono c d (some f.node) (some f.node) fs keep (λ t e. inr e) p.1,
  )

  pub paint_keeps :
      (m : String) (col : Colour) (c : String → Colour)
      → (c m ≢ black) ⊎ (col ≡ black)
      → (t : String) → c t ≡ black
      → paint m col c t ≡ black
  paint_keeps m col c ok t h = elim (paint-cases m t col c) [
    | inl (same, p) ↦ elim ok [
      | inl fresh ↦ absurd (fresh (subst (λ k. c k ≡ black) (sym same) h))
      | inr dark ↦ p ∙ dark
    ]
    | inr (other, p) ↦ p ∙ h
  ]

  pub painted_self :
      (m t : String) (col : Colour) (c : String → Colour) → m ≡ t → paint m col c t ≡ col
  painted_self m t col c e = elim (paint-cases m t col c) [
    | inl (same, p) ↦ p
    | inr (other, p) ↦ absurd (other e)
  ]

  -- the top frame is done: its node is finished
  pop-Clear :
      (f : Frame) (fs : List Frame) (s : Search)
      → f.rest ≡ []
      → s.stack ≡ f ∷ fs
      → Clear s
      → Clear (advance adj f [] fs s)
  unfolding advance
  pop-Clear f fs s left top v =
      let dark = paint f.node black s.colour in
      let keep = paint_keeps f.node black s.colour (inr refl) in
      let here = subst (Progress s.colour none) top v.frames in
      let finished : Acc (Follows adj) f.node = Acc.intro f.node (λ m (h, i, e). elim (here.0 h i) [
        | inl more ↦ absurd (Memᴰ.not-nil (subst (Memᴰ h) left more))
        | inr (inl done) ↦ subst (Acc (Follows adj)) e (v.ended h.target done)
        | inr (inr above) ↦ absurd above
      ]) in
      record {
        ended = λ n h. elim (paint-cases f.node n black s.colour) [
          | inl (same, p) ↦ subst (Acc (Follows adj)) same finished
          | inr (other, p) ↦ v.ended n (sym p ∙ h)
        ];
        frames =
            Progress-mono s.colour dark (some f.node) none fs keep
              (λ t e. inl (painted_self f.node t black s.colour (sym e))) here.1;
      }

  module _ (f : Frame) (hop : Hop) (rest : List Hop) (fs : List Frame) (s : Search)
      (top : s.stack ≡ f ∷ fs) (left : f.rest ≡ hop ∷ rest) (v : Clear s) where
    abbrev moved : Frame
    moved = record f { rest = rest }

    before : Progress s.colour none (f ∷ fs)
    before = subst (Progress s.colour none) top v.frames

    -- the hop just taken leads to a finished node, or to the new top
    moved-Passed :
        (c : String → Colour) (child : Option String)
        → ((t : String) → s.colour t ≡ black → c t ≡ black)
        → (c hop.target ≡ black) ⊎ IsChild hop.target child
        → Passed c child moved
    moved-Passed c child keep taken h i = elim (before.0 h i) [
      | inl waiting ↦ elim (Memᴰ.cases_cons (subst (Memᴰ h) left waiting)) [
        | inl now ↦
            inr (subst (λ (x : Hop). (c x.target ≡ black) ⊎ IsChild x.target child) (sym now) taken)
        | inr later ↦ inl later
      ]
      | inr (inl done) ↦ inr (inl (keep h.target done))
      | inr (inr above) ↦ absurd above
    ]

    follow-IsClear : IsClear (follow adj hop (moved ∷ fs) s)
    unfolding follow
    follow-IsClear = elim (Colour-cases (s.colour hop.target)) [
      | inl done ↦
          rw (done, follow)
            (λ clear. record {
              ended = v.ended;
              frames = (moved-Passed s.colour none (λ t e. e) (inl done), before.1);
            })
      | inr (inl on) ↦
          rw (on, follow)
            (λ clear. absurd (
              mark-ne-nil hop.target (moved ∷ fs) (add hop.edge_id s.cyclic)
                (add-ne-nil hop.edge_id s.cyclic) clear))
      | inr (inr new) ↦
          let keep = paint_keeps hop.target gray s.colour (inl (λ e. cc (e, new))) in
          rw (new, follow)
            (λ clear. record {
              ended = λ n h. elim (paint-cases hop.target n gray s.colour) [
                | inl (same, p) ↦ absurd (cc (p, h))
                | inr (other, p) ↦ v.ended n (sym p ∙ h)
              ];
              frames = (
                λ h i. inl i,
                (
                  moved-Passed (paint hop.target gray s.colour) (some hop.target) keep (inr refl),
                  Progress-mono s.colour (paint hop.target gray s.colour) (some f.node)
                      (some f.node) fs keep (λ t e. inr e) before.1,
                ),
              );
            })
    ]

  cyclic-follow :
      (hop : Hop) (stack : List Frame) (s : Search)
      → (follow adj hop stack s).cyclic ≡ []
      → s.cyclic ≡ []
  unfolding follow
  cyclic-follow hop stack s h = elim (Colour-cases (s.colour hop.target)) [
    | inl done ↦ rw (done, follow) at h
    | inr (inl on) ↦ absurd (
        mark-ne-nil hop.target stack (add hop.edge_id s.cyclic) (add-ne-nil hop.edge_id s.cyclic)
          (rw (on, follow) at h))
    | inr (inr new) ↦ rw (new, follow) at h
  ]

  rest-IsClear :
      (f : Frame) (rest : List Hop) (fs : List Frame) (s : Search)
      → f.rest ≡ rest
      → s.stack ≡ f ∷ fs
      → IsClear s
      → IsClear (advance adj f rest fs s)
  unfolding advance
  rest-IsClear f [] fs s left top v h = pop-Clear f fs s left top (v h)
  rest-IsClear f (hop ∷ rest) fs s left top v h =
      follow-IsClear f hop rest fs s top left
        (v (cyclic-follow hop (record f { rest = rest } ∷ fs) s h)) h

  pub advance-IsClear : Keeps adj IsClear
  advance-IsClear f fs s top v = rest-IsClear f f.rest fs s refl top v

  pub start-IsClear :
      (n : String) (s : Search)
      → s.stack ≡ []
      → s.colour n ≢ black
      → IsClear s
      → IsClear (start adj n s)
  unfolding start
  start-IsClear n s empty new v h = record {
    ended = λ m b. elim (paint-cases n m gray s.colour) [
      | inl (same, p) ↦ absurd (cc (p, b))
      | inr (other, p) ↦ (v h).ended m (sym p ∙ b)
    ];
    frames = (λ x i. inl i, tt);
  }

  pub cyclic-advance :
      (f : Frame) (rest : List Hop) (fs : List Frame) (s : Search)
      → (advance adj f rest fs s).cyclic ≡ []
      → s.cyclic ≡ []
  unfolding advance
  cyclic-advance f [] fs s h = h
  cyclic-advance f (hop ∷ rest) fs s h = cyclic-follow hop (record f { rest = rest } ∷ fs) s h

  pub fresh-IsClear : (loops : List String) → IsClear (fresh loops)
  fresh-IsClear loops h = record { ended = λ n b. absurd (ground arith); frames = tt }
