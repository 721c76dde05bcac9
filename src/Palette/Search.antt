-- ===== src/Palette/Search.antt =====
-- What the palette shows during a search.
use mathlib.Core.List.{append-nil}
use workflowui.Base.{
  Bool, true, false, All, append_one, ◌≡◌, refl, ap, sym, ◌∙◌, subst, String, true, none, List, [],
  ◌∷◌, ◌++◌, if◌then◌else◌, filter, arith, Bool-cases, inl, inr,
}
use workflowui.Manifest.{NodeCategory, input, inference, output, control, debug}
use workflowui.Palette.{
  NodeTypeInfo, Palette, Section, Groups, same_category, or_empty, push, group_from,
  group_by_category, cards, category_order, visible, is_searching, is_collapsed, add_section,
  sections_from, sections,
}

-- the cards of all sections, in the order of the page
abbrev pub shown : List Section → List NodeTypeInfo
shown [] = []
shown (s ∷ ss) = cards s ++ shown ss

abbrev pub of_category : List NodeTypeInfo → NodeCategory → List NodeTypeInfo
of_category list c = filter (λ nt. same_category nt.category c) list

abbrev by_category : List NodeTypeInfo → List NodeCategory → List NodeTypeInfo
by_category list [] = []
by_category list (c ∷ cs) = of_category list c ++ by_category list cs

group_from_lem :
    (c : NodeCategory) (list : List NodeTypeInfo) (g : Groups)
    → or_empty (group_from g list c) ≡ or_empty (g c) ++ of_category list c
group_from_lem c [] g = sym (append-nil (or_empty (g c)))
group_from_lem c (nt ∷ list) g =
    group_from_lem c list (push nt g) ∙ elim (Bool-cases (same_category nt.category c)) [
      | inl same ↦ rw (same) (append_one (or_empty (g c)) nt (of_category list c))
      | inr other ↦ rw other refl
    ]

filter-append :
    {A : Type 0} (p : A → Bool) (xs ys : List A) → filter p (xs ++ ys) ≡ filter p xs ++ filter p ys
filter-append p [] ys = refl
filter-append p (x ∷ xs) ys = ground (arith, filter-append p xs ys)

same_category_eq : (a b : NodeCategory) → same_category a b ≡ true → a ≡ b
same_category_eq input input h = refl
same_category_eq inference inference h = refl
same_category_eq output output h = refl
same_category_eq control control h = refl
same_category_eq debug debug h = refl
same_category_eq _ _ h = cc

of_category_same :
    (c : NodeCategory) (list : List NodeTypeInfo)
    → of_category (of_category list c) c ≡ of_category list c
of_category_same c [] = refl
of_category_same c (nt ∷ list) = ground (arith, of_category_same c list)

of_category_other :
    (d c : NodeCategory) (list : List NodeTypeInfo)
    → same_category d c ≡ false
    → of_category (of_category list d) c ≡ []
of_category_other d c [] h = refl
of_category_other d c (nt ∷ list) h = elim (Bool-cases (same_category nt.category d)) [
  | inl same ↦
      let other : same_category nt.category c ≡ false =
        ap (λ (x : NodeCategory). same_category x c) (same_category_eq nt.category d same) ∙ h in
      rw (same, other) (of_category_other d c list h)
  | inr differs ↦ rw differs (of_category_other d c list h)
]

-- what is left of the cards of the listed categories for `c`
picks : NodeCategory → List NodeCategory → List NodeTypeInfo → List NodeTypeInfo
picks c [] own = []
picks c (d ∷ cs) own = (if same_category d c then own else []) ++ picks c cs own

of_category-by_category :
    (c : NodeCategory) (list : List NodeTypeInfo) (cs : List NodeCategory)
    → of_category (by_category list cs) c ≡ picks c cs (of_category list c)
unfolding picks
of_category-by_category c list [] = refl
of_category-by_category c list (d ∷ cs) =
    filter-append (λ (nt : NodeTypeInfo). same_category nt.category c) (of_category list d) _
    ∙ elim (Bool-cases (same_category d c)) [
      | inl same ↦
          let own : of_category (of_category list d) c ≡ of_category list c =
            subst (λ x. of_category (of_category list x) c ≡ of_category list c)
              (sym (same_category_eq d c same)) (of_category_same c list) in
          rw (same, of_category-by_category c list cs, own) refl
      | inr other ↦
          rw (other, of_category-by_category c list cs, of_category_other d c list other) refl
    ]

picks_once : (c : NodeCategory) (own : List NodeTypeInfo) → picks c category_order own ≡ own
unfolding picks
picks_once input own = append-nil own
picks_once inference own = append-nil own
picks_once output own = append-nil own
picks_once control own = append-nil own
picks_once debug own = append-nil own

-- the cards under a heading are of its category
abbrev pub IsSorted : Section → Type 0
IsSorted s = All (λ nt. same_category nt.category s.category ≡ true) s.items

of_category_pure :
    (c : NodeCategory) (list : List NodeTypeInfo)
    → All (λ nt. same_category nt.category c ≡ true) (of_category list c)
of_category_pure c [] = tt
of_category_pure c (nt ∷ list) = elim (Bool-cases (same_category nt.category c)) [
  | inl same ↦ rw same (same, of_category_pure c list)
  | inr other ↦ rw other (of_category_pure c list)
]

module _ (trim lower : String → String) (p : Palette)
    (searching : is_searching trim lower p.query ≡ true) where
  add_section_lem :
      (c : NodeCategory) (items : List NodeTypeInfo) (rest : List Section)
      → shown (add_section trim lower p c items rest) ≡ items ++ shown rest
  unfolding is_collapsed
  add_section_lem c [] rest = refl
  add_section_lem c (nt ∷ nts) rest = rw searching refl

  shown-sections_from :
      (g : Groups) (list : List NodeTypeInfo) (keys : List NodeCategory)
      → ((c : NodeCategory) → or_empty (g c) ≡ of_category list c)
      → shown (sections_from trim lower p g keys) ≡ by_category list keys
  unfolding sections_from is_collapsed
  shown-sections_from g list [] h = refl
  shown-sections_from g list (c ∷ keys) h =
      add_section_lem c (or_empty (g c)) (sections_from trim lower p g keys)
      ∙ rw (h c, shown-sections_from g list keys h) refl

  add_section-IsSorted :
      (c : NodeCategory) (items : List NodeTypeInfo) (rest : List Section)
      → All (λ nt. same_category nt.category c ≡ true) items
      → All IsSorted rest
      → All IsSorted (add_section trim lower p c items rest)
  add_section-IsSorted c [] rest own h = h
  add_section-IsSorted c (nt ∷ nts) rest own h = (own, h)

  sections_from-IsSorted :
      (g : Groups) (list : List NodeTypeInfo) (keys : List NodeCategory)
      → ((c : NodeCategory) → or_empty (g c) ≡ of_category list c)
      → All IsSorted (sections_from trim lower p g keys)
  unfolding sections_from
  sections_from-IsSorted g list [] h = tt
  sections_from-IsSorted g list (c ∷ keys) h =
      add_section-IsSorted c (or_empty (g c)) (sections_from trim lower p g keys)
        (subst (All (λ nt. same_category nt.category c ≡ true)) (sym (h c))
          (of_category_pure c list))
        (sections_from-IsSorted g list keys h)

  -- While a search is on, whatever categories have been collapsed, the cards of a category that the
  -- palette shows are the matching node types of that category, each as often as it is listed and in
  -- the order of the list, and every card stands under the heading of its category.
  pub sections_searching :
      (list : List NodeTypeInfo) (c : NodeCategory)
      → (of_category (shown (sections trim lower list p)) c
          ≡ of_category (visible trim lower list p.query) c)
        × All IsSorted (sections trim lower list p)
  unfolding sections group_by_category
  sections_searching list c =
      let found = visible trim lower list p.query in
      let grouped : (d : NodeCategory)
          → or_empty (group_by_category found d) ≡ of_category found d =
        λ d. group_from_lem d found (λ d. none) in
      (
        ap (λ cards. of_category cards c)
              (shown-sections_from (group_by_category found) found category_order grouped)
            ∙ of_category-by_category c found category_order
            ∙ picks_once c (of_category found c),
        sections_from-IsSorted (group_by_category found) found category_order grouped,
      )
