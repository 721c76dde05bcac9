-- ===== src/Manifest/Lookup.antt =====
-- The registries derived from the manifest agree with it.
use mathlib.Core.Option
use workflowui.Base.{
  String, ◌≡◌, ◌≢◌, refl, sym, ap, ◌∙◌, subst, inl, inr, some, List, [], ◌∷◌, map, Memᴰ, arith,
  eq_iff, ◌==◌, All, All-mem, Bool-cases, Option-cases, eq_false_of_ne,
}
use workflowui.Manifest.{
  NodeManifestEntry, node_manifest, from_entries, get_manifest_entry, node_ports,
}

module _ {ℓ κ} {A : Type ℓ} {V : Type κ} (key : A → String) (value : A → V) where
  from_entries-mem :
      (k : String) (es : List A) {v : V}
      → from_entries (map (λ e. (key e, value e)) es) k ≡ some v
      → (e : A) × Memᴰ e es × (key e ≡ k) × (value e ≡ v)
  unfolding from_entries
  from_entries-mem k [] h = cc
  from_entries-mem k (e ∷ es) {v} h =
      elim (Option-cases (from_entries (map (λ e. (key e, value e)) es) k)) [
        | inl missing ↦ elim (Bool-cases (key e == k)) [
          | inl same ↦ (e, Memᴰ.head refl, (eq_iff _ _).0 same, ground arith)
          | inr other ↦ absurd (ground arith)
        ]
        | inr (w, found) ↦
            let (x, m, p, q) = from_entries-mem k es {v = w} found in
            (x, Memᴰ.tail m, p, ground arith)
      ]

  from_entries-map {μ} :
      {W : Type μ} (f : V → W) (k : String) (es : List A)
      → from_entries (map (λ e. (key e, f (value e))) es) k
        ≡ Option.map f (from_entries (map (λ e. (key e, value e)) es) k)
  unfolding from_entries
  from_entries-map f k [] = refl
  from_entries-map f k (e ∷ es) = ground (arith, from_entries-map f k es)

-- `getManifestEntry` returns an entry of the manifest that has the type asked for.
pub get_manifest_entry_sound :
    (type : String) (e : NodeManifestEntry)
    → get_manifest_entry (some type) ≡ some e
    → Memᴰ e node_manifest × (e.type ≡ type)
unfolding get_manifest_entry
get_manifest_entry_sound type e h = elim (Bool-cases (type == "")) [
  | inl empty ↦ absurd (ground arith)
  | inr other ↦
      let (x, m, p, q) =
        from_entries-mem NodeManifestEntry.type (λ e. e) type node_manifest (rw other at h) in
      (subst (λ y. Memᴰ y node_manifest) q m, sym (ap NodeManifestEntry.type q) ∙ p)
]

all_found : All (λ e. get_manifest_entry (some e.type) ≡ some e) node_manifest
unfolding get_manifest_entry
all_found = (
  refl,
  (
    refl,
    (
      refl,
      (
        refl,
        (
          refl,
          (
            refl,
            (refl, (refl, (refl, (refl, (refl, (refl, (refl, (refl, (refl, (refl, tt)))))))))),
          ),
        ),
      ),
    ),
  ),
)

-- Every entry of the manifest is found under its type: no type is declared twice or empty.
pub get_manifest_entry_complete :
    (e : NodeManifestEntry) → Memᴰ e node_manifest → get_manifest_entry (some e.type) ≡ some e
get_manifest_entry_complete e m =
    All-mem (λ x. get_manifest_entry (some x.type) ≡ some x) node_manifest all_found m

-- The port table has, for every nonempty type, the ports of the type's manifest entry, and nothing
-- where there is no entry.
pub node_ports-get_manifest_entry :
    (type : String)
    → type ≢ ""
    → node_ports type ≡ Option.map NodeManifestEntry.ports (get_manifest_entry (some type))
unfolding node_ports get_manifest_entry
node_ports-get_manifest_entry type h =
    rw (eq_false_of_ne type "" h)
      (from_entries-map NodeManifestEntry.type (λ e. e) NodeManifestEntry.ports type node_manifest)
