-- ===== src/Cards/Ports.antt =====
-- The handles that the components draw are the ports of the registry.
use workflowui.Base.{◌≡◌, refl, String, Option, none, some, List, map, Memᴰ, All, All-mem}
use workflowui.Manifest.{PortDef, NodeManifestEntry, node_manifest}
use workflowui.Store.{get}
use workflowui.Cards.{CardData, Format, HandleDef, node_types}

abbrev pub port_of_handle : HandleDef → PortDef
port_of_handle h = record { id = h.id; direction = h.direction; data_type = h.data_type }

-- the ports of the component that draws a type
abbrev pub drawn_ports : {N : Type 0} → Format N → CardData N → String → Option (List PortDef)
drawn_ports {N} fmt d type = elim (get type (node_types {N = N})) [
  | none ↦ none
  | some card ↦ some (map port_of_handle (card fmt d).handles)
]

module _ {N : Type 0} (fmt : Format N) (d : CardData N) where
  all_drawn : All (λ e. drawn_ports fmt d e.type ≡ some e.ports) node_manifest
  unfolding node_types
  all_drawn = (
    refl,
    (
      refl,
      (
        refl,
        (
          refl,
          (
            refl,
            (
              refl,
              (refl, (refl, (refl, (refl, (refl, (refl, (refl, (refl, (refl, (refl, tt)))))))))),
            ),
          ),
        ),
      ),
    ),
  )

  -- Every type of the registry has a component, and whatever data the node has, the component draws
  -- handles with the names, directions and data types of the registry's ports, in their order.
  pub drawn_ports_lem :
      (e : NodeManifestEntry) → Memᴰ e node_manifest → drawn_ports fmt d e.type ≡ some e.ports
  drawn_ports_lem e m =
      All-mem (λ x. drawn_ports fmt d x.type ≡ some x.ports) node_manifest all_drawn m
