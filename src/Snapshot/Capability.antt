-- ===== src/Snapshot/Capability.antt =====
-- `capability_warnings`: one warning for each capability that is not fully supported, then the
-- limitations that the adapter states.
use rdb_memory_mcp.Base.{List, [], ◌∷◌, ◌++◌, Str, codes}
use rdb_memory_mcp.Snapshot.Objects.{
  AdapterCapabilities, CapabilitySupport, supported, partial_support, unsupported, unknown,
}

-- `push_capability_warning`, on the vector that it pushes to.
unfoldable pub push_capability_warning : List Str → Str → Str → CapabilitySupport → List Str
push_capability_warning warnings source capability supported = warnings
push_capability_warning warnings source capability partial_support =
    warnings
    ++ (capability ++ (codes " is partially tracked by the " ++ (source ++ codes " adapter."))) ∷ []
push_capability_warning warnings source capability unsupported =
    warnings
    ++ (capability ++ (codes " is not tracked by the " ++ (source ++ codes " adapter."))) ∷ []
push_capability_warning warnings source capability unknown =
    warnings
    ++ (capability ++ (codes " support is unknown for the " ++ (source ++ codes " adapter."))) ∷ []

unfoldable pub capability_warnings : AdapterCapabilities → List Str
capability_warnings c =
    let w₁ = push_capability_warning [] c.source_kind (codes "view dependency metadata") c.views in
    let w₂ =
      push_capability_warning w₁ c.source_kind (codes "trigger dependency metadata") c.triggers in
    let w₃ =
      push_capability_warning w₂ c.source_kind (codes "routine dependency metadata") c.routines in
    let w₄ =
      push_capability_warning w₃ c.source_kind (codes "cross-object dependency metadata")
        c.dependencies in
    w₄ ++ c.limitations
