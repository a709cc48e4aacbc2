-- ===== src/Graph/Walk.antt =====
-- What the traversals are measured against: walks along stored edges, of a given length.
use rdb_memory_mcp.Base.{ℕ, zero, suc, ◌≡◌, true, ◌⊎◌, Str}
use rdb_memory_mcp.Graph.Store.{Tables, GraphEdgeRecord, HasEdge}
use rdb_memory_mcp.Graph.Edges.{Direction, goes_out, goes_in}

-- The edge leads from the first node to the second, against its own direction where the
-- traversal goes inbound.
abbrev pub Leads : Direction → Str → GraphEdgeRecord → Str → Type 0
Leads direction k e k' =
    ((goes_out direction ≡ true) × (e.edge_from ≡ k) × (e.edge_to ≡ k'))
    ⊎ ((goes_in direction ≡ true) × (e.edge_to ≡ k) × (e.edge_from ≡ k'))

-- `Walk t s dir a b n`: n stored edges of the snapshot lead from a to b.
pub data Walk (t : Tables) (snapshot : Str) (direction : Direction) (start : Str)
    : Str → ℕ → Type 0 where
  here : Walk t snapshot direction start start zero
  step :
      {k k' : Str} {n : ℕ} (e : GraphEdgeRecord)
      → Walk t snapshot direction start k n
      → HasEdge t snapshot e
      → Leads direction k e k'
      → Walk t snapshot direction start k' (suc n)
