-- ===== src/Pages/Schema/Layout.antt =====
-- Where the nodes of the graph stand.
use arcops.Prelude.{ℕ, suc, ◌+◌, ◌*◌, ◌/◌, ◌%◌, ◌≤◌, ◌<◌, ◌≡◌, refl, ◌⊎◌, List, [], ◌∷◌, All, arith}
use arcops.Pages.Schema.{TableMeta}
use arcops.Pages.Schema.Graph.{Node, flow_nodes, auto_layout}

-- A node from 100 to 900.
abbrev pub IsWithin : Node → Type 0
IsWithin n = (100 ≤ n.x) × (n.x ≤ 900)

-- Two nodes that are 400 apart from left to right, or 440 from top to bottom. A node is 384 wide, and as
-- high as it has columns.
abbrev pub IsApart : Node → Node → Type 0
IsApart m n = (m.x + 400 ≤ n.x) ⊎ ((n.x + 400 ≤ m.x) ⊎ (m.y + 440 ≤ n.y))

-- Every node and every later one.
abbrev pub AreApart : List Node → Type 0
AreApart [] = Unit
AreApart (n ∷ ns) = All (IsApart n) ns × AreApart ns

-- The place that belongs to an index.
abbrev IsAt : ℕ → Node → Type 0
IsAt k n = (n.x ≡ 100 + (k % 3) * 400) × (n.y ≡ 80 + (k / 3) * 440)

abbrev placed : ℕ → Node → Node
placed k n = record n { x = 100 + (k % 3) * 400; y = 80 + (k / 3) * 440 }

place-IsApart : (i j : ℕ) (m n : Node) → i < j → IsAt i m → IsAt j n → IsApart m n
place-IsApart i j m n h f g = ground (arith, h, f, g)

auto_layout-later :
    (i k : ℕ) (m : Node) (ns : List Node) → i < k → IsAt i m → All (IsApart m) (auto_layout k ns)
unfolding auto_layout
auto_layout-later i k m [] h f = tt
auto_layout-later i k m (n ∷ ns) h f = (
  place-IsApart i k m (placed k n) h f (refl, refl),
  auto_layout-later i (suc k) m ns (omega arith) f,
)

auto_layout-AreApart_from : (k : ℕ) (ns : List Node) → AreApart (auto_layout k ns)
unfolding auto_layout
auto_layout-AreApart_from k [] = tt
auto_layout-AreApart_from k (n ∷ ns) = (
  auto_layout-later k (suc k) (placed k n) ns (omega arith) (refl, refl),
  auto_layout-AreApart_from (suc k) ns,
)

auto_layout-IsWithin_from : (k : ℕ) (ns : List Node) → All IsWithin (auto_layout k ns)
unfolding auto_layout
auto_layout-IsWithin_from k [] = tt
auto_layout-IsWithin_from k (n ∷ ns) =
    ((ground arith, ground arith), auto_layout-IsWithin_from (suc k) ns)

-- The layout puts every node from 100 to 900, and any two nodes stand 400 apart from left to right or
-- the later one 440 below.
pub auto_layout-AreApart :
    (ns : List Node) → All IsWithin (auto_layout 0 ns) × AreApart (auto_layout 0 ns)
auto_layout-AreApart ns = (auto_layout-IsWithin_from 0 ns, auto_layout-AreApart_from 0 ns)

-- Laying out the graph that was just loaded changes nothing.
auto_layout-flow_nodes_from :
    (k : ℕ) (ts : List TableMeta) → auto_layout k (flow_nodes k ts) ≡ flow_nodes k ts
unfolding auto_layout flow_nodes
auto_layout-flow_nodes_from k [] = refl
auto_layout-flow_nodes_from k (t ∷ ts) = ground (arith, auto_layout-flow_nodes_from (suc k) ts)

pub auto_layout-flow_nodes :
    (ts : List TableMeta) → auto_layout 0 (flow_nodes 0 ts) ≡ flow_nodes 0 ts
auto_layout-flow_nodes ts = auto_layout-flow_nodes_from 0 ts
