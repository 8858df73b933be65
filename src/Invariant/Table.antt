-- ===== src/Invariant/Table.antt =====
-- The routing table holds host routes to pairwise different addresses, whatever the daemon does.
pub mod Entering
pub mod Always
use meshias.Base.{
  ℕ, ◌<◌, ◌==◌, ◌≡◌, ◌≢◌, refl, sym, ◌∙◌, Bool, true, false, none, List, [], ◌∷◌, if◌then◌else◌,
  arith, All, All-map,
}
use meshias.Route.{MshRoute}
use meshias.Route.Ops.{list_del, unlink}
use meshias.State.{MshData}
use meshias.RoutingTable
use meshias.RoutingTable.Find.{AllHost, first_to}
use meshias.Act.Keeps.{Keeps}
use meshias.Invariant.Keys.{SameKeys}

-- No route to the address in the list.
abbrev pub NoneTo : (ℕ → MshRoute) → ℕ → List ℕ → Type 0
NoneTo routes ip = All (λ p. ip ≢ (routes p).dst_ip)

abbrev pub DistinctTo : (ℕ → MshRoute) → List ℕ → Type 0
DistinctTo routes [] = Unit
DistinctTo routes (p ∷ rest) = NoneTo routes (routes p).dst_ip rest × DistinctTo routes rest

pub record TableOk (s : MshData) : Type 0 where
  pub host : AllHost s.routes s.routing_table
  pub distinct : DistinctTo s.routes s.routing_table
  pub allocated : All (λ p. p < s.next_ptr) s.routing_table

-- The route is not in the table, and its address is free: it may enter the table.
pub record Ready (p : ℕ) (s : MshData) : Type 0 where
  pub table : TableOk s
  pub host : (s.routes p).prefix_sz ≡ 0
  pub below : p < s.next_ptr
  pub none_to : NoneTo s.routes (s.routes p).dst_ip s.routing_table

-- The route was allocated, and is not in the table.
pub record Fresh (p : ℕ) (s : MshData) : Type 0 where
  pub table : TableOk s
  pub host : (s.routes p).prefix_sz ≡ 0
  pub below : p < s.next_ptr
  pub unlisted : All (λ q. q ≢ p) s.routing_table

pub NoneTo-same :
    (old new : ℕ → MshRoute) (ip : ℕ) (l : List ℕ)
    → ((q : ℕ) → (new q).dst_ip ≡ (old q).dst_ip)
    → NoneTo old ip l
    → NoneTo new ip l
NoneTo-same old new ip l e = All-map (λ q ne. λ h. ne (h ∙ e q)) l

DistinctTo-same :
    (old new : ℕ → MshRoute) (l : List ℕ)
    → ((q : ℕ) → (new q).dst_ip ≡ (old q).dst_ip)
    → DistinctTo old l
    → DistinctTo new l
DistinctTo-same old new [] e h = tt
DistinctTo-same old new (p ∷ rest) e h =
    (rw (e p) (NoneTo-same old new (old p).dst_ip rest e h.0), DistinctTo-same old new rest e h.1)

pub TableOk-same : (s t : MshData) → SameKeys s t → TableOk s → TableOk t
TableOk-same s t k h = record {
  host = rw k.table (All-map (λ q e. k.prefix_sz q ∙ e) s.routing_table h.host);
  distinct = rw k.table (DistinctTo-same s.routes t.routes s.routing_table k.dst_ip h.distinct);
  allocated = rw k.table (All-map (λ q b. omega (arith, b, k.room)) s.routing_table h.allocated);
}

pub Ready-same : (p : ℕ) (s t : MshData) → SameKeys s t → Ready p s → Ready p t
Ready-same p s t k h = record {
  table = TableOk-same s t k h.table;
  host = k.prefix_sz p ∙ h.host;
  below = omega (arith, h.below, k.room);
  none_to =
      rw (k.table, k.dst_ip p)
        (NoneTo-same s.routes t.routes (s.routes p).dst_ip s.routing_table k.dst_ip h.none_to);
}

pub Fresh-same : (p : ℕ) (s t : MshData) → SameKeys s t → Fresh p s → Fresh p t
Fresh-same p s t k h = record {
  table = TableOk-same s t k h.table;
  host = k.prefix_sz p ∙ h.host;
  below = omega (arith, h.below, k.room);
  unlisted = rw k.table h.unlisted;
}

module _ (P : ℕ → Type 0) where
  All-list_del : (p : ℕ) (l : List ℕ) → All P l → All P (list_del p l)
  unfolding list_del
  All-list_del p [] h = tt
  All-list_del p (q ∷ rest) h = ground (arith, All-list_del p rest h.1)

DistinctTo-list_del :
    (routes : ℕ → MshRoute) (p : ℕ) (l : List ℕ)
    → DistinctTo routes l
    → DistinctTo routes (list_del p l)
unfolding list_del
DistinctTo-list_del routes p [] h = tt
DistinctTo-list_del routes p (q ∷ rest) h = ground (
  arith,
  DistinctTo-list_del routes p rest h.1,
  All-list_del (λ r. (routes q).dst_ip ≢ (routes r).dst_ip) p rest h.0,
)

pub unlink-TableOk : (p : ℕ) → Keeps TableOk (unlink p)
unfolding unlink
unlink-TableOk p = record {
  at = λ s h. record {
    host = All-list_del _ p s.routing_table h.host;
    distinct = DistinctTo-list_del s.routes p s.routing_table h.distinct;
    allocated = All-list_del _ p s.routing_table h.allocated;
  };
}
