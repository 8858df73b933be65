-- ===== src/RoutingTable/Adding.antt =====
-- What `routing_table_add` returns, and what it does to the table.
use meshias.Base.{
  ℕ, ℤ, pos, negsuc, ◌≡◌, refl, ◌∙◌, ap, Bool, true, false, Option, none, some, List, ◌∷◌,
  if◌then◌else◌,
}
use meshias.Route.{rtfind_by_dest_longest_prefix_matching}
use meshias.State.{MshData, new_ptr, route_at}
use meshias.RoutingTable
use meshias.RoutingTable.{
  routing_table_find, routing_table_add, enter_route, add_to_kernel, add_failed, make_rtnl_route,
}
use meshias.Act.{Act, pure, gets, ◌>>=◌, choose, if_found}
use meshias.Act.Keeps.{Keeps}
use meshias.Act.Leads.{Leads, Leads-bind, Leads-after, Leads-pure}
use meshias.Invariant.Key.{key_rules}
use meshias.Invariant.Keys.{
  SameKeys, SameKeys-refl, write-Same, set_lifetime-Same, process_route-Same,
}

abbrev TableIs : List ℕ → MshData → Type 0
TableIs l s = s.routing_table ≡ l

same_table :
    {A : Type 0} (m : Act MshData A)
    → ((start : MshData) → Keeps (SameKeys start) m)
    → (l : List ℕ) → Keeps (TableIs l) m
same_table m same l = record { at = λ s h. ((same s).at s (SameKeys-refl s)).table ∙ h }

links : (p : ℕ) (l : List ℕ) → Leads (TableIs l) (λ _. TableIs (p ∷ l)) (RoutingTable.list_add p)
unfolding RoutingTable.list_add
links p l = record { ends = λ s h. ap (λ (k : List ℕ). p ∷ k) h }

-- A result, and the table that it comes with.
abbrev pub outcome : ℤ × MshData → ℤ × List ℕ
outcome end = (end.0, end.1.routing_table)

abbrev outcome_of : ℤ → List ℕ → ℤ × List ℕ
outcome_of n l = (n, l)

abbrev Gives : ℤ → List ℕ → ℤ → MshData → Type 0
Gives r l n s = outcome (n, s) ≡ (r, l)

enter_route-Gives :
    (p nlroute : ℕ) (l : List ℕ) → Leads (TableIs l) (Gives (pos 0) (p ∷ l)) (enter_route p nlroute)
unfolding enter_route
enter_route-Gives p nlroute l =
    Leads-after _ _ (same_table _ (λ start. search (key_rules, write-Same)) l) λ _.
      Leads-after _ _ (same_table _ (λ start. set_lifetime-Same start p _) l) λ _.
        Leads-after _ _ (same_table _ (λ start. search (key_rules, write-Same)) l) λ _.
          Leads-bind _ _ (links p l) λ _.
            Leads-after _ _ (same_table _ (λ start. process_route-Same start p) (p ∷ l))
              λ _. Leads-pure _ λ s h. ap (λ (k : List ℕ). outcome_of (pos 0) k) h

entered :
    (failed : Bool) (p nlroute : ℕ) (s : MshData)
    → outcome (choose failed (pure (negsuc 0)) (enter_route p nlroute) s)
      ≡ (if failed then (negsuc 0, s.routing_table) else (pos 0, p ∷ s.routing_table))
unfolding choose pure
entered true p nlroute s = refl
entered false p nlroute s = (enter_route-Gives p nlroute s.routing_table).ends s refl

branches :
    (found : Option ℕ) (m : Act MshData ℤ) (s : MshData) {x : ℤ × List ℕ}
    → outcome (m s) ≡ x
    → outcome (if_found found (λ _. pure (pos 1)) m s)
      ≡ elim found [ some q ↦ (pos 1, s.routing_table) | none ↦ x ]
unfolding if_found pure
branches (some q) m s e = refl
branches none m s e = e

-- An addition returns 1 where the search finds a route to the destination, -1 where the kernel
-- refuses the route for another reason than that it has it already, and in both cases leaves the
-- table alone; in every other case it returns 0 and puts the route at the head of the table.
pub routing_table_add-result :
    (p : ℕ) (s : MshData)
    → outcome (routing_table_add p s)
      ≡ elim (routing_table_find (s.routes p) rtfind_by_dest_longest_prefix_matching s) [
        | some q ↦ (pos 1, s.routing_table)
        | none ↦
            if add_failed (s.add_results 0)
            then (negsuc 0, s.routing_table)
            else (pos 0, p ∷ s.routing_table)
      ]
unfolding routing_table_add ◌>>=◌ gets route_at new_ptr add_to_kernel
routing_table_add-result p s =
    branches (routing_table_find (s.routes p) rtfind_by_dest_longest_prefix_matching s) _ s
      (entered (add_failed (s.add_results 0)) p s.next_ptr _)
