-- ===== src/Graph/Validate/Exact.antt =====
-- `dtg_validate_graph` accepts exactly the well-formed graphs.
use dstudio.Base.{
  ℕ, suc, ◌+◌, ◌≡◌, ◌↔◌, refl, Bool, true, false, not, ◌&&◌, ◌||◌, some, List, [], ◌∷◌, get_elem?,
  any, any-false, any-false_of, All, All-at, arith, Outcome, ok, err, refuse, refuse-eq-ok,
  >>-eq-ok,
}
use dstudio.Graph.Types.{Mutation, Node, Graph}
use dstudio.Graph.Order.{topological_order}
use dstudio.Graph.Order.Ranked.{topological_order_iff}
use dstudio.Graph.Validate.{check_header, check_nodes, has_approval, is_external, validate_graph}
use dstudio.Graph.Validate.Header.{check_header_sound, check_header_complete}
use dstudio.Graph.Validate.Ids.{unique_of_distinct, IsDistinct-of_unique}
use dstudio.Graph.Validate.Nodes.{check_nodes_sound, check_nodes_complete}
use dstudio.Graph.Validate.Safe.{
  IsDistinct-of_pass, IsWellFormed, mutation_eq_self, mutation_eq_sound, nodes_pass, pass_at,
  safe_of_pass,
}

validate_graph-parts :
    (g : Graph) (strict : Bool)
    → validate_graph g strict ≡ ok tt
    → (check_header g ≡ ok tt)
      × (check_nodes g strict 0 g.nodes ≡ ok tt)
      × (any (λ n. is_external n && (not g.approval_required || not (has_approval g.nodes))) g.nodes
          ≡ false)
      × ((order : List ℕ) × (topological_order g ≡ ok order))
unfolding validate_graph
validate_graph-parts g strict h =
    let (h₁, k₁) = >>-eq-ok (check_header g) _ h in
    let (h₂, k₂) = >>-eq-ok (check_nodes g strict 0 g.nodes) _ k₁ in
    let (h₃, k₃) =
      >>-eq-ok
        (refuse
          (any (λ n. is_external n && (not g.approval_required || not (has_approval g.nodes)))
            g.nodes)
          _)
        _ k₂ in
    (h₁, h₂, refuse-eq-ok _ _ h₃, sorted (topological_order g) k₃)
  where
    sorted :
        {E : Type 0} (m : Outcome E (List ℕ))
        → ◌≡◌ {A = Outcome E (Unit {0})} (elim m [ ok order ↦ ok tt | err e ↦ err e ]) (ok tt)
        → (order : List ℕ) × (m ≡ ok order)
    sorted (ok order) e = (order, refl)
    sorted (err x) e = cc

validate_graph_sound :
    (g : Graph) (strict : Bool) → validate_graph g strict ≡ ok tt → IsWellFormed g strict
validate_graph_sound g strict h =
    let (header, checked, effects, sorted) = validate_graph-parts g strict h in
    let valid = check_header_sound g header in
    let passes = check_nodes_sound g strict 0 g.nodes checked in
    let unique = unique_of_distinct g.nodes (IsDistinct-of_pass g strict 0 g.nodes passes) in
    record {
      header = valid;
      unique = unique;
      acyclic = (topological_order_iff g unique valid.some_nodes valid.few_nodes).0 sorted;
      safe = λ i n e.
          let (later, p) = pass_at g strict 0 g.nodes i n passes e in
          let shift : 0 + i ≡ i = omega arith in safe_of_pass g strict i n later e (rw shift at p);
      approved = λ i n e external.
          let each =
            All-at _ g.nodes i n
              (any-false
                (λ m. is_external m && (not g.approval_required || not (has_approval g.nodes)))
                g.nodes effects)
              e in
          let acts : is_external n ≡ true =
            rw external (mutation_eq_self Mutation.external_side_effect) in
          (ground arith, ground arith);
    }

All-of {κ} :
    {A : Type 0} (P : A → Type κ) (xs : List A)
    → ((i : ℕ) (x : A) → get_elem? xs i ≡ some x → P x)
    → All P xs
All-of P [] f = tt
All-of P (x ∷ xs) f = (f 0 x refl, All-of P xs (λ i y e. f (suc i) y e))

validate_graph_complete :
    (g : Graph) (strict : Bool) → IsWellFormed g strict → validate_graph g strict ≡ ok tt
unfolding validate_graph
validate_graph_complete g strict w =
    let v = w.header in
    let passes =
      nodes_pass g strict w 0 g.nodes (λ j n e. let shift : 0 + j ≡ j = omega arith in rw shift e)
        (IsDistinct-of_unique g.nodes w.unique) in
    let effects =
      any-false_of (λ n. is_external n && (not g.approval_required || not (has_approval g.nodes)))
        g.nodes (All-of _ g.nodes (λ i n e. quiet i n e (is_external n) refl)) in
    let (order, sorted) = (topological_order_iff g w.unique v.some_nodes v.few_nodes).1 w.acyclic in
    rw (check_header_complete g v, check_nodes_complete g strict 0 g.nodes passes, effects, sorted)
      refl
  where
    quiet :
        (i : ℕ) (n : Node)
        → get_elem? g.nodes i ≡ some n
        → (b : Bool) → is_external n ≡ b
        → (is_external n && (not g.approval_required || not (has_approval g.nodes))) ≡ false
    quiet i n e false h = rw h
    quiet i n e true h =
        let (required, there) =
          w.approved i n e (mutation_eq_sound n.mutation Mutation.external_side_effect h) in
        rw (h, required, there)

-- Validation accepts a graph exactly when it is well formed: a valid header, distinct ids,
-- dependencies that name nodes and form no cycle, safe retries, attempts, capabilities and output
-- paths, under strictness a gate downstream of each workspace writer, and external side effects
-- only under graph approval and with an approval node.
pub validate_graph_iff :
    (g : Graph) (strict : Bool) → (validate_graph g strict ≡ ok tt) ↔ IsWellFormed g strict
validate_graph_iff g strict = (validate_graph_sound g strict, validate_graph_complete g strict)
