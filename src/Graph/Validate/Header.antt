-- ===== src/Graph/Validate/Header.antt =====
-- The checks of a graph before its nodes.
use dstudio.Base.{
  ℕ, ◌≤◌, ◌<◌, ◌≡◌, ◌⊎◌, refl, true, false, not, ◌&&◌, ◌||◌, [], ◌∷◌, Str, codes, is_empty, str_eq,
  eq_of_str_eq, ltb, ◌==◌, length, arith, Bool-cases, inl, inr, ok, refuse, refuse-eq-ok, >>-eq-ok,
}
use dstudio.Graph.Types.{Graph}
use dstudio.Graph.Order.{max_nodes}
use dstudio.Graph.Validate.{schema_version_1, max_edges, check_header}

-- The executor that the policy admits.
abbrev pub ModeFits : Graph → Type 0
ModeFits g =
    (is_empty g.executor_mode ≡ true)
    ⊎ ((g.executor_mode ≡ codes "synthetic") × (g.policy ≡ codes "test.synthetic.v1"))
    ⊎ ((g.executor_mode ≡ codes "native") × (g.policy ≡ codes "agent.general.v1"))

pub record HeaderIsValid (g : Graph) : Type 0 where
  pub version : g.schema_version ≡ schema_version_1
  pub some_nodes : 0 < length g.nodes
  pub few_nodes : length g.nodes ≤ max_nodes
  pub few_edges : g.edge_count ≤ max_edges
  pub one_llm : g.max_parallel_llm_nodes ≡ 1
  pub known_policy :
      (g.policy ≡ codes "agent.general.v1")
      ⊎ (g.policy ≡ codes "plan.v1")
      ⊎ (g.policy ≡ codes "test.synthetic.v1")
  pub mode_fits : ModeFits g

policy_cases :
    (p : Str)
    → (not (str_eq p (codes "agent.general.v1"))
        && not (str_eq p (codes "plan.v1"))
        && not (str_eq p (codes "test.synthetic.v1")))
      ≡ false
    → (p ≡ codes "agent.general.v1") ⊎ (p ≡ codes "plan.v1") ⊎ (p ≡ codes "test.synthetic.v1")
policy_cases p h = elim (Bool-cases (str_eq p (codes "agent.general.v1"))) [
  | inl a ↦ inl (eq_of_str_eq p _ a)
  | inr a ↦ elim (Bool-cases (str_eq p (codes "plan.v1"))) [
    | inl b ↦ inr (inl (eq_of_str_eq p _ b))
    | inr b ↦ inr (inr (eq_of_str_eq p _ (ground arith)))
  ]
]

mode_cases :
    (g : Graph)
    → (not (is_empty g.executor_mode)
        && not (str_eq g.executor_mode (codes "synthetic"))
        && not (str_eq g.executor_mode (codes "native")))
      ≡ false
    → (str_eq g.executor_mode (codes "synthetic")
        && not (str_eq g.policy (codes "test.synthetic.v1")))
      ≡ false
    → (str_eq g.executor_mode (codes "native") && not (str_eq g.policy (codes "agent.general.v1")))
      ≡ false
    → ModeFits g
mode_cases g h s n = elim (Bool-cases (is_empty g.executor_mode)) [
  | inl a ↦ inl a
  | inr a ↦ elim (Bool-cases (str_eq g.executor_mode (codes "synthetic"))) [
    | inl b ↦ inr (inl (eq_of_str_eq g.executor_mode _ b, eq_of_str_eq g.policy _ (ground arith)))
    | inr b ↦
        let native : str_eq g.executor_mode (codes "native") ≡ true = ground arith in
        inr (inr (eq_of_str_eq g.executor_mode _ native, eq_of_str_eq g.policy _ (ground arith)))
  ]
]

pub check_header_sound : (g : Graph) → check_header g ≡ ok tt → HeaderIsValid g
unfolding check_header
check_header_sound g h =
    let (h₁, k₁) = >>-eq-ok (refuse (not (g.schema_version == schema_version_1)) _) _ h in
    let (h₂, k₂) =
      >>-eq-ok
        (refuse
          (length g.nodes == 0 || ltb max_nodes (length g.nodes) || ltb max_edges g.edge_count) _)
        _ k₁ in
    let (h₃, k₃) = >>-eq-ok (refuse (not (g.max_parallel_llm_nodes == 1)) _) _ k₂ in
    let (h₄, k₄) =
      >>-eq-ok
        (refuse
          (not (str_eq g.policy (codes "agent.general.v1"))
            && not (str_eq g.policy (codes "plan.v1"))
            && not (str_eq g.policy (codes "test.synthetic.v1")))
          _)
        _ k₃ in
    let (h₅, k₅) =
      >>-eq-ok
        (refuse
          (not (is_empty g.executor_mode)
            && not (str_eq g.executor_mode (codes "synthetic"))
            && not (str_eq g.executor_mode (codes "native")))
          _)
        _ k₄ in
    let (h₆, h₇) =
      >>-eq-ok
        (refuse
          (str_eq g.executor_mode (codes "synthetic")
            && not (str_eq g.policy (codes "test.synthetic.v1")))
          _)
        _ k₅ in
    let version = refuse-eq-ok _ _ h₁ in
    let limits = refuse-eq-ok _ _ h₂ in
    let llm = refuse-eq-ok _ _ h₃ in
    record {
      version = ground arith;
      some_nodes = ground arith;
      few_nodes = ground arith;
      few_edges = ground arith;
      one_llm = ground arith;
      known_policy = policy_cases g.policy (refuse-eq-ok _ _ h₄);
      mode_fits = mode_cases g (refuse-eq-ok _ _ h₅) (refuse-eq-ok _ _ h₆) (refuse-eq-ok _ _ h₇);
    }

policy_accepted :
    (p : Str)
    → (p ≡ codes "agent.general.v1") ⊎ (p ≡ codes "plan.v1") ⊎ (p ≡ codes "test.synthetic.v1")
    → (not (str_eq p (codes "agent.general.v1"))
        && not (str_eq p (codes "plan.v1"))
        && not (str_eq p (codes "test.synthetic.v1")))
      ≡ false
unfolding str_eq
policy_accepted p (inl e) = rw e
policy_accepted p (inr (inl e)) = rw e
policy_accepted p (inr (inr e)) = rw e

empty_is_other : (s : Str) (c : ℕ) (t : Str) → is_empty s ≡ true → str_eq s (c ∷ t) ≡ false
unfolding str_eq
empty_is_other [] c t h = refl
empty_is_other (d ∷ s) c t h = cc

mode_accepted :
    (g : Graph)
    → ModeFits g
    → ((not (is_empty g.executor_mode)
          && not (str_eq g.executor_mode (codes "synthetic"))
          && not (str_eq g.executor_mode (codes "native")))
        ≡ false)
      × ((str_eq g.executor_mode (codes "synthetic")
            && not (str_eq g.policy (codes "test.synthetic.v1")))
          ≡ false)
      × ((str_eq g.executor_mode (codes "native")
            && not (str_eq g.policy (codes "agent.general.v1")))
          ≡ false)
mode_accepted g (inl e) = (
  rw e,
  rw (empty_is_other g.executor_mode b's' (codes "ynthetic") e),
  rw (empty_is_other g.executor_mode b'n' (codes "ative") e),
)
mode_accepted g (inr (inl (e, p))) = unfold str_eq in (rw e, rw (e, p), rw e)
mode_accepted g (inr (inr (e, p))) = unfold str_eq in (rw e, rw e, rw (e, p))

pub check_header_complete : (g : Graph) → HeaderIsValid g → check_header g ≡ ok tt
unfolding check_header
check_header_complete g v =
    let (known, synthetic, native) = mode_accepted g v.mode_fits in
    let version : not (g.schema_version == schema_version_1) ≡ false =
      let e = v.version in ground arith in
    let limits : (length g.nodes == 0
          || ltb max_nodes (length g.nodes)
          || ltb max_edges g.edge_count)
        ≡ false =
      let (a, b, c) = parts in ground arith in
    let llm : not (g.max_parallel_llm_nodes == 1) ≡ false = let e = v.one_llm in ground arith in
    rw (version, limits, llm, policy_accepted g.policy v.known_policy, known, synthetic, native)
      refl
  where
    parts : (0 < length g.nodes) × (length g.nodes ≤ max_nodes) × (g.edge_count ≤ max_edges)
    parts = (v.some_nodes, v.few_nodes, v.few_edges)
