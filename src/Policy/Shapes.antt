-- ===== src/Policy/Shapes.antt =====
-- What an action may touch by its mutation class and its capabilities, and what the policies of an agent and of a fixed shape leave it.
use dstudio.Base.{
  ℕ, suc, ◌≡◌, refl, Bool, true, false, not, ◌&&◌, ◌||◌, List, [], ◌∷◌, Str, codes, str_eq,
  eq_of_str_eq, ◌==◌, length, All, arith, ok, refuse, refuse-eq-ok, >>-eq-ok,
}
use dstudio.Graph.Types.{Mutation, Node, Graph}
use dstudio.Graph.Errors.{
  goal_without_evidence, prompt_without_text, evidence_without_marker, read_only_write_capability,
  writer_without_capability,
}
use dstudio.Graph.Kinds.{mutation_eq}
use dstudio.Policy.Actions.{
  is_agent_action, node_has_only_capability, node_has_capability, is_only, check_capabilities,
  agent_policy,
}

-- The capabilities that leave the workspace as it is.
abbrev pub is_reading : Str → Bool
is_reading c =
    str_eq c (codes "filesystem.read")
    || str_eq c (codes "git.read")
    || str_eq c (codes "artifact.register")

abbrev pub is_outward : Str → Bool
is_outward c = str_eq c (codes "network") || str_eq c (codes "browser")

-- A capability fits the mutation class: a reader only reads, and only an external side effect
-- reaches the network.
abbrev pub Fits : Mutation → Str → Type 0
Fits m c =
    (m ≡ Mutation.read_only → is_reading c ≡ true)
    × (mutation_eq m Mutation.external_side_effect ≡ false → is_outward c ≡ false)

check_capabilities_fit :
    (n : Node) (caps : List Str) → check_capabilities n caps ≡ ok tt → All (Fits n.mutation) caps
unfolding check_capabilities
check_capabilities_fit n [] h = tt
check_capabilities_fit n (c ∷ caps) h =
    let (h₁, k₁) =
      >>-eq-ok (refuse (mutation_eq n.mutation Mutation.read_only && _ && _ && _) _) _ h in
    let (h₂, k₂) =
      >>-eq-ok (refuse (not (mutation_eq n.mutation Mutation.external_side_effect) && _) _) _ k₁ in
    let reads = refuse-eq-ok _ _ h₁ in
    let inward = refuse-eq-ok _ _ h₂ in
    (
      (
        λ e.
            let same : mutation_eq n.mutation Mutation.read_only ≡ true =
              unfold mutation_eq in rw e in
            ground arith,
        λ e. ground arith,
      ),
      check_capabilities_fit n caps k₂,
    )

caps_of_only : (caps : List Str) (c : Str) → is_only caps c ≡ true → caps ≡ c ∷ []
caps_of_only [] c h = cc
caps_of_only (d ∷ []) c h = let same = eq_of_str_eq d c h in rw same
caps_of_only (d ∷ e ∷ caps) c h = cc

pub mutation_eq_sound : (a b : Mutation) → mutation_eq a b ≡ true → a ≡ b
unfolding mutation_eq
mutation_eq_sound a b h = ground arith

needs_approval : (a b c d : Bool) → (a && (not b || c && d)) ≡ false → a ≡ true → b ≡ true
needs_approval a b c d h e = ground arith

pub reader-Fits : Fits Mutation.read_only (codes "filesystem.read")
reader-Fits = (λ e. unfold str_eq in refl, λ e. unfold str_eq in refl)

pub writer-Fits : Fits Mutation.workspace_write (codes "filesystem.write")
writer-Fits = (λ e. cc, λ e. unfold str_eq in refl)

pub test-Fits : Fits Mutation.workspace_write (codes "test.run")
test-Fits = (λ e. cc, λ e. unfold str_eq in refl)

-- An action of a fixed mutation class that is not external, with at most one fixed capability.
module _ (g : Graph) (n : Node) where
  abbrev pub IsConfined : Type 0
  IsConfined =
      All (Fits n.mutation) n.capabilities
      × (n.mutation ≡ Mutation.external_side_effect
          → (g.approval_required ≡ true) × (is_agent_action n.action_name ≡ true))

  pub confined_by_shape :
      (m : Mutation) (c : Str)
      → mutation_eq n.mutation m ≡ true
      → node_has_only_capability n c ≡ true
      → Fits m c
      → mutation_eq m Mutation.external_side_effect ≡ false
      → IsConfined
  unfolding node_has_only_capability
  confined_by_shape m c same only fits inward =
      let e = mutation_eq_sound n.mutation m same in
      rw (e, caps_of_only n.capabilities c only) ((fits, tt), λ external. absurd (outward external))
    where
      outward : m ≡ Mutation.external_side_effect → ⊥
      outward external =
          let both : mutation_eq m Mutation.external_side_effect ≡ true =
            unfold mutation_eq in rw external in
          cc

  pub confined_without_capability :
      mutation_eq n.mutation Mutation.read_only ≡ true
      → (length n.capabilities == 0) ≡ true
      → IsConfined
  confined_without_capability same none_held =
      let e = mutation_eq_sound n.mutation Mutation.read_only same in
      rw (e, empty n.capabilities none_held) (tt, λ external. cc)
    where
      empty : (caps : List Str) → (length caps == 0) ≡ true → caps ≡ []
      empty [] h = refl
      empty (c ∷ caps) h = absurd (positive (length caps) h)
        where
          positive : (k : ℕ) → (suc k == 0) ≡ true → ⊥
          positive k e = ground arith

  pub agent_confined : is_agent_action n.action_name ≡ true → agent_policy g n ≡ ok tt → IsConfined
  unfolding agent_policy
  agent_confined acts h =
      let (h₁, k₁) = >>-eq-ok (refuse _ goal_without_evidence) _ h in
      let (h₂, k₂) = >>-eq-ok (refuse _ prompt_without_text) _ k₁ in
      let (h₃, k₃) = >>-eq-ok (refuse _ evidence_without_marker) _ k₂ in
      let (h₄, k₄) = >>-eq-ok (refuse _ read_only_write_capability) _ k₃ in
      let (h₅, k₅) = >>-eq-ok (refuse _ writer_without_capability) _ k₄ in
      let (h₆, k₆) = >>-eq-ok (check_capabilities n n.capabilities) _ k₅ in
      let approved = refuse-eq-ok _ _ k₆ in
      (
        check_capabilities_fit n n.capabilities h₆,
        λ external.
            let acts_outside : mutation_eq n.mutation Mutation.external_side_effect ≡ true =
              unfold mutation_eq in rw external in
            (
              needs_approval (mutation_eq n.mutation Mutation.external_side_effect)
                  g.approval_required (not (node_has_capability n (codes "network")))
                  (not (node_has_capability n (codes "browser"))) approved acts_outside,
              acts,
            ),
      )
