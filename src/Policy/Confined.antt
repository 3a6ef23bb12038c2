-- ===== src/Policy/Confined.antt =====
-- What an accepted native action may touch.
use Prim.Native.String.{String}
use dstudio.Base.{
  ◌≡◌, inl, inr, refl, Bool, codes, str_eq, arith, ok, refuse, refuse-eq-ok, >>-eq-ok, if-eq-ok,
  err-ne-ok, is_empty, Bool-cases,
}
use dstudio.Graph.Types.{Mutation, Node, Graph}
use dstudio.Graph.Errors.{receipt_shape, write_shape, action_not_registered}
use dstudio.Graph.Kinds.{mutation_eq}
use dstudio.Policy.Actions.{
  receipt_policy, read_policy, write_policy, test_policy, assert_policy, outputs_policy,
  approval_policy, join_policy, native_action_policy, not_receipt, not_write,
}
use dstudio.Policy.Shapes.{
  IsConfined, agent_confined, confined_by_shape, confined_without_capability, reader-Fits,
  test-Fits, writer-Fits,
}

module _ (g : Graph) (n : Node) where
  receipt_confined : receipt_policy g n ≡ ok tt → IsConfined g n
  unfolding receipt_policy
  receipt_confined h =
      let (h₁, k₁) = >>-eq-ok (refuse (not_receipt n) receipt_shape) _ h in
      let shape = refuse-eq-ok _ _ h₁ in
      confined_by_shape g n Mutation.read_only (codes "filesystem.read") (ground arith)
        (ground arith) reader-Fits (unfold mutation_eq in refl)

  read_confined : read_policy n ≡ ok tt → IsConfined g n
  unfolding read_policy
  read_confined h =
      let shape = refuse-eq-ok _ _ h in
      confined_by_shape g n Mutation.read_only (codes "filesystem.read") (ground arith)
        (ground arith) reader-Fits (unfold mutation_eq in refl)

  write_confined : write_policy n ≡ ok tt → IsConfined g n
  unfolding write_policy
  write_confined h =
      let (h₁, k₁) = >>-eq-ok (refuse (not_write n) write_shape) _ h in
      let shape = refuse-eq-ok _ _ h₁ in
      confined_by_shape g n Mutation.workspace_write (codes "filesystem.write") (ground arith)
        (ground arith) writer-Fits (unfold mutation_eq in refl)

  test_confined : test_policy n ≡ ok tt → IsConfined g n
  unfolding test_policy
  test_confined h =
      let shape = refuse-eq-ok _ _ h in
      confined_by_shape g n Mutation.workspace_write (codes "test.run") (ground arith)
        (ground arith) test-Fits (unfold mutation_eq in refl)

  assert_confined : assert_policy n ≡ ok tt → IsConfined g n
  unfolding assert_policy
  assert_confined h =
      let shape = refuse-eq-ok _ _ h in
      confined_by_shape g n Mutation.read_only (codes "filesystem.read") (ground arith)
        (ground arith) reader-Fits (unfold mutation_eq in refl)

  outputs_confined : outputs_policy n ≡ ok tt → IsConfined g n
  unfolding outputs_policy
  outputs_confined h =
      let shape = refuse-eq-ok _ _ h in
      confined_by_shape g n Mutation.read_only (codes "filesystem.read") (ground arith)
        (ground arith) reader-Fits (unfold mutation_eq in refl)

  approval_confined : approval_policy n ≡ ok tt → IsConfined g n
  unfolding approval_policy
  approval_confined h =
      let shape = refuse-eq-ok _ _ h in
      confined_without_capability g n (ground arith) (ground arith)

  join_confined : join_policy n ≡ ok tt → IsConfined g n
  unfolding join_policy
  join_confined h =
      let shape = refuse-eq-ok _ _ h in
      confined_without_capability g n (ground arith) (ground arith)

abbrev is_action : Node → String → Bool
is_action n name = str_eq n.action_name (codes name)

-- An accepted native action has only capabilities that fit its mutation class: a read-only node
-- reads, registers artifacts and no more, and only an external side effect reaches the network or a
-- browser; and such a side effect is an agent's, in a graph that needs the user's approval.
pub native_action_policy-IsConfined :
    (g : Graph) (n : Node) → native_action_policy g n ≡ ok tt → IsConfined g n
unfolding native_action_policy
native_action_policy-IsConfined g n h = elim (Bool-cases (is_empty n.action_name)) [
  | inl nameless ↦ let refused = rw nameless at h in cc
  | inr named ↦ if-eq-ok _ _ _ (rw named at h) (agent_confined g n) λ h₂.
      if-eq-ok (is_action n "agent.receipt.verify") _ _ h₂ (λ b. receipt_confined g n)
        λ h₃.
          if-eq-ok (is_action n "workspace.read") _ _ h₃ (λ b. read_confined g n)
            λ h₄.
              if-eq-ok (is_action n "workspace.write") _ _ h₄ (λ b. write_confined g n)
                λ h₅.
                  if-eq-ok (is_action n "test.run") _ _ h₅ (λ b. test_confined g n)
                    λ h₆.
                      if-eq-ok (is_action n "workspace.assert") _ _ h₆ (λ b. assert_confined g n)
                        λ h₇.
                          if-eq-ok (is_action n "outputs.verify") _ _ h₇ (λ b. outputs_confined g n)
                            λ h₈.
                              if-eq-ok (is_action n "approval.wait") _ _ h₈
                                (λ b. approval_confined g n)
                                λ h₉.
                                  if-eq-ok (is_action n "join.all") _ _ h₉ (λ b. join_confined g n)
                                    (λ e. absurd (err-ne-ok action_not_registered tt e))
]
