-- ===== src/Domain/Lifecycle/Actors.antt =====
-- The membership and host checks of domain/policies.py.
use axit_project.Prelude.{
  ◌≡◌, ◌↔◌, true, false, List, String, contains, is_blank, arith, ok, string_eq,
}
use axit_project.Domain.Lifecycle.{assert_room_member, assert_host_actor}

module _ (actor host : String) (members : List String) where
  -- The host check passes exactly for a member whose identifier is not blank and who is the host.
  pub assert_host_actor_iff :
      (assert_host_actor actor host members ≡ ok tt)
      ↔ ((is_blank actor ≡ false) × (contains members actor ≡ true) × (actor ≡ host))
  unfolding assert_host_actor assert_room_member
  assert_host_actor_iff = (
    λ h. ground (arith, string_eq.beq_iff actor host),
    λ h. ground (arith, string_eq.beq_iff actor host),
  )

  -- The answer to an actor who is not a member does not depend on who the host is.
  pub assert_host_actor-no_oracle :
      (other_host : String)
      → contains members actor ≡ false
      → assert_host_actor actor host members ≡ assert_host_actor actor other_host members
  unfolding assert_host_actor assert_room_member
  assert_host_actor-no_oracle other_host h = ground arith
