-- ===== src/Auth/Guards.antt =====
-- packages/core/src/auth/types.ts and guards.ts: who acts, and the role that a command needs.
use mini_coder.Common.{ℕ, Bool, true, false, ◌&&◌, Option, none, some, String, leb}
use mini_coder.Domain.{UserRole}

pub data ActorKind : Type 0 where
  human system : ActorKind

pub record ActorIdentity : Type 0 where
  pub id : String
  pub role : UserRole
  pub actor_kind : ActorKind

abbrev pub role_rank : UserRole → ℕ
role_rank UserRole.viewer = 0
role_rank UserRole.operator = 1
role_rank UserRole.approver = 2
role_rank UserRole.admin = 3

unfoldable pub meets_role : UserRole → UserRole → Bool
meets_role actor_role required_role = leb (role_rank required_role) (role_rank actor_role)

abbrev pub same_kind : ActorKind → ActorKind → Bool
same_kind ActorKind.human ActorKind.human = true
same_kind ActorKind.system ActorKind.system = true
same_kind _ _ = false

abbrev pub kind_fits : Option ActorKind → ActorKind → Bool
kind_fits none kind = true
kind_fits (some required) kind = same_kind required kind

-- `assertRole` throws an AuthorizationError where this is false.
unfoldable pub is_authorized : ActorIdentity → UserRole → Option ActorKind → Bool
unfolding meets_role
is_authorized actor required_role required_kind =
    kind_fits required_kind actor.actor_kind && meets_role actor.role required_role
