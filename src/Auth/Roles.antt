-- ===== src/Auth/Roles.antt =====
-- Who passes `assertRole`.
use mini_coder.Common.{◌≤◌, ◌≡◌, refl, ◌↔◌, Option, none, some, true, arith}
use mini_coder.Domain.{UserRole}
use mini_coder.Auth.Guards.{
  ActorKind, ActorIdentity, role_rank, meets_role, same_kind, is_authorized,
}

same_kind-equal : (a b : ActorKind) → same_kind a b ≡ true → a ≡ b
same_kind-equal ActorKind.human ActorKind.human h = refl
same_kind-equal ActorKind.system ActorKind.system h = refl
same_kind-equal ActorKind.human ActorKind.system h = cc
same_kind-equal ActorKind.system ActorKind.human h = cc

equal-same_kind : (a b : ActorKind) → a ≡ b → same_kind a b ≡ true
equal-same_kind ActorKind.human ActorKind.human h = refl
equal-same_kind ActorKind.system ActorKind.system h = refl
equal-same_kind ActorKind.human ActorKind.system h = cc
equal-same_kind ActorKind.system ActorKind.human h = cc

-- The kind that a command asks for, if it asks for one.
abbrev pub KindAllowed : Option ActorKind → ActorKind → Type 0
KindAllowed none kind = Unit
KindAllowed (some required) kind = required ≡ kind

-- An actor passes exactly where it is of the kind that the command asks for, if it asks for one,
-- and its role ranks at least as high as the required role.
pub is_authorized_iff :
    (actor : ActorIdentity) (role : UserRole) (kind : Option ActorKind)
    → (is_authorized actor role kind ≡ true)
      ↔ (KindAllowed kind actor.actor_kind × (role_rank role ≤ role_rank actor.role))
unfolding is_authorized meets_role
is_authorized_iff actor role none = (λ h. (tt, ground (arith, h)), λ (k, r). ground (arith, r))
is_authorized_iff actor role (some kind) = (
  (λ h. (same_kind-equal kind actor.actor_kind (ground (arith, h)), ground (arith, h))),
  (λ (k, r). ground (arith, r, equal-same_kind kind actor.actor_kind k)),
)
