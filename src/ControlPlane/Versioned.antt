-- ===== src/ControlPlane/Versioned.antt =====
-- `VersionedState` of cpp/mrc/src/internal/control_plane/server/versioned_issuer.hpp. The virtual
-- `has_update` is constantly true in both derived classes. The 64-bit nonce does not wrap.
use mrc.Prelude.{ℕ, suc, Bool, true, false, ltb, if◌then◌else◌}

pub record VersionedState : Type 0 where
  pub current_nonce : ℕ
  pub issued_nonce : ℕ

unfoldable pub initial : VersionedState
initial = record { current_nonce = 1; issued_nonce = 1 }

unfoldable pub mark_as_modified : VersionedState → VersionedState
mark_as_modified v = record v { current_nonce = suc v.current_nonce }

-- Whether `do_issue_update` runs, and the state afterwards.
unfoldable pub issue_update : VersionedState → Bool × VersionedState
issue_update v =
    if ltb v.issued_nonce v.current_nonce
    then (true, record v { issued_nonce = v.current_nonce })
    else (false, v)
