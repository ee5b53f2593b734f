-- ===== src/ControlPlane/AsyncClient/Routing.antt =====
-- cpp/mrc/src/internal/control_plane/client.cpp: which instances an update reaches.
use mrc.Prelude.{
  ℕ, ◌≡◌, refl, ap, ◌∙◌, Bool, true, false, ◌||◌, ◌&&◌, Option, none, some, [], ◌∷◌, ◌++◌, ◌==◌,
  if◌then◌else◌, arith, Option-cases, Bool-cases, inl, inr,
}
use mrc.Prelude.Maps.{Map, lookup, lookup-assign, contains, contains-lookup}
use mrc.ControlPlane.Events.{StateUpdate}
use mrc.ControlPlane.AsyncClient.{Channel, Client, await_write, write_all, route_state_update}

-- The channel of an instance after an update that is sent to it, if it is open.
abbrev pub receives : StateUpdate → Bool → Option Channel → Option Channel
receives u here none = none
receives u here (some c) =
    some (if here && c.is_open then record c { written = c.written ++ (u ∷ []) } else c)

lookup-write_all :
    (u : StateUpdate) (i : ℕ) (m : Map Channel)
    → lookup i (write_all u m) ≡ receives u true (lookup i m)
unfolding lookup write_all await_write
lookup-write_all u i [] = refl
lookup-write_all u i ((j, c) ∷ m) = ground (arith, lookup-write_all u i m)

module _ {M : Type 0} where
  -- The channel of an instance in what a call gives.
  abbrev pub channel_in : ℕ → Option (Client M) → Option (Option Channel)
  channel_in i none = none
  channel_in i (some c) = some (lookup i c.instance_channels)

  -- An update with the tag 0 is written to the open channels of all instances, and one with another tag to
  -- that of the instance alone, if it is open; the other channels are as they were. The call fails if the
  -- tag is not 0 and there is no instance of the tag.
  pub route_state_update_lem :
      (tag i : ℕ) (u : StateUpdate) (c : Client M)
      → channel_in i (route_state_update tag u c) ≡ (
          if tag == 0 || contains tag c.instance_channels
          then some (receives u (tag == 0 || tag == i) (lookup i c.instance_channels))
          else none)
  unfolding route_state_update await_write
  route_state_update_lem tag i u c = elim (Bool-cases (tag == 0)) [
    | inl y ↦ rw (route_state_update, y) (ap some (lookup-write_all u i c.instance_channels))
    | inr n ↦ elim (Option-cases (lookup tag c.instance_channels)) [
      | inl absent ↦
          let missing : contains tag c.instance_channels ≡ false =
            contains-lookup tag c.instance_channels ∙ rw absent refl in
          rw (route_state_update, n, absent, missing) refl
      | inr (channel, e) ↦
          let there : contains tag c.instance_channels ≡ true =
            contains-lookup tag c.instance_channels ∙ rw e refl in
          rw (route_state_update, n, e, there)
            (ap some
              (ground (arith, lookup-assign tag i (await_write u channel) c.instance_channels, e)))
    ]
  ]
