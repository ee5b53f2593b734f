-- ===== src/ControlPlane/Server/Closing.antt =====
-- What is left of the instances of a stream that was closed.
use mrc.Prelude.{
  ℕ, ◌≡◌, refl, subst, true, false, none, List, [], ◌∷◌, ◌==◌, map, All, arith, Bool-cases, inl,
  inr,
}
use mrc.Prelude.Maps.{lookup, contains}
use mrc.ControlPlane.Issuer.{of_instance, Entry, tag_count_for_instance_id}
use mrc.ControlPlane.Issuer.Registry.{tag_count-drop_instance}
use mrc.ControlPlane.Connections
use mrc.ControlPlane.Connections.{get_instance_ids}
use mrc.ControlPlane.Connections.Dropping.{has_instance, drop_stream_lem}
use mrc.ControlPlane.Subscriptions.{do_drop_tag}
use mrc.ControlPlane.Server.{
  Server, Services, ClientEvent, each_service, drop_instance, drop_each, drop_stream, silent,
}
use mrc.ControlPlane.Server.Handlers.{handle_event}

-- An instance without tags in any service.
abbrev pub Untagged : ℕ → Services → Type 0
Untagged id = All (λ (n, t). tag_count_for_instance_id id t ≡ 0)

drop-Untagged : (id : ℕ) (ss : Services) → Untagged id (drop_instance id ss)
unfolding drop_instance each_service
drop-Untagged id [] = tt
drop-Untagged id ((n, t) ∷ ss) = ((tag_count-drop_instance do_drop_tag id t).0, drop-Untagged id ss)

drop_keeps-Untagged :
    (id other : ℕ) (ss : Services) → Untagged other ss → Untagged other (drop_instance id ss)
unfolding drop_instance each_service
drop_keeps-Untagged id other [] u = tt
drop_keeps-Untagged id other ((n, t) ∷ ss) u = (
  ground (
    arith,
    (tag_count-drop_instance do_drop_tag id t).0,
    (tag_count-drop_instance do_drop_tag id t).2 other,
    u,
  ),
  drop_keeps-Untagged id other ss u.1,
)

each_keeps-Untagged :
    (ids : List ℕ) (other : ℕ) (ss : Services)
    → Untagged other ss
    → Untagged other (drop_each ids ss)
unfolding drop_each
each_keeps-Untagged [] other ss u = u
each_keeps-Untagged (id ∷ ids) other ss u =
    each_keeps-Untagged ids other (drop_instance id ss) (drop_keeps-Untagged id other ss u)

each-Untagged :
    (es : List Entry) (id : ℕ) (ss : Services)
    → has_instance id es ≡ true
    → Untagged id (drop_each (map (λ e. e.1) es) ss)
unfolding drop_each
each-Untagged [] id ss h = cc
each-Untagged ((s, i) ∷ es) id ss h = elim (Bool-cases (i == id)) [
  | inl y ↦ each_keeps-Untagged (map (λ e. e.1) es) id (drop_instance i ss) (
      subst (λ k. Untagged k (drop_instance i ss)) {x = i} {y = id} (ground (arith, y))
        (drop-Untagged i ss))
  | inr n ↦ each-Untagged es id (drop_instance i ss) (ground (arith, h, n))
]

handled :
    (e : ClientEvent) (s : Server)
    → e.ok ≡ false
    → contains e.stream s.connections.streams ≡ true
    → handle_event e s ≡ (
      silent,
      record s {
        services = drop_each (get_instance_ids e.stream s.connections) s.services;
        connections = Connections.drop_stream e.stream s.connections;
      },
    )
unfolding handle_event drop_stream
handled e s closed here = ground (arith, closed, here)

-- When the end of an open stream is handled, no instance that was activated on it is left: it is not
-- registered any more and has no tag in any service; the stream itself is gone.
pub closed_stream_lem :
    (e : ClientEvent) (s : Server)
    → e.ok ≡ false
    → contains e.stream s.connections.streams ≡ true
    → let (a, s') = handle_event e s in
      (a ≡ silent)
      × (contains e.stream s'.connections.streams ≡ false)
      × ((id : ℕ)
          → has_instance id (of_instance e.stream s.connections.instances_by_stream) ≡ true
          → (lookup id s'.connections.instances ≡ none) × Untagged id s'.services)
closed_stream_lem e s closed here =
    let m = s.connections in
    let (no_stream, _, gone, _) = drop_stream_lem e.stream m here in
    rw (handled e s closed here) (
      refl,
      no_stream,
      λ id h. (
        ground (arith, gone id, h),
        unfold get_instance_ids in
            each-Untagged (of_instance e.stream m.instances_by_stream) id s.services h,
      ),
    )
