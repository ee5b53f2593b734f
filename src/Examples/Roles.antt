-- ===== src/Examples/Roles.antt =====
-- Roles and the subscription service on small data.
use Prim.Native.String.{String}
use mrc.Prelude.{◌+◌, ◌≤◌, ℕ, suc, ◌≡◌, refl, none, some, List, [], ◌∷◌, if◌then◌else◌, All}
use mrc.Prelude.Maps.{lookup, erase}
use mrc.ControlPlane.Events.{ClientInstance}
use mrc.ControlPlane.Versioned.{initial}
use mrc.ControlPlane.Issuer.{of_instance, drop_instance}
use mrc.ControlPlane.Role.{Role, create, add_member, add_subscriber, is_ready, drop_tag, issue}
use mrc.ControlPlane.Role.Latches.{
  Inv, adds_member, adds_subscriber, drops_tag, run as run_role, run-Inv, drop_tag_lem,
}
use mrc.ControlPlane.Role.Entries.{drops}
use mrc.ControlPlane.Role.Updates.{late_subscriber_uninformed}
use mrc.ControlPlane.Subscriptions.{Service, construct, do_drop_tag}
use mrc.ControlPlane.Role.Entries.{drops as drops_for}
use mrc.ControlPlane.Subscriptions.Owed.{Everywhere, latched_in}
use mrc.ControlPlane.Subscriptions.Roles.{
  Call, registers, activates, drops_instance, run, Fenced, run-Fenced,
}
use mrc.ControlPlane.Subscriptions.Membership.{Absent, drop_instance-Absent}

abbrev publisher : ClientInstance
publisher = record { id = 7; stream_writer = 1; worker_address = "a" }

abbrev reader : ClientInstance
reader = record { id = 8; stream_writer = 2; worker_address = "b" }

-- A role with one member and one subscriber.
abbrev pair : Role
pair =
    run_role (adds_member 5 publisher ∷ adds_subscriber 6 reader ∷ [])
      (create "service" "publisher")

pair-Inv : Inv pair
pair-Inv = run-Inv "service" "publisher" (adds_member 5 publisher ∷ adds_subscriber 6 reader ∷ [])

abbrev five : ℕ
five = 5

-- The member has been dropped; the subscriber has not yet reported the new nonce.
abbrev latched : Role
latched =
    run_role (adds_member 5 publisher ∷ adds_subscriber 6 reader ∷ drops_tag 5 ∷ [])
      (create "service" "publisher")

latched-Inv : Inv latched
latched-Inv =
    run-Inv "service" "publisher"
      (adds_member 5 publisher ∷ adds_subscriber 6 reader ∷ drops_tag 5 ∷ [])

-- A service whose first instance publishes and whose second one subscribes to it.
abbrev role_names : List String
role_names = "publisher" ∷ "subscriber" ∷ []

abbrev calls : List Call
calls =
    registers publisher "publisher" []
    ∷ activates publisher "publisher" [] 65538
    ∷ registers reader "subscriber" ("publisher" ∷ [])
    ∷ activates reader "subscriber" ("publisher" ∷ []) 65539
    ∷ drops_instance 7
    ∷ []

abbrev block_start : ℕ
block_start = 65536

abbrev service_name : String
service_name = "service"

abbrev both : Service
both =
    run (registers publisher "publisher" [] ∷ registers reader "subscriber" ("publisher" ∷ []) ∷ [])
      (construct block_start service_name role_names)

abbrev seven : ℕ
seven = 7

abbrev subscriber_role : String
subscriber_role = "subscriber"

abbrev subscribed : List String
subscribed = "publisher" ∷ []

abbrev second_tag : ℕ
second_tag = 65539

drop_tag_lem_example :
    let n = suc pair.version.current_nonce in
    let now = is_ready (erase five pair.subscriber_nonces) (five, (n, publisher)) in
    let (es, r') = drop_tag five pair in
    (lookup five r'.members ≡ none)
    × (lookup five r'.subscribers ≡ none)
    × (r'.version.current_nonce ≡ n)
    × (lookup five r'.latched_members ≡ (if now then none else some (n, publisher)))
    × (drops five es ≡ (if now then 1 else 0))
drop_tag_lem_example =
    drop_tag_lem five publisher pair pair-Inv
      (unfold run_role create lookup add_subscriber add_member in refl)

late_subscriber_uninformed_example :
    issue (add_subscriber five reader ((create "service" "publisher")))
    ≡ ([], add_subscriber five reader ((create "service" "publisher")))
late_subscriber_uninformed_example =
    late_subscriber_uninformed five reader (create "service" "publisher")
      (unfold create initial in refl)

run-Fenced_example :
    let s = run calls (construct block_start service_name role_names) in
    Fenced s
    × (latched_in 65537 s.derived.roles + drops_for 65537 s.derived.sent
        ≤ latched_in 65537 (run (drops_instance 7 ∷ []) s).derived.roles
          + drops_for 65537 (run (drops_instance 7 ∷ []) s).derived.sent)
run-Fenced_example =
    run-Fenced block_start service_name role_names calls (drops_instance 7 ∷ []) 65537

drop_instance-Absent_example :
    All
      (λ (i, t). Everywhere (Absent t) (drop_instance do_drop_tag seven both).derived.roles)
      (of_instance seven both.instance_tags)
drop_instance-Absent_example = drop_instance-Absent seven both
