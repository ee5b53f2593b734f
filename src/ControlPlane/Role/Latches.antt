-- ===== src/ControlPlane/Role/Latches.antt =====
-- Fencing: a dropped member is held until every subscriber has caught up.
use mrc.Prelude.{
  ℕ, suc, ◌≤◌, ◌≡◌, refl, Bool, true, false, Option, none, some, List, [], ◌∷◌, leb, if◌then◌else◌,
  all, arith,
}
use mrc.Prelude.Maps.{
  Map, lookup, contains, assign, erase, IsSorted, assign-IsSorted, lookup-erase, lookup-assign,
}
use mrc.ControlPlane.Events.{ClientInstance, Event}
use mrc.ControlPlane.Versioned.{mark_as_modified, issue_update}
use mrc.ControlPlane.Role.{
  Role, Latch, create, add_member, add_subscriber, is_ready, evaluate_latches, latch, detach,
  drop_tag, update_subscriber_nonce, issue,
}
use mrc.ControlPlane.Role.Entries.{drops, passing, released, evaluate_latches_lem}
use Prim.Native.String.{String}

-- Every latch waits for some subscriber, under a nonce that the role has reached.
pub record Inv (r : Role) : Type 0 where
  pub sorted : IsSorted r.latched_members
  pub waiting : (i : ℕ) → released r i ≡ false
  pub fenced :
      (i : ℕ) (l : Latch) → lookup i r.latched_members ≡ some l → l.0 ≤ r.version.current_nonce

-- What remains to be shown once `evaluate_latches` is about to run.
pub record Ready (r : Role) : Type 0 where
  pub sorted : IsSorted r.latched_members
  pub fenced :
      (i : ℕ) (l : Latch) → lookup i r.latched_members ≡ some l → l.0 ≤ r.version.current_nonce

evaluate_keeps :
    (r : Role)
    → let r' = (evaluate_latches r).1 in
      (r'.version ≡ r.version)
      × (r'.subscriber_nonces ≡ r.subscriber_nonces)
      × (r'.members ≡ r.members)
      × (r'.subscribers ≡ r.subscribers)
unfolding evaluate_latches
evaluate_keeps r = (refl, refl, refl, refl)

passing_gone :
    (p : Latch → Bool) (o : Option Latch) → passing p (if passing p o then none else o) ≡ false
passing_gone p none = refl
passing_gone p (some l) = ground arith

evaluate-Inv : (r : Role) → Ready r → Inv (evaluate_latches r).1
evaluate-Inv r v = record {
  sorted = (evaluate_latches_lem 0 r v.sorted).2;
  waiting = λ i.
      rw ((evaluate_keeps r).1, (evaluate_latches_lem i r v.sorted).0)
        (passing_gone (λ l. is_ready r.subscriber_nonces (i, l)) (lookup i r.latched_members));
  fenced =
      λ i l e. ground (arith, v.fenced i l, evaluate_keeps r, evaluate_latches_lem i r v.sorted);
}

-- A new subscriber reports nonce 0, which no latch is content with.
all-assign_zero :
    (n t : ℕ) (m : Map ℕ)
    → all (λ (t, k). leb n k) m ≡ false
    → all (λ (t, k). leb n k) (assign t 0 m) ≡ false
unfolding assign
all-assign_zero n t [] h = cc
all-assign_zero n t ((j, k) ∷ m) h = ground (arith, all-assign_zero n t m)

passing_mono :
    (p q : Latch → Bool) (o : Option Latch)
    → ((l : Latch) → p l ≡ false → q l ≡ false)
    → passing p o ≡ false
    → passing q o ≡ false
passing_mono p q none k h = refl
passing_mono p q (some l) k h = k l h

latch-Ready : (tag : ℕ) (o : Option ClientInstance) (r : Role) → Ready r → Ready (latch tag o r)
unfolding mark_as_modified
latch-Ready tag none r v = v
latch-Ready tag (some i) r v =
    let l : Latch = (suc r.version.current_nonce, i) in
    record {
      sorted = assign-IsSorted tag l r.latched_members v.sorted;
      fenced = λ j k e. ground (arith, v.fenced j k, lookup-assign tag j l r.latched_members);
    }

pub detach-Ready : (tag : ℕ) (r : Role) → Inv r → Ready (detach tag r)
unfolding detach
detach-Ready tag r v =
    latch-Ready tag (lookup tag r.members) _ (record { sorted = v.sorted; fenced = v.fenced })

pub report-Ready :
    (tag nonce : ℕ) (b : Bool) (r : Role)
    → Inv r
    → Ready (if b then record r { subscriber_nonces = assign tag nonce r.subscriber_nonces } else r)
report-Ready tag nonce true r v = record { sorted = v.sorted; fenced = v.fenced }
report-Ready tag nonce false r v = record { sorted = v.sorted; fenced = v.fenced }

issue-Inv : (r : Role) → Inv r → Inv (issue r).1
unfolding issue issue_update
issue-Inv r v = record {
  sorted = v.sorted;
  waiting = v.waiting;
  fenced = λ i l e. ground (arith, v.fenced i l);
}

pub create-Inv : (service role : String) → Inv (create service role)
unfolding create lookup
create-Inv service role = record { sorted = tt; waiting = λ i. refl; fenced = λ i l e. cc }

-- The calls of a role, and a history of them.
pub data Call : Type 0 where
  adds_member : ℕ → ClientInstance → Call
  adds_subscriber : ℕ → ClientInstance → Call
  drops_tag : ℕ → Call
  reports : ℕ → ℕ → Call
  issues : Call

unfoldable pub step : Call → Role → List Event × Role
step (adds_member tag i) r = ([], add_member tag i r)
step (adds_subscriber tag i) r = ([], add_subscriber tag i r)
step (drops_tag tag) r = drop_tag tag r
step (reports tag nonce) r = update_subscriber_nonce tag nonce r
step issues r = issue r

-- Every call of a role keeps the invariant: latches are sorted by tag, their nonces lie at or below
-- the role's, and each of them still waits for some subscriber.
pub step-Inv : (c : Call) (r : Role) → Inv r → Inv (step c r).1
unfolding step
step-Inv (adds_member tag i) r v =
    unfold add_member mark_as_modified in
    record {
      sorted = v.sorted;
      waiting = v.waiting;
      fenced = λ j l e. omega (arith, v.fenced j l e);
    }
step-Inv (adds_subscriber tag i) r v =
    unfold add_subscriber in
    record {
      sorted = v.sorted;
      waiting = λ j.
          passing_mono _ _ (lookup j r.latched_members)
            (λ l. all-assign_zero l.0 tag r.subscriber_nonces) (v.waiting j);
      fenced = v.fenced;
    }
step-Inv (drops_tag tag) r v = unfold drop_tag in evaluate-Inv (detach tag r) (detach-Ready tag r v)
step-Inv (reports tag nonce) r v =
    unfold update_subscriber_nonce in
    evaluate-Inv _ (report-Ready tag nonce (contains tag r.subscriber_nonces) r v)
step-Inv issues r v = issue-Inv r v

unfoldable pub run : List Call → Role → Role
unfolding step
run [] r = r
run (c ∷ cs) r = run cs (step c r).1

run_keeps : (cs : List Call) (r : Role) → Inv r → Inv (run cs r)
unfolding run
run_keeps [] r v = v
run_keeps (c ∷ cs) r v = run_keeps cs (step c r).1 (step-Inv c r v)

-- So it holds of a new role after any history of calls.
pub run-Inv : (service role : String) (cs : List Call) → Inv (run cs (create service role))
run-Inv service role cs = run_keeps cs (create service role) (create-Inv service role)

detach_lem :
    (tag : ℕ) (i : ClientInstance) (r : Role)
    → lookup tag r.members ≡ some i
    → let n = suc r.version.current_nonce in
      let d = detach tag r in
      (lookup tag d.members ≡ none)
      × (lookup tag d.subscribers ≡ none)
      × (d.version.current_nonce ≡ n)
      × (d.subscriber_nonces ≡ erase tag r.subscriber_nonces)
      × (lookup tag d.latched_members ≡ some (n, i))
unfolding detach
detach_lem tag i r e =
    let n : ℕ = suc r.version.current_nonce in
    rw (e, detach)
      (
        ground (arith, lookup-erase tag tag r.members),
        ground (arith, lookup-erase tag tag r.subscribers),
        refl,
        refl,
        ground (arith, lookup-assign tag tag (n, i) r.latched_members),
      )

-- In a role that keeps the invariant, dropping a member takes it out of the members and the
-- subscribers and makes a new version. Its drop request is written at once if every remaining
-- subscriber has already reported the new nonce, and otherwise the member is latched under that
-- nonce and no request is written.
pub drop_tag_lem :
    (tag : ℕ) (i : ClientInstance) (r : Role)
    → Inv r
    → lookup tag r.members ≡ some i
    → let n = suc r.version.current_nonce in
      let now = is_ready (erase tag r.subscriber_nonces) (tag, (n, i)) in
      let (es, r') = drop_tag tag r in
      (lookup tag r'.members ≡ none)
      × (lookup tag r'.subscribers ≡ none)
      × (r'.version.current_nonce ≡ n)
      × (lookup tag r'.latched_members ≡ (if now then none else some (n, i)))
      × (drops tag es ≡ (if now then 1 else 0))
drop_tag_lem tag i r v e =
    let d : Role = detach tag r in
    let (no_member, no_subscriber, version, nonces, latched) = detach_lem tag i r e in
    let (l, ds, _) = evaluate_latches_lem tag d (detach-Ready tag r v).sorted in
    let (same_version, _, same_members, same_subscribers) = evaluate_keeps d in
    unfold drop_tag in
    (
      rw (same_members, no_member),
      rw (same_subscribers, no_subscriber),
      rw (same_version, version),
      ground (arith, l, latched, nonces),
      ground (arith, ds, latched, nonces),
    )
