-- ===== src/Segment/Nesting.antt =====
-- cpp/mrc/src/internal/segment/builder_definition.cpp: the namespace after a module has been initialized.
use mrc.Prelude.{ℕ, ◌≡◌, refl, ap, ◌∙◌, Bool, true, false, List, [], ◌∷◌, ◌++◌, if◌then◌else◌}
use mrc.Segment.{Text, SegmentModule, component_prefix}
use mrc.Segment.Builder.{
  Builder, without_last, Initialized, init_module, enter_module, leave_module, ns_push, ns_pop,
}

abbrev pub stack_of : Initialized → List Text
stack_of (Initialized.returned b) = b.namespace_stack
stack_of (Initialized.threw b) = b.namespace_stack

abbrev pub has_thrown : Initialized → Bool
has_thrown (Initialized.returned b) = false
has_thrown (Initialized.threw b) = true

without_last-append : (l : List Text) (x : Text) → without_last (l ++ (x ∷ [])) ≡ l
without_last-append [] x = refl
without_last-append (y ∷ []) x = refl
without_last-append (y ∷ z ∷ l) x = ap (λ r. y ∷ r) (without_last-append (z ∷ l) x)

leave-stack_of :
    (id : ℕ) (m : SegmentModule) (r : Initialized) (s : List Text)
    → stack_of r ≡ s
    → stack_of (leave_module id m r)
      ≡ (if has_thrown (leave_module id m r) then s else without_last s)
unfolding leave_module ns_pop
leave-stack_of id m (Initialized.returned b) s e = ap without_last e
leave-stack_of id m (Initialized.threw b) s e = e

-- If the initializer of the module leaves the namespaces as it finds them, so does the initialization of
-- the module when it returns; when the initializer throws, the module's namespace stays on the stack.
pub init_module_lem :
    (initialize : Builder → Initialized) (id : ℕ) (m : SegmentModule) (b : Builder)
    → ((x : Builder) → stack_of (initialize x) ≡ x.namespace_stack)
    → stack_of (init_module initialize id m b) ≡ (
        if has_thrown (init_module initialize id m b)
        then b.namespace_stack ++ (component_prefix m ∷ [])
        else b.namespace_stack)
unfolding init_module enter_module ns_push
init_module_lem initialize id m b keeps =
    let left = leave_module id m (initialize (enter_module id m b)) in
    let stack = b.namespace_stack ++ (component_prefix m ∷ []) in
    leave-stack_of id m (initialize (enter_module id m b)) stack (keeps (enter_module id m b))
    ∙ ap (λ l. if has_thrown left then stack else l)
        (without_last-append b.namespace_stack (component_prefix m))
