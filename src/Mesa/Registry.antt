-- ===== src/Mesa/Registry.antt =====
-- The component registry of mesa.go: the index by name agrees with the list of components.
use wego.Prelude.{
  ◌∙◌, sym, ap, Bool, true, false, Option, none, some, List, [], ◌∷◌, ◌++◌, ◌≡◌, refl, Text,
  is_empty, GoMap, lookup, insert, lookup-insert, text_key, text_beq, text_beq_sound, if◌then◌else◌,
  is_some, arith,
}
use wego.Mesa.{
  runtime_started, Mesa, Component, MesaError, is_new, normalize_component_name, register_items,
  register_component, get_component,
}

-- The first component of a list whose normalized name is `n`: what the registry means.
unfoldable pub find_component : Text → List Component → Option Component
find_component n [] = none
find_component n (c ∷ cs) =
    if text_beq (normalize_component_name c.name) n then some c else find_component n cs

-- The index holds what the list says, name by name.
pub record IsIndexed (m : Mesa) : Type 0 where
  pub agrees : (n : Text) → lookup n m.component_index ≡ find_component n m.components

find_component-append :
    (n : Text) (cs : List Component) (c : Component)
    → find_component n cs ≡ none
    → find_component n (cs ++ c ∷ []) ≡ find_component n (c ∷ [])
unfolding find_component
find_component-append n [] c h = refl
find_component-append n (d ∷ cs) c h = ground (arith, find_component-append n cs c)

find_component-append_other :
    (n : Text) (cs : List Component) (c : Component)
    → text_beq (normalize_component_name c.name) n ≡ false
    → find_component n (cs ++ c ∷ []) ≡ find_component n cs
unfolding find_component
find_component-append_other n [] c h = ground arith
find_component-append_other n (d ∷ cs) c h = ground (arith, find_component-append_other n cs c h)

-- The index and the list after the component is added, at one name.
added_at :
    (n name : Text) (c : Component) (cs : List Component) (index : GoMap Text Component)
    → normalize_component_name c.name ≡ name
    → lookup n index ≡ find_component n cs
    → (text_beq name n ≡ true → lookup n index ≡ none)
    → lookup n (insert name c index) ≡ find_component n (cs ++ c ∷ [])
unfolding find_component
added_at n name c cs index e agrees free = split (text_beq name n) refl
  where
    split :
        (b : Bool)
        → text_beq name n ≡ b
        → lookup n (insert name c index) ≡ find_component n (cs ++ c ∷ [])
    split true h =
        ground (arith, lookup-insert name n c index, free h, find_component-append n cs c)
    split false h = ground (arith, lookup-insert name n c index, find_component-append_other n cs c)

is_some-none : {A : Type 0} (o : Option A) → is_some o ≡ false → o ≡ none
is_some-none o h = ground arith

-- Adding a component under a free name.
added-IsIndexed :
    (m : Mesa) (c : Component)
    → IsIndexed m
    → is_some (lookup (normalize_component_name c.name) m.component_index) ≡ false
    → IsIndexed (record m {
      components = m.components ++ c ∷ [];
      component_index = insert (normalize_component_name c.name) c m.component_index;
    })
added-IsIndexed m c h free = record {
  agrees = λ n. added_at n name c m.components m.component_index refl (h.agrees n) (λ same.
      ap (λ k. lookup k m.component_index) (sym (text_beq_sound name n same))
      ∙ is_some-none (lookup name m.component_index) free);
}
  where
    name : Text
    name = normalize_component_name c.name

-- The outcome of one component's turn.
turn_IsIndexed :
    (a b : Bool) (e f : Option MesaError) {m : Mesa} (rest : Option MesaError × Mesa)
    → IsIndexed m
    → (b ≡ false → IsIndexed (rest.1))
    → IsIndexed ((if a then (e, m) else if b then (f, m) else rest).1)
turn_IsIndexed true b e f rest h go = h
turn_IsIndexed false true e f rest h go = h
turn_IsIndexed false false e f rest h go = go refl

register_items-IsIndexed :
    (items : List (Option Component)) (m : Mesa)
    → IsIndexed m
    → IsIndexed ((register_items items m).1)
unfolding register_items
register_items-IsIndexed [] m h = h
register_items-IsIndexed (none ∷ items) m h = h
register_items-IsIndexed (some c ∷ items) m h =
    turn_IsIndexed (is_empty name) (is_some (lookup name m.component_index)) _ _ _ h (λ e.
      register_items-IsIndexed items
        (record m {
          components = m.components ++ c ∷ [];
          component_index = insert name c m.component_index;
        })
        (added-IsIndexed m c h e))
  where
    name : Text
    name = normalize_component_name c.name

-- Registering keeps the component index in step with the list of components: before and after any
-- call of RegisterComponent, GetComponent returns exactly the first component of the list whose
-- name, trimmed of spaces, is the requested one trimmed of spaces. This includes the calls that
-- fail, which keep the components that preceded the faulty one.
pub register_component-IsIndexed :
    (items : List (Option Component)) (m : Mesa) (name : Text)
    → IsIndexed m
    → IsIndexed ((register_component items m).1)
      × (get_component (some ((register_component items m).1)) name
          ≡ find_component
              (normalize_component_name name)
              ((register_component items m).1.components))
unfolding get_component register_component
register_component-IsIndexed items m name h =
    (indexed, indexed.agrees (normalize_component_name name))
  where
    kept :
        (b : Bool) → IsIndexed ((if b then register_items items m else (some runtime_started, m)).1)
    kept true = register_items-IsIndexed items m h
    kept false = h

    indexed : IsIndexed ((register_component items m).1)
    indexed = kept (is_new m.state)
