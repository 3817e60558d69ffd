-- ===== src/Mesa/Lifecycle/Startup.antt =====
-- mesa.go, Run: what its loops start, and what it does when an item does not start.
use wego.Prelude.{
  append_assoc, append_nil, arith, subst, ap, ◌∙◌, sym, Bool, true, Option, none, some, List, [],
  ◌∷◌, ◌++◌, ◌≡◌, refl, ◌⊎◌, inl, inr, map, Text, is_some,
}
use wego.Mesa.{Behaviour, Mesa, Item, Event, start, is_new, stopped}
use wego.Mesa.Lifecycle.{
  after_loops, after_start, World, Exit, background, start_item, start_items, begin_run, roll_back,
  mark_running, run, shutdown, failed, start_error, stop_items, cancel_runtime, finish_stopped,
  close_resources,
}
use wego.Mesa.Lifecycle.Events.{
  items_to_start, cancels_of, stops_of, closes_of, without_clients, stop_items-events,
  close_resources-events, cancel_runtime-events, three_steps,
}

unfoldable pub starts_of : List Item → List Event
starts_of items = map (λ item. start item) items

-- The calls that undo a start that failed.
unfoldable pub rolls_back : (Item → Bool) → List Item → Mesa → Bool → List Event
rolls_back is_stopper done m has_cancel =
    cancels_of has_cancel
    ++ stops_of is_stopper done
    ++ closes_of m.has_etcd m.has_redis m.has_postgres

module _ {B : Behaviour} where
  -- Steps that call nothing and leave the runtime's own state alone.
  pub record IsQuiet (steps : World B → World B) : Type 0 where
    pub same : (w : World B) → (steps w).mesa ≡ w.mesa
    pub log : (w : World B) → (steps w).events ≡ w.events

  -- Every item starts.
  pub record AllStart (started items : List Item) (w : World B)
      (outcome : Option (Item × Text) × List Item × World B) : Type 0 where
    pub no_error : outcome.0 ≡ none
    pub log : outcome.2.events ≡ w.events ++ starts_of items
    pub same : outcome.2.mesa ≡ w.mesa

  -- The item `bad`, after `done`, does not start, and the items after it are not tried.
  pub record FailsAt (started items : List Item) (w : World B)
      (outcome : Option (Item × Text) × List Item × World B) : Type 0 where
    pub done : List Item
    pub bad : Item
    pub untried : List Item
    pub error : Text
    pub splits : items ≡ done ++ bad ∷ untried
    pub fails : outcome.0 ≡ some (bad, error)
    pub collects : outcome.1 ≡ started ++ done
    pub log : outcome.2.events ≡ w.events ++ (starts_of done ++ start bad ∷ [])
    pub same : outcome.2.mesa ≡ w.mesa

  -- The turn of one item, by what it returned.
  turn :
      (started : List Item) (item : Item) (items : List Item) (w next : World B)
      → next.events ≡ w.events ++ start item ∷ []
      → next.mesa ≡ w.mesa
      → (o : Option Text) (rest : Option (Item × Text) × List Item × World B)
      → AllStart (started ++ item ∷ []) items next rest
        ⊎ FailsAt (started ++ item ∷ []) items next rest
      → AllStart started (item ∷ items) w (after_start started item next o rest)
        ⊎ FailsAt started (item ∷ items) w (after_start started item next o rest)
  unfolding starts_of
  turn started item items w next log same (some e) rest h = inr (record {
    done = [];
    bad = item;
    untried = items;
    error = e;
    splits = refl;
    fails = refl;
    collects = sym (append_nil started);
    log = log;
    same = same;
  })
  turn started item items w next log same none rest (inl a) = inl (record {
    no_error = a.no_error;
    log = a.log ∙ ap (λ t. t ++ starts_of items) log ∙ append_assoc w.events (start item ∷ []) _;
    same = a.same ∙ same;
  })
  turn started item items w next log same none rest (inr f) = inr (record {
    done = item ∷ f.done;
    bad = f.bad;
    untried = f.untried;
    error = f.error;
    splits = ap (λ t. item ∷ t) f.splits;
    fails = f.fails;
    collects = f.collects ∙ append_assoc started (item ∷ []) f.done;
    log =
        f.log
        ∙ ap (λ t. t ++ (starts_of f.done ++ start f.bad ∷ [])) log
        ∙ append_assoc w.events (start item ∷ []) _;
    same = f.same ∙ same;
  })

  pub start_items-cases :
      (items started : List Item) (w : World B)
      → AllStart started items w (start_items started items w)
        ⊎ FailsAt started items w (start_items started items w)
  unfolding start_items start_item starts_of
  start_items-cases [] started w =
      inl (record { no_error = refl; log = sym (append_nil w.events); same = refl })
  start_items-cases (item ∷ items) started w =
      turn started item items w ((start_item item w).1) refl refl ((start_item item w).0) _
        (start_items-cases items (started ++ item ∷ []) ((start_item item w).1))

  -- How a call of Run ends whose item `bad`, after `done`, did not start.
  pub record RollsBack (w : World B) (exit : Exit) (last : World B) : Type 0 where
    pub done : List Item
    pub bad : Item
    pub untried : List Item
    pub error : Text
    pub splits : items_to_start w.mesa ≡ done ++ bad ∷ untried
    pub log :
        last.events
        ≡ (w.events ++ (starts_of done ++ start bad ∷ []))
          ++ rolls_back B.is_stopper done w.mesa true
    pub exits : exit ≡ failed (start_error bad error)
    pub is_stopped : last.mesa.state ≡ stopped
    pub is_closed : last.mesa.shutdown_done ≡ true

  roll_back-events :
      (done : List Item) (w : World B)
      → ((roll_back done w).events
          ≡ w.events ++ rolls_back B.is_stopper done w.mesa w.mesa.has_cancel)
        × ((roll_back done w).mesa
            ≡ without_clients (record w.mesa { state = stopped; shutdown_done = true }))
  unfolding roll_back finish_stopped rolls_back
  roll_back-events done w = (
    three_steps w.events _ _ _ ((cancel_runtime-events w).0) (stops.0)
        (closes.0 ∙ ap closes_in same),
    closes.1 ∙ ap (λ m. without_clients (record m { state = stopped; shutdown_done = true })) same,
  )
    where
      after : World B
      after = (stop_items (background B) done (cancel_runtime w)).1

      marked : World B
      marked = record after { mesa = record after.mesa { state = stopped; shutdown_done = true } }

      closes_in : Mesa → List Event
      closes_in m = after.events ++ closes_of m.has_etcd m.has_redis m.has_postgres

      stops :
          (after.events ≡ (cancel_runtime w).events ++ stops_of B.is_stopper done)
          × (after.mesa ≡ (cancel_runtime w).mesa)
      stops = stop_items-events done (cancel_runtime w)

      same : after.mesa ≡ w.mesa
      same = stops.1 ∙ (cancel_runtime-events w).1

      closes :
          ((close_resources marked).1.events ≡ closes_in after.mesa)
          × ((close_resources marked).1.mesa ≡ without_clients marked.mesa)
      closes = close_resources-events marked

  pub run-new :
      (before until : World B → World B) (w : World B)
      → is_new w.mesa.state ≡ true
      → (o : Option (Item × Text)) → (start_items [] (items_to_start w.mesa) (begin_run w)).0 ≡ o
      → (let s = start_items [] (items_to_start w.mesa) (begin_run w) in
          run before until w
          ≡ after_loops o
              (roll_back (s.1) (before (s.2)))
              (shutdown (background B) (until (mark_running (before (s.2))))))
  unfolding run items_to_start
  run-new before until w h o e = rw (h, e) refl

  -- `run-RollsBack`, from the failing item.
  run-RollsBack_at :
      (before until : World B → World B) (w : World B)
      → IsQuiet before
      → is_new w.mesa.state ≡ true
      → FailsAt []
          (items_to_start w.mesa)
          (begin_run w)
          (start_items [] (items_to_start w.mesa) (begin_run w))
      → RollsBack w ((run before until w).0) ((run before until w).1)
  unfolding begin_run rolls_back
  run-RollsBack_at before until w b h f =
      subst (λ r. RollsBack w (r.0) (r.1))
        (sym (run-new before until w h (some (f.bad, f.error)) f.fails))
        (record {
          done = f.done;
          bad = f.bad;
          untried = f.untried;
          error = f.error;
          splits = f.splits;
          log =
              rolled.0
              ∙ ap (λ m. next.events ++ rolls_back B.is_stopper (s.1) m m.has_cancel) same
              ∙ ap (λ d. next.events ++ rolls_back B.is_stopper d w.mesa true) f.collects
              ∙ ap (λ t. t ++ rolls_back B.is_stopper f.done w.mesa true) (b.log (s.2) ∙ f.log);
          exits = refl;
          is_stopped = ap (λ m. m.state) (rolled.1);
          is_closed = ap (λ m. m.shutdown_done) (rolled.1);
        })
    where
      s : Option (Item × Text) × List Item × World B
      s = start_items [] (items_to_start w.mesa) (begin_run w)

      next : World B
      next = before (s.2)

      same : next.mesa ≡ (begin_run w).mesa
      same = b.same (s.2) ∙ f.same

      rolled :
          ((roll_back (s.1) next).events
            ≡ next.events ++ rolls_back B.is_stopper (s.1) next.mesa next.mesa.has_cancel)
          × ((roll_back (s.1) next).mesa
              ≡ without_clients (record next.mesa { state = stopped; shutdown_done = true }))
      rolled = roll_back-events (s.1) next

  -- What the loops of Run return for a runtime.
  abbrev pub loops : World B → Option (Item × Text) × List Item × World B
  loops w = start_items [] (items_to_start w.mesa) (begin_run w)

  -- When a server or a component does not start, Run of a new runtime that no other goroutine shuts
  -- down meanwhile starts no further item, cancels the runtime's context, stops exactly the items that had started and have a method Stop,
  -- each once and in the order in which they started, closes the clients, leaves the runtime
  -- stopped, and returns the error with the item's type or name.
  pub run-RollsBack :
      (before until : World B → World B) (w : World B)
      → IsQuiet before
      → is_new w.mesa.state ≡ true
      → is_some ((loops w).0) ≡ true
      → RollsBack w ((run before until w).0) ((run before until w).1)
  run-RollsBack before until w b h fails =
      by_cases (start_items-cases (items_to_start w.mesa) [] (begin_run w))
    where
      by_cases :
          AllStart [] (items_to_start w.mesa) (begin_run w) (loops w)
            ⊎ FailsAt [] (items_to_start w.mesa) (begin_run w) (loops w)
          → RollsBack w ((run before until w).0) ((run before until w).1)
      by_cases (inl a) = ground (arith, a.no_error)
      by_cases (inr f) = run-RollsBack_at before until w b h f

  pub loops-AllStart :
      (w : World B)
      → (loops w).0 ≡ none
      → AllStart [] (items_to_start w.mesa) (begin_run w) (loops w)
  loops-AllStart w h = by_cases (start_items-cases (items_to_start w.mesa) [] (begin_run w))
    where
      by_cases :
          AllStart [] (items_to_start w.mesa) (begin_run w) (loops w)
            ⊎ FailsAt [] (items_to_start w.mesa) (begin_run w) (loops w)
          → AllStart [] (items_to_start w.mesa) (begin_run w) (loops w)
      by_cases (inl a) = a
      by_cases (inr f) = ground (arith, f.fails)
