-- ===== src/Audit/Pipeline/Delivery.antt =====
-- What reaches the sinks of the pipeline: every event, once and in order, if it is ever flushed.
use openclaw_enterprise_plug.Common.{
  ℕ, zero, suc, ◌+◌, ◌<◌, String, ◌≡◌, refl, sym, ap, ◌∙◌, true, false, some, List, [], ◌∷◌, ◌++◌,
  map, length, All, All-append, length-append, get_elem?, arith, leb, ◌==◌, inl, inr, Bool-cases,
  if_intro,
}
use mathlib.Core.List.{append_assoc, append-nil}
use openclaw_enterprise_plug.Audit.{AuditEvent}
use openclaw_enterprise_plug.Audit.Pipeline.{
  Sink, Pipeline, new_pipeline, register_sink, write_batch, flush, added, emit, start, has_interval,
  tick, stop,
}

pub data Operation : Type 0 where
  registering : String → Operation
  emitting : AuditEvent → Operation
  starting ticking stopping : Operation

unfoldable pub perform : Operation → Pipeline → Pipeline
perform (registering name) p = register_sink name p
perform (emitting event) p = emit event p
perform starting p = start p
perform ticking p = tick p
perform stopping p = stop p

unfoldable pub perform_all : List Operation → Pipeline → Pipeline
perform_all [] p = p
perform_all (o ∷ os) p = perform_all os (perform o p)

-- The events of a run.
abbrev pub emitted : List Operation → List AuditEvent
emitted [] = []
emitted (emitting event ∷ os) = event ∷ emitted os
emitted (_ ∷ os) = emitted os

abbrev pub concat : List (List AuditEvent) → List AuditEvent
concat [] = []
concat (b ∷ bs) = b ++ concat bs

-- What a sink was handed, with what still waits for it.
abbrev pub received : Sink → Pipeline → List AuditEvent
received s p = concat s.batches ++ p.buffer

concat-append : (bs cs : List (List AuditEvent)) → concat (bs ++ cs) ≡ concat bs ++ concat cs
concat-append [] cs = refl
concat-append (b ∷ bs) cs = rw (concat-append bs cs) (sym (append_assoc b (concat bs) (concat cs)))

get_elem?-map :
    (f : Sink → Sink) (l : List Sink) (i : ℕ) (s : Sink)
    → get_elem? l i ≡ some s
    → get_elem? (map f l) i ≡ some (f s)
get_elem?-map f [] i s h = cc
get_elem?-map f (x ∷ l) zero s h = ground (arith, h)
get_elem?-map f (x ∷ l) (suc i) s h = get_elem?-map f l i s h

get_elem?-append :
    (l m : List Sink) (i : ℕ) (s : Sink) → get_elem? l i ≡ some s → get_elem? (l ++ m) i ≡ some s
get_elem?-append [] m i s h = cc
get_elem?-append (x ∷ l) m zero s h = h
get_elem?-append (x ∷ l) m (suc i) s h = get_elem?-append l m i s h

-- After an operation the sink stands at its place, with what was received so far.
abbrev Receives : ℕ → Sink → List AuditEvent → Pipeline → Pipeline → Type 0
Receives i s more p q =
    (s' : Sink) × (get_elem? q.sinks i ≡ some s') × (received s' q ≡ received s p ++ more)

flush-Receives :
    (p : Pipeline) (i : ℕ) (s : Sink) → get_elem? p.sinks i ≡ some s → Receives i s [] p (flush p)
unfolding flush
flush-Receives p i s h = elim (Bool-cases (length p.buffer == 0)) [
  | inl y ↦ rw y (s, h, sym (append-nil _))
  | inr n ↦ rw n (
    write_batch p.buffer s,
    get_elem?-map (write_batch p.buffer) p.sinks i s h,
    (let e : concat (s.batches ++ p.buffer ∷ []) ≡ concat s.batches ++ (p.buffer ++ []) =
          concat-append s.batches (p.buffer ∷ []) in
        simp (e, append-nil)),
  )
]

emit-Receives :
    (event : AuditEvent) (p : Pipeline) (i : ℕ) (s : Sink)
    → get_elem? p.sinks i ≡ some s
    → Receives i s (event ∷ []) p (emit event p)
unfolding emit
emit-Receives event p i s h =
    let q = added event p in
    let more : received s q ≡ received s p ++ event ∷ [] =
      sym (append_assoc (concat s.batches) p.buffer (event ∷ [])) in
    elim (Bool-cases (leb p.batch_size (length q.buffer))) [
      | inl y ↦
          let (s', at, e) = flush-Receives q i s h in
          rw y (s', at, e ∙ append-nil (received s q) ∙ more)
      | inr n ↦ rw n (s, h, more)
    ]

emitted_cons :
    (o : Operation) (os : List Operation) → emitted (o ∷ []) ++ emitted os ≡ emitted (o ∷ os)
emitted_cons (registering name) os = refl
emitted_cons (emitting event) os = refl
emitted_cons starting os = refl
emitted_cons ticking os = refl
emitted_cons stopping os = refl

perform-Receives :
    (o : Operation) (p : Pipeline) (i : ℕ) (s : Sink)
    → get_elem? p.sinks i ≡ some s
    → Receives i s (emitted (o ∷ [])) p (perform o p)
unfolding perform register_sink start tick stop
perform-Receives (registering name) p i s h = (
  s,
  get_elem?-append p.sinks (record { name = name; batches = [] } ∷ []) i s h,
  sym (append-nil (received s p)),
)
perform-Receives (emitting event) p i s h = emit-Receives event p i s h
perform-Receives starting p i s h = (s, h, sym (append-nil (received s p)))
perform-Receives ticking p i s h =
    if_intro (Receives i s [] p) (has_interval p) (λ _. flush-Receives p i s h)
      (λ _. (s, h, sym (append-nil (received s p))))
perform-Receives stopping p i s h = flush-Receives (record p { flush_interval = false }) i s h

-- Nothing is lost, doubled or put in another order: after any operations, a sink has been handed,
-- with what is still in the buffer, what it had been handed and what was in the buffer before, and
-- then exactly the events emitted since, in their order.
pub perform_all-received :
    (os : List Operation) (p : Pipeline) (i : ℕ) (s : Sink)
    → get_elem? p.sinks i ≡ some s
    → (s' : Sink) × (get_elem? (perform_all os p).sinks i ≡ some s')
      × (received s' (perform_all os p) ≡ received s p ++ emitted os)
unfolding perform_all
perform_all-received [] p i s h = (s, h, sym (append-nil (received s p)))
perform_all-received (o ∷ os) p i s h =
    let (s', at, e) = perform-Receives o p i s h in
    let (s'', at', e') = perform_all-received os (perform o p) i s' at in
    (
      s'',
      at',
      e'
          ∙ ap (λ l. l ++ emitted os) e
          ∙ append_assoc (received s p) (emitted (o ∷ [])) (emitted os)
          ∙ ap (λ l. received s p ++ l) (emitted_cons o os),
    )

-- The buffer holds fewer events than a batch.
abbrev pub IsBelow : ℕ → Pipeline → Type 0
IsBelow n p = (p.batch_size ≡ n) × (length p.buffer < n)

empty_of_length : (l : List AuditEvent) → (length l == 0) ≡ true → length l ≡ 0
empty_of_length [] h = refl
empty_of_length (x ∷ l) h = ground (arith, h)

flush-IsBelow : (n : ℕ) (p : Pipeline) → 0 < n → p.batch_size ≡ n → IsBelow n (flush p)
unfolding flush
flush-IsBelow n p z h =
    if_intro (IsBelow n) (length p.buffer == 0)
      (λ e. (h, (let e' = empty_of_length p.buffer e in omega (arith, e', z)))) (λ _. (h, z))

perform-IsBelow :
    (n : ℕ) (o : Operation) (p : Pipeline) → 0 < n → IsBelow n p → IsBelow n (perform o p)
unfolding perform register_sink emit start tick stop
perform-IsBelow n (registering name) p z h = h
perform-IsBelow n (emitting event) p z h =
    let q = added event p in
    if_intro (IsBelow n) (leb q.batch_size (length q.buffer)) (λ _. flush-IsBelow n q z h.0)
      (λ e. (h.0, ground (arith, e, h.0)))
perform-IsBelow n starting p z h = h
perform-IsBelow n ticking p z h =
    if_intro (IsBelow n) (has_interval p) (λ _. flush-IsBelow n p z h.0) (λ _. h)
perform-IsBelow n stopping p z h = flush-IsBelow n (record p { flush_interval = false }) z h.0

perform_all-IsBelow :
    (n : ℕ) (os : List Operation) (p : Pipeline)
    → 0 < n
    → IsBelow n p
    → IsBelow n (perform_all os p)
unfolding perform_all
perform_all-IsBelow n [] p z h = h
perform_all-IsBelow n (o ∷ os) p z h =
    perform_all-IsBelow n os (perform o p) z (perform-IsBelow n o p z h)

-- Whatever is done to a new pipeline whose batch size is not zero, fewer events than a batch wait in
-- its buffer.
pub perform_all-buffer :
    (os : List Operation) (batch_size : ℕ)
    → 0 < batch_size
    → length (perform_all os (new_pipeline batch_size)).buffer < batch_size
unfolding new_pipeline
perform_all-buffer os batch_size h =
    (perform_all-IsBelow batch_size os (new_pipeline batch_size) h (refl, h)).1

-- The operation neither starts the interval nor stops the pipeline.
abbrev pub IsQuiet : Operation → Type 0
IsQuiet (registering name) = Unit
IsQuiet (emitting event) = Unit
IsQuiet ticking = Unit
IsQuiet starting = ⊥
IsQuiet stopping = ⊥

abbrev IsHandedNothing : Sink → Type 0
IsHandedNothing s = s.batches ≡ []

-- No interval runs, no sink was handed anything, and the buffer has room for `more` events.
abbrev IsSilent : ℕ → Pipeline → Type 0
IsSilent more p =
    (p.flush_interval ≡ false)
    × (p.lost_intervals ≡ 0)
    × All IsHandedNothing p.sinks
    × (length p.buffer + more < p.batch_size)

perform-IsSilent :
    (o : Operation) (os : List Operation) (p : Pipeline)
    → IsQuiet o
    → IsSilent (length (emitted (o ∷ os))) p
    → IsSilent (length (emitted os)) (perform o p)
unfolding perform register_sink emit tick has_interval
perform-IsSilent (registering name) os p q (f, l, a, b) =
    (f, l, All-append IsHandedNothing p.sinks _ a (refl, tt), b)
perform-IsSilent (emitting event) os p q (f, l, a, b) =
    let e = length-append p.buffer (event ∷ []) in
    if_intro (IsSilent (length (emitted os))) (leb p.batch_size (length (p.buffer ++ event ∷ [])))
      (λ y. ground (arith, y, e, b)) (λ n. (f, l, a, omega (arith, e, b)))
perform-IsSilent ticking os p q (f, l, a, b) =
    if_intro (IsSilent (length (emitted os))) (has_interval p) (λ y. ground (arith, y, f, l))
      (λ n. (f, l, a, b))
perform-IsSilent starting os p q h = absurd q
perform-IsSilent stopping os p q h = absurd q

perform_all-IsSilent :
    (os : List Operation) (p : Pipeline)
    → All IsQuiet os
    → IsSilent (length (emitted os)) p
    → All IsHandedNothing (perform_all os p).sinks
unfolding perform_all
perform_all-IsSilent [] p q (f, l, a, b) = a
perform_all-IsSilent (o ∷ os) p q h =
    perform_all-IsSilent os (perform o p) q.1 (perform-IsSilent o os p q.0 h)

-- A new pipeline that is neither started nor stopped hands nothing to any sink as long as fewer
-- events than a batch were emitted.
pub unstarted_silent :
    (os : List Operation) (batch_size : ℕ)
    → All IsQuiet os
    → length (emitted os) < batch_size
    → All (λ s. s.batches ≡ []) (perform_all os (new_pipeline batch_size)).sinks
unfolding new_pipeline
unstarted_silent os batch_size q l =
    perform_all-IsSilent os (new_pipeline batch_size) q (refl, refl, tt, omega (arith, l))
