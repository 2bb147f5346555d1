-- ===== src/Sparkplug/Node/View.antt =====
-- app/engine/sparkplug_node.py: what a host knows that reads the messages of a node.
use ser2net.Common.{
  ℕ, ◌≡◌, refl, ap, ◌∙◌, ◌⊎◌, inl, inr, Bool, true, ◌||◌, Option, none, some, List, [], ◌∷◌, ◌++◌,
  arith, ◌==◌, if◌then◌else◌, Bool-cases,
}
use ser2net.Sparkplug.Node.{
  next_seq, Device, has_name, is_point, Node, Metric, Message, nbirth, dbirth, ddata, ndeath,
  all_metrics, dbirths, birth, changed_to, is_changed, updated, some_metrics, add_ddata, ddatas,
  update,
}

module _ (V : Type 0) (same : V → V → Bool) where
  -- The last value of each metric, if the host had one; a value may be null.
  abbrev pub View : Type 0
  View = ℕ → Option (Option V)

  unfoldable pub learn : View → List (Metric V same) → View
  learn view [] = view
  learn view ((n, v) ∷ metrics) = learn (λ j. if j == n then some v else view j) metrics

  unfoldable pub hear : View → Message V same → View
  unfolding learn
  hear view (nbirth seq bdseq) = view
  hear view (dbirth seq device metrics) = learn view metrics
  hear view (ddata seq device metrics) = learn view metrics
  hear view (ndeath bdseq) = view

  unfoldable pub hear_all : View → List (Message V same) → View
  unfolding hear
  hear_all view [] = view
  hear_all view (m ∷ messages) = hear_all (hear view m) messages

  -- The host knows every point's value.
  abbrev pub Knows : View → Node V same → Type 0
  Knows view node = (n : ℕ) → is_point n node.devices ≡ true → view n ≡ some (node.values n)

  learn-all :
      (values : ℕ → Option V) (names : List ℕ) (view : View) (n : ℕ)
      → (has_name n names ≡ true) ⊎ (view n ≡ some (values n))
      → learn view (all_metrics V same values names) n ≡ some (values n)
  unfolding learn has_name
  learn-all values [] view n (inl h) = absurd (cc)
  learn-all values [] view n (inr h) = h
  learn-all values (m ∷ names) view n h =
      learn-all values names (λ j. if j == m then some (values m) else view j) n (next h)
    where
      next :
          ((m == n || has_name n names) ≡ true) ⊎ (view n ≡ some (values n))
          → (has_name n names ≡ true)
            ⊎ ((if n == m then some (values m) else view n) ≡ some (values n))
      next h = elim (Bool-cases (n == m)) [
        | inl here ↦ let e : n ≡ m = ground arith in inr (rw e (ground arith))
        | inr there ↦ elim h [
          | inl listed ↦ inl (ground arith)
          | inr known ↦ inr (ground (arith, known))
        ]
      ]

  learn-some :
      (changed : ℕ → Bool) (values : ℕ → Option V) (names : List ℕ) (view : View) (n : ℕ)
      → ((has_name n names ≡ true) × (changed n ≡ true)) ⊎ (view n ≡ some (values n))
      → learn view (some_metrics V same changed values names) n ≡ some (values n)
  unfolding learn has_name some_metrics
  learn-some changed values [] view n (inl h) = absurd (let none_listed = h.0 in cc)
  learn-some changed values [] view n (inr h) = h
  learn-some changed values (m ∷ names) view n h =
      let later =
        learn-some changed values names (λ j. if j == m then some (values m) else view j) n in
      let skipped = learn-some changed values names view n in
      elim (Bool-cases (changed m)) [
        | inl sent ↦ rw sent (
            later (elim (Bool-cases (n == m)) [
              | inl here ↦ let e : n ≡ m = ground arith in inr (rw e (ground arith))
              | inr there ↦ elim h [
                | inl listed ↦ inl (let l = listed.0 in ground arith, listed.1)
                | inr known ↦ inr (ground (arith, known))
              ]
            ]))
        | inr left ↦ rw left (
            skipped (elim h [
              | inl listed ↦ elim (Bool-cases (n == m)) [
                | inl here ↦
                    let e : n ≡ m = ground arith in
                    let sent : changed m ≡ true = rw (← e) listed.1 in absurd (cc)
                | inr there ↦ inl (let l = listed.0 in ground arith, listed.1)
              ]
              | inr known ↦ inr known
            ]))
      ]

  -- The births of the devices tell every point's value.
  hear-dbirths :
      (values : ℕ → Option V) (seq : ℕ) (devices : List Device) (view : View) (n : ℕ)
      → (is_point n devices ≡ true) ⊎ (view n ≡ some (values n))
      → hear_all view (dbirths V same values seq devices).1 n ≡ some (values n)
  unfolding hear_all hear dbirths is_point
  hear-dbirths values seq [] view n (inl h) = absurd (cc)
  hear-dbirths values seq [] view n (inr h) = h
  hear-dbirths values seq (d ∷ devices) view n h =
      let learned = learn-all values d.names view n in
      hear-dbirths values (next_seq seq) devices (learn view (all_metrics V same values d.names)) n
        (elim (Bool-cases (has_name n d.names)) [
          | inl here ↦ inr (learned (inl here))
          | inr there ↦ elim h [
            | inl listed ↦ inl (ground arith)
            | inr known ↦ inr (learned (inr known))
          ]
        ])

  hear-add_ddata :
      (id seq : ℕ) (metrics : List (Metric V same)) (rest : ℕ → ℕ × List (Message V same))
      (view : View)
      → (seq' : ℕ) × (hear_all view (add_ddata V same id metrics seq rest).1
          ≡ hear_all (learn view metrics) (rest seq').1)
  unfolding hear_all hear learn
  hear-add_ddata id seq [] rest view = (seq, refl)
  hear-add_ddata id seq (m ∷ metrics) rest view = (next_seq seq, refl)

  -- The data messages tell every value that changed.
  hear-ddatas :
      (changed : ℕ → Bool) (values : ℕ → Option V) (devices : List Device) (seq : ℕ) (view : View)
      (n : ℕ)
      → ((is_point n devices ≡ true) × (changed n ≡ true)) ⊎ (view n ≡ some (values n))
      → hear_all view (ddatas V same changed values devices seq).1 n ≡ some (values n)
  unfolding ddatas is_point
  hear-ddatas changed values [] seq view n (inl h) = absurd (let none_listed = h.0 in cc)
  hear-ddatas changed values [] seq view n (inr h) = heard_none h
    where
      heard_none : view n ≡ some (values n) → hear_all view [] n ≡ some (values n)
      heard_none h = unfold hear_all in h
  hear-ddatas changed values (d ∷ devices) seq view n h =
      let metrics = some_metrics V same changed values d.names in
      let learned = learn-some changed values d.names view n in
      let (seq', told) =
        hear-add_ddata d.id seq metrics (λ next. ddatas V same changed values devices next) view in
      ap (λ (w : View). w n) told
      ∙ hear-ddatas changed values devices seq' (learn view metrics) n
          (elim (Bool-cases (has_name n d.names)) [
            | inl here ↦ elim h [
              | inl listed ↦ inr (learned (inl (here, listed.1)))
              | inr known ↦ inr (learned (inr known))
            ]
            | inr there ↦ elim h [
              | inl listed ↦ inl (let l = listed.0 in ground arith, listed.1)
              | inr known ↦ inr (learned (inr known))
            ]
          ])

  birth-Knows :
      (view : View) (node : Node V same)
      → Knows (hear_all view (birth V same node).1) (birth V same node).0
  unfolding birth hear_all hear
  birth-Knows view node n listed = hear-dbirths node.values 0 node.devices view n (inl listed)

  update-Knows :
      (view : View) (node : Node V same) (polled : ℕ → Option V)
      → Knows view node
      → Knows (hear_all view (update V same node polled).1) (update V same node polled).0
  unfolding update
  update-Knows view node polled knows n listed =
      hear-ddatas (is_changed V same node polled) (updated V same node polled) node.devices node.seq
        view n
        (elim (Bool-cases (is_changed V same node polled n)) [
          | inl sent ↦ inl (listed, sent)
          | inr left ↦ inr (rw left (knows n listed))
        ])

  -- What the node does: a birth, on a connect or on a rebirth request, or a poll.
  pub data Event : Type 0 where
    born : Event
    polled_to : (ℕ → Option V) → Event

  unfoldable pub happen : Node V same → Event → Node V same × List (Message V same)
  unfolding birth update
  happen node born = birth V same node
  happen node (polled_to values) = update V same node values

  unfoldable pub live_on : Node V same → List Event → Node V same × List (Message V same)
  unfolding happen
  live_on node [] = (node, [])
  live_on node (e ∷ events) =
      let (node', sent) = happen node e in
      let (node'', more) = live_on node' events in (node'', sent ++ more)

  hear-append :
      (view : View) (xs ys : List (Message V same))
      → hear_all view (xs ++ ys) ≡ hear_all (hear_all view xs) ys
  unfolding hear_all
  hear-append view [] ys = refl
  hear-append view (x ∷ xs) ys = hear-append (hear view x) xs ys

  live_on-Knows :
      (view : View) (node : Node V same) (events : List Event)
      → Knows view node
      → Knows (hear_all view (live_on node events).1) (live_on node events).0
  unfolding live_on happen
  live_on-Knows view node [] knows = unfold hear_all in knows
  live_on-Knows view node (born ∷ events) knows =
      let (node', sent) = birth V same node in
      rw (hear-append view sent (live_on node' events).1)
        (live_on-Knows (hear_all view sent) node' events (birth-Knows view node))
  live_on-Knows view node (polled_to values ∷ events) knows =
      let (node', sent) = update V same node values in
      rw (hear-append view sent (live_on node' events).1)
        (live_on-Knows (hear_all view sent) node' events (update-Knows view node values knows))

  live_on-birth-Knows :
      (view : View) (node : Node V same) (events : List Event)
      → let r = live_on node (born ∷ events) in Knows (hear_all view r.1) r.0
  unfolding live_on happen
  live_on-birth-Knows view node events =
      let (node', sent) = birth V same node in
      rw (hear-append view sent (live_on node' events).1)
        (live_on-Knows (hear_all view sent) node' events (birth-Knows view node))

  -- The last value that the polls gave of a point, if they gave one.
  abbrev pub newer : Option V → Option V → Option V
  newer old none = old
  newer old (some v) = some v

  pub last_polled : Option V → List Event → ℕ → Option V
  last_polled old [] n = old
  last_polled old (born ∷ events) n = last_polled old events n
  last_polled old (polled_to values ∷ events) n = last_polled (newer old (values n)) events n

  -- A value that was told stands for one that was polled if it is that value, or the test of
  -- equality takes the two for equal.
  abbrev pub StandsFor : Option V → Option V → Type 0
  StandsFor none none = Unit
  StandsFor none (some v) = ⊥
  StandsFor (some told) none = ⊥
  StandsFor (some told) (some v) = (told ≡ v) ⊎ (same told v ≡ true)

  StandsFor-refl : (v : Option V) → StandsFor v v
  StandsFor-refl none = tt
  StandsFor-refl (some v) = inl refl

  -- A point's value after a poll, changed or kept.
  updated-StandsFor :
      (devices : List Device) (values : ℕ → Option V) (n : ℕ) (old polled before : Option V)
      → values n ≡ old
      → is_point n devices ≡ true
      → StandsFor old before
      → StandsFor
          (if changed_to V same devices values n polled then polled else values n)
          (newer before polled)
  updated-StandsFor devices values n old none before e listed h = rw e h
  updated-StandsFor devices values n none (some v) before e listed h = rw (listed, e) (inl refl)
  updated-StandsFor devices values n (some w) (some v) before e listed h =
      elim (Bool-cases (same w v)) [
        | inl equal ↦ rw (listed, e, equal) (inr equal)
        | inr new ↦ rw (listed, e, new) (inl refl)
      ]

  -- The node keeps, of each point, a value that stands for the last one polled.
  live_on-StandsFor :
      (node : Node V same) (events : List Event) (n : ℕ) (before : Option V)
      → is_point n node.devices ≡ true
      → StandsFor (node.values n) before
      → (is_point n (live_on node events).0.devices ≡ true)
        × StandsFor ((live_on node events).0.values n) (last_polled before events n)
  unfolding live_on happen birth update last_polled
  live_on-StandsFor node [] n before listed h = (listed, h)
  live_on-StandsFor node (born ∷ events) n before listed h =
      live_on-StandsFor (birth V same node).0 events n before listed h
  live_on-StandsFor node (polled_to values ∷ events) n before listed h =
      live_on-StandsFor (update V same node values).0 events n (newer before (values n)) listed (
        updated-StandsFor node.devices node.values n (node.values n) (values n) before refl listed
          h)

  -- A host that hears all messages of a node from a birth on knows, of every point, the value that
  -- the last poll with a value of it gave, or one that the node's test takes for equal to it; where
  -- no poll gave one, the value that the node held before. It does so whatever it knew before, and
  -- however births and polls follow.
  pub live_on-last_polled :
      (view : View) (node : Node V same) (events : List Event) (n : ℕ)
      → is_point n node.devices ≡ true
      → (told : Option V) × (hear_all view (live_on node (born ∷ events)).1 n ≡ some told)
        × StandsFor told (last_polled (node.values n) events n)
  live_on-last_polled view node events n listed =
      let r = live_on node (born ∷ events) in
      let (still, kept) =
        live_on-StandsFor node (born ∷ events) n (node.values n) listed
          (StandsFor-refl (node.values n)) in
      (r.0.values n, live_on-birth-Knows view node events n still, unfold last_polled in kept)
