-- ===== src/Sparkplug/Node.antt =====
-- app/engine/sparkplug_node.py, `SparkplugNode`: the births and data messages of an edge node that is
-- connected, and its sequence numbers. Points and devices are numbers; the values and the test
-- whether two of them are equal are arguments.
pub mod View
pub mod Sequence
use ser2net.Common.{
  ℕ, ◌+◌, ◌%◌, Bool, true, false, not, ◌&&◌, ◌||◌, Option, none, some, List, [], ◌∷◌, ◌==◌,
  if◌then◌else◌,
}

-- `next_seq` of app/engine/sparkplug.py.
unfoldable pub next_seq : ℕ → ℕ
next_seq seq = (seq + 1) % 256

pub record Device : Type 0 where
  pub id : ℕ
  pub names : List ℕ

unfoldable pub has_name : ℕ → List ℕ → Bool
has_name n [] = false
has_name n (m ∷ names) = m == n || has_name n names

-- `name in self.points`: the points are those of the devices.
unfoldable pub is_point : ℕ → List Device → Bool
unfolding has_name
is_point n [] = false
is_point n (d ∷ devices) = has_name n d.names || is_point n devices

module _ (V : Type 0) (same : V → V → Bool) where
  pub record Node : Type 0 where
    pub devices : List Device
    pub values : ℕ → Option V
    pub bdseq : ℕ
    pub seq : ℕ
    pub sessions : ℕ

  -- A metric is a point's name and its value; none is null.
  abbrev pub Metric : Type 0
  Metric = ℕ × Option V

  pub data Message : Type 0 where
    nbirth : ℕ → ℕ → Message
    dbirth ddata : ℕ → ℕ → List Metric → Message
    ndeath : ℕ → Message

  -- Before the first connect and after every disconnect: the Will of the next session.
  unfoldable pub will : Node → Node × Message
  will node =
      let bdseq = if node.sessions == 0 then node.bdseq else (node.bdseq + 1) % 256 in
      (record node { bdseq = bdseq; sessions = node.sessions + 1 }, ndeath bdseq)

  abbrev pub all_metrics : (ℕ → Option V) → List ℕ → List Metric
  all_metrics values [] = []
  all_metrics values (n ∷ names) = (n, values n) ∷ all_metrics values names

  -- The loop over the devices in `birth`, with the sequence number of the message before.
  unfoldable pub dbirths : (ℕ → Option V) → ℕ → List Device → ℕ × List Message
  unfolding next_seq
  dbirths values seq [] = (seq, [])
  dbirths values seq (d ∷ devices) =
      let (last, rest) = dbirths values (next_seq seq) devices in
      (last, dbirth (next_seq seq) d.id (all_metrics values d.names) ∷ rest)

  unfoldable pub birth : Node → Node × List Message
  unfolding dbirths
  birth node =
      let (last, rest) = dbirths node.values 0 node.devices in
      (record node { seq = last }, nbirth 0 node.bdseq ∷ rest)

  -- `self.values.get(n) != v`
  abbrev pub differs : Option V → V → Bool
  differs none v = true
  differs (some old) v = not (same old v)

  -- Whether a poll changed a value, for the names that the poll has a value of.
  abbrev pub changed_to : List Device → (ℕ → Option V) → ℕ → Option V → Bool
  changed_to devices values n none = false
  changed_to devices values n (some v) = is_point n devices && differs (values n) v

  abbrev pub is_changed : Node → (ℕ → Option V) → ℕ → Bool
  is_changed node polled n = changed_to node.devices node.values n (polled n)

  abbrev pub updated : Node → (ℕ → Option V) → ℕ → Option V
  updated node polled n = if is_changed node polled n then polled n else node.values n

  unfoldable pub some_metrics : (ℕ → Bool) → (ℕ → Option V) → List ℕ → List Metric
  some_metrics changed values [] = []
  some_metrics changed values (n ∷ names) =
      let rest = some_metrics changed values names in
      if changed n then (n, values n) ∷ rest else rest

  abbrev pub add_ddata : ℕ → List Metric → ℕ → (ℕ → ℕ × List Message) → ℕ × List Message
  add_ddata id [] seq rest = rest seq
  add_ddata id (m ∷ metrics) seq rest =
      ((rest (next_seq seq)).0, ddata (next_seq seq) id (m ∷ metrics) ∷ (rest (next_seq seq)).1)

  -- The loop over the devices in `update`.
  unfoldable pub ddatas : (ℕ → Bool) → (ℕ → Option V) → List Device → ℕ → ℕ × List Message
  unfolding next_seq some_metrics
  ddatas changed values [] seq = (seq, [])
  ddatas changed values (d ∷ devices) seq =
      add_ddata d.id (some_metrics changed values d.names) seq
        (λ next. ddatas changed values devices next)

  unfoldable pub update : Node → (ℕ → Option V) → Node × List Message
  unfolding is_point ddatas
  update node polled =
      let values = updated node polled in
      let (last, sent) = ddatas (is_changed node polled) values node.devices node.seq in
      (record node { values = values; seq = last }, sent)
