-- ===== src/Sparkplug/Node/Sequence.antt =====
-- app/engine/sparkplug_node.py: the sequence numbers of the messages of a node.
use ser2net.Common.{ℕ, ◌≡◌, Bool, List, [], ◌∷◌}
use ser2net.Sparkplug.Node.{next_seq, Node, Message, nbirth, dbirth, ddata, ndeath}

module _ (V : Type 0) (same : V → V → Bool) where
  -- The sequence number that a message must carry after another one: 0 in an NBIRTH, and else the
  -- one that follows. An NDEATH carries none.
  abbrev pub Follows : ℕ → Message V same → Type 0
  Follows before (nbirth seq bdseq) = seq ≡ 0
  Follows before (dbirth seq device metrics) = seq ≡ next_seq before
  Follows before (ddata seq device metrics) = seq ≡ next_seq before
  Follows before (ndeath bdseq) = Unit

  abbrev pub number_after : ℕ → Message V same → ℕ
  number_after before (nbirth seq bdseq) = seq
  number_after before (dbirth seq device metrics) = seq
  number_after before (ddata seq device metrics) = seq
  number_after before (ndeath bdseq) = before

  -- From one sequence number to another.
  abbrev pub IsChain : ℕ → List (Message V same) → ℕ → Type 0
  IsChain before [] last = before ≡ last
  IsChain before (m ∷ messages) last =
      Follows before m × IsChain (number_after before m) messages last
