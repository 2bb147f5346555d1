-- ===== src/Mqtt/Tests.antt =====
-- A concrete stream, for the theorem about app/engine/mqtt_pub.py.
use mathlib.Core.List.{flatten}
use ser2net.Common.{ℕ, ◌≡◌, true, List, [], ◌∷◌, arith}
use ser2net.Mqtt.{feed_all}
use ser2net.Mqtt.Split.{split}
use ser2net.Mqtt.Lines.{messages, feed_all-split}

abbrev cut_lines : List (List ℕ)
cut_lines = (65 ∷ 13 ∷ []) ∷ (10 ∷ 10 ∷ 66 ∷ []) ∷ []

feed_all-split_example : feed_all (record { connected = true; buf = [] }) cut_lines ≡ (
  record { connected = true; buf = (split [] (flatten cut_lines)).1 },
  messages (split [] (flatten cut_lines)).0,
)
feed_all-split_example = feed_all-split cut_lines (unfold flatten in ground arith)
