-- ===== src/Bridge/Closeon.antt =====
-- app/engine/bridge.py, `_check_closeon`: the pattern in the serial data that closes the clients.
pub mod Stream
use ser2net.Common.{
  ℕ, ◌-◌, Bool, true, false, ◌&&◌, ◌||◌, List, [], ◌∷◌, ◌++◌, ltb, ◌==◌, if◌then◌else◌, length,
  drop,
}

unfoldable pub starts_with : List ℕ → List ℕ → Bool
starts_with [] window = true
starts_with (p ∷ pat) [] = false
starts_with (p ∷ pat) (b ∷ window) = p == b && starts_with pat window

-- `pat in window`
unfoldable pub contains : List ℕ → List ℕ → Bool
unfolding starts_with
contains pat [] = starts_with pat []
contains pat (b ∷ window) = starts_with pat (b ∷ window) || contains pat window

-- `window[-n:]` for n > 0
abbrev pub last : ℕ → List ℕ → List ℕ
last n window = drop (length window - n) window

-- Whether this chunk closes the clients, and the carry-over for the next chunk.
unfoldable pub check_closeon : List ℕ → List ℕ → List ℕ → Bool × List ℕ
unfolding contains
check_closeon pat tail chunk =
    let window = tail ++ chunk in
    if contains pat window
    then (true, [])
    else if ltb 1 (length pat)
    then (false, last (length pat - 1) window)
    else (false, tail)

-- The answers over the chunks of the serial read loop.
unfoldable pub watch : List ℕ → List ℕ → List (List ℕ) → List Bool
unfolding check_closeon
watch pat tail [] = []
watch pat tail (chunk ∷ chunks) =
    let (hit, rest) = check_closeon pat tail chunk in hit ∷ watch pat rest chunks
