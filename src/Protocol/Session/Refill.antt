-- ===== src/Protocol/Session/Refill.antt =====
-- protocol.c: the search for the next file comes to an end.
use binkd.Base.{
  ℕ, ◌+◌, ◌<◌, Bool, true, false, List, [], ◌∷◌, Option, none, some, length, if◌then◌else◌, ◌≡◌,
}
use binkd.Ftnq.{Ftnq}
use binkd.Flo.{fgets_lines}
use binkd.Protocol.State.{State}
use binkd.Protocol.Outgoing.{Flo, Files, Session, FloSearch, flo_end, flo_file, flo_null}
use binkd.Protocol.Session.{Tried, passed}

-- One round for the file, one for the end of its lines, and one for each line that it has as a
-- flow file.
unfoldable pub file_rounds : Files → Ftnq → ℕ
unfolding fgets_lines
file_rounds files file = elim (files.env.fopen_rb file.path) [
  | none ↦ 1
  | some content ↦ 2 + length (fgets_lines content)
]

unfoldable pub queue_rounds : Files → List Ftnq → ℕ
unfolding file_rounds
queue_rounds files [] = 0
queue_rounds files (f ∷ queue) =
    (if f.sent then 0 else file_rounds files f) + queue_rounds files queue

unfoldable pub flo_rounds : Option Flo → ℕ
flo_rounds none = 0
flo_rounds (some flo) = 1 + length flo.lines

-- How many rounds the search can take at most, the last one aside.
unfoldable pub rounds : Files → Session → ℕ
unfolding queue_rounds flo_rounds
rounds files t = queue_rounds files t.state.q + flo_rounds t.flo

-- A round that passes a file over leaves less than `n` rounds.
abbrev pub Passes : Files → ℕ → Option (Session × Bool) → Type 0
Passes files n none = Unit
Passes files n (some (t, true)) = Unit
Passes files n (some (t, false)) = rounds files t < n

-- The search keeps the queue, and what it finds stands in the lines.
abbrev pub Searched : List Ftnq → ℕ → FloSearch → Type 0
Searched q n flo_null = Unit
Searched q n (flo_end s) = s.q ≡ q
Searched q n (flo_file path action content lines s) = (s.q ≡ q) × (length lines < n)

-- The selection takes the rounds of the selected file from the queue.
Selected : Files → List Ftnq → Option (Ftnq × List Ftnq) → Type 0
Selected files queue none = Unit
Selected files queue (some (file, q)) =
    queue_rounds files q + file_rounds files file ≡ queue_rounds files queue

-- What a round of the search comes to; `n` is more than the rounds that are left.
abbrev pub PassesOver : Files → ℕ → Tried → Type 0
PassesOver files n (passed t) = rounds files t < n
PassesOver files n _ = Unit
