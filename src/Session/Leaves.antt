-- ===== src/Session/Leaves.antt =====
-- A property of the list of sessions that a handler leaves, where it comes back.
use tun2http.Prelude.{◌≡◌, refl, ◌⊎◌, inl, inr, List}
use tun2http.Os.{Call}
use tun2http.Session.{NgSession, Handled, handled, hung}

abbrev pub Leaves : (List NgSession → Type 0) → Handled → Type 0
Leaves P (handled sessions log) = P sessions
Leaves P hung = Unit {0}

-- The same of a handler that does come back.
abbrev pub Comes : (List NgSession → Type 0) → Handled → Type 0
Comes P (handled sessions log) = P sessions
Comes P hung = ⊥

pub Handled-cases :
    (h : Handled)
    → ((sessions : List NgSession) × (log : List Call) × (h ≡ handled sessions log)) ⊎ (h ≡ hung)
Handled-cases (handled sessions log) = inl (sessions, log, refl)
Handled-cases hung = inr refl
