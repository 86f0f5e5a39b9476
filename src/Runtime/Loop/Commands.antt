-- ===== src/Runtime/Loop/Commands.antt =====
-- The answers to the callers of `notify` (btstack-core/src/runtime.rs, the inner loop of `run`).
use btstack_gatt_rs.Prelude.{ℕ, ◌≡◌, List, [], ◌∷◌, ◌++◌, map, ◌⊎◌, take, if◌then◌else◌, length}
use btstack_gatt_rs.Runtime.Bridge.{Stack, Transport}
use btstack_gatt_rs.Runtime.Loop.{Loop, Step, Command, goes, finishes, stop, notify, last}

-- The channels on which the callers of these commands wait.
abbrev pub callers : List Command → List ℕ
callers [] = []
callers (stop ∷ cs) = callers cs
callers (notify answer c uuid value ∷ cs) = answer ∷ callers cs

-- The commands in front of the first `Stop`.
abbrev pub before_stop : List Command → List Command
before_stop [] = []
before_stop (stop ∷ cs) = []
before_stop (notify answer c uuid value ∷ cs) = notify answer c uuid value ∷ before_stop cs

module _ {K : Stack} {R : Transport} {App : Type 0} where
  abbrev pub answered : Loop K R App → List ℕ
  answered l = map (λ p. p.0) l.answers

  -- How so many commands at most are served, and where that leads.
  pub record Served (left : ℕ) (l : Loop K R App) (s : Step (Loop K R App)) : Type 0 where
    pub answers : answered (last s) ≡ answered l ++ callers (take left (before_stop l.commands))
    pub ending :
        ((length (take left (before_stop l.commands)) ≡ left)
          × (l.commands ≡ take left (before_stop l.commands) ++ (last s).commands)
          × (s ≡ goes (last s)))
        ⊎ ((l.commands ≡ take left (before_stop l.commands) ++ stop ∷ (last s).commands)
            × (s ≡ finishes (last s)))
        ⊎ ((l.commands ≡ take left (before_stop l.commands))
            × ((last s).commands ≡ [])
            × (s ≡ (if l.closed then finishes (last s) else goes (last s))))
