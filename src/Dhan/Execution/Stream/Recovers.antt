-- ===== src/Dhan/Execution/Stream/Recovers.antt =====
-- The order-update stream keeps trying until it is disconnected.
use nautilus_trader_india.Prelude.{◌≡◌, ◌⊎◌, inl, inr, refl, true, Bool-cases}
use nautilus_trader_india.Dhan.Execution.Client.{Env}
use nautilus_trader_india.Dhan.Execution.Stream.{
  Stream, opened, lost, ended, handled, disconnected, Step, opens, fails_to_open, not_json, handles,
  raises, breaks, ends, disconnects, Reaches,
}
use nautilus_trader_india.Dhan.Execution.Stream.Runs.{IsCapped, Reaches-IsSound}

-- The task goes on, or it was disconnected.
Step-running :
    (env : Env) (s t : Stream) → Step env s t → (t.is_running ≡ true) ⊎ (t ≡ disconnected s)
unfolding opened lost ended handled
Step-running env _ _ (opens s running out) = inl running
Step-running env _ _ (fails_to_open s running out) = inl running
Step-running env _ _ (not_json s running inside) = inl running
Step-running env _ _ (handles s books message outcome running inside e) = inl running
Step-running env _ _ (raises s books message e running inside _) = inl running
Step-running env _ _ (breaks s running inside) = inl running
Step-running env _ _ (ends s running inside) = inl running
Step-running env _ _ (disconnects s running) = inr refl

-- A task with an open socket and the flag up.
abbrev pub IsUp : Stream → Type 0
IsUp t = (t.in_session ≡ true) × (t.connected ≡ true) × (t.is_running ≡ true)

-- What a stream that runs can still do, and what cannot end it.
pub record Recovers (env : Env) (s : Stream) : Type 0 where
  pub soon : IsUp s ⊎ ((t : Stream) × Step env s t × IsUp t)
  pub waits : IsCapped s.backoff
  pub endures : (t : Stream) → Step env s t → (t.is_running ≡ true) ⊎ (t ≡ disconnected s)

-- In every state that a running stream can reach, however often its socket failed before, it is up or
-- one attempt that succeeds brings it up; its next sleep lasts from 1 to 30 seconds; and no step but
-- a disconnect ends the task.
pub Reaches-Recovers :
    (env : Env) (s : Stream) → Reaches env s → s.is_running ≡ true → Recovers env s
unfolding opened
Reaches-Recovers env s run running =
    let sound = Reaches-IsSound env s run in
    record {
      soon = elim (Bool-cases s.in_session) [
        | inl inside ↦ inl (inside, sound.flagged inside, running)
        | inr out ↦ inr (opened s, opens s running out, (refl, refl, running))
      ];
      waits = sound.next;
      endures = Step-running env s;
    }
