-- ===== src/Dhan/Execution/Stream/Runs.antt =====
-- What holds of every run of the order-update stream.
use nautilus_trader_india.Prelude.{
  ℕ, ◌≡◌, ◌≤◌, ◌⊎◌, inl, inr, refl, true, false, All, All-append_one, arith,
}
use nautilus_trader_india.Dhan.Json.{Json}
use nautilus_trader_india.Dhan.Exc.{ok}
use nautilus_trader_india.Dhan.Execution.Client.{Env}
use nautilus_trader_india.Dhan.Execution.Books.{Books}
use nautilus_trader_india.Dhan.Execution.Update.Messages.{
  Outcome, quiet, emitted, fills, handle_message,
}
use nautilus_trader_india.Dhan.Execution.Update.Ours.{IsOurs, handle_message-IsOurs}
use nautilus_trader_india.Dhan.Execution.Stream.{
  Stream, Acted, opened, doubled, lost, ended, handled, disconnected, Step, opens, fails_to_open,
  not_json, handles, raises, breaks, ends, disconnects, Reaches, starts, steps,
}

abbrev pub IsCapped : ℕ → Type 0
IsCapped seconds = (1 ≤ seconds) × (seconds ≤ 30)

-- What a frame made the client do is what its handling gives, and it is nothing, or the frame is
-- about an order of our own.
abbrev pub IsQuietOrOurs : Env → Acted → Type 0
IsQuietOrOurs env a =
    (handle_message env a.books a.message ≡ ok a.outcome)
    × ((a.outcome ≡ quiet) ⊎ IsOurs env a.books a.message)

pub record IsSound (env : Env) (s : Stream) : Type 0 where
  pub flagged : s.in_session ≡ true → s.connected ≡ true
  pub telling : s.closed_in_order ≡ 0 → s.connected ≡ s.in_session
  pub silent_when_stopped : s.is_running ≡ false → s.connected ≡ false
  pub next : IsCapped s.backoff
  pub sleeps : All IsCapped s.slept
  pub ours : All (IsQuietOrOurs env) s.acted

doubled-IsCapped : (n : ℕ) → IsCapped n → IsCapped (doubled n)
unfolding doubled
doubled-IsCapped n (low, high) = ground (arith, low, high)

handled-IsQuietOrOurs :
    (env : Env) (books : Books) (message : Json) (outcome : Outcome)
    → handle_message env books message ≡ ok outcome
    → IsQuietOrOurs env (record { books = books; message = message; outcome = outcome })
handled-IsQuietOrOurs env books message quiet h = (h, inl refl)
handled-IsQuietOrOurs env books message (emitted effect) h =
    (h, inr (handle_message-IsOurs env books message (emitted effect) h (λ e. absurd (cc))))
handled-IsQuietOrOurs env books message (fills found) h =
    (h, inr (handle_message-IsOurs env books message (fills found) h (λ e. absurd (cc))))

lost-IsSound : (env : Env) (s : Stream) → IsSound env s → IsSound env (lost s)
unfolding lost
lost-IsSound env s h = record {
  flagged = λ e. absurd (cc);
  telling = λ _. refl;
  silent_when_stopped = λ _. refl;
  next = doubled-IsCapped s.backoff h.next;
  sleeps = All-append_one IsCapped s.slept s.backoff h.sleeps h.next;
  ours = h.ours;
}

Step-IsSound : (env : Env) (s t : Stream) → Step env s t → IsSound env s → IsSound env t
unfolding opened ended handled disconnected
Step-IsSound env _ _ (opens s running out) h = record {
  flagged = λ _. refl;
  telling = λ _. refl;
  silent_when_stopped = λ e. absurd (cc);
  next = (omega arith, omega arith);
  sleeps = h.sleeps;
  ours = h.ours;
}
Step-IsSound env _ _ (fails_to_open s running out) h = lost-IsSound env s h
Step-IsSound env _ _ (not_json s running inside) h = h
Step-IsSound env _ _ (handles s books message outcome running inside e) h = record {
  flagged = h.flagged;
  telling = h.telling;
  silent_when_stopped = h.silent_when_stopped;
  next = h.next;
  sleeps = h.sleeps;
  ours =
      All-append_one (IsQuietOrOurs env) s.acted _ h.ours
        (handled-IsQuietOrOurs env books message outcome e);
}
Step-IsSound env _ _ (raises s books message e running inside _) h = lost-IsSound env s h
Step-IsSound env _ _ (breaks s running inside) h = lost-IsSound env s h
Step-IsSound env _ _ (ends s running inside) h = record {
  flagged = λ e. absurd (cc);
  telling = λ z. absurd (cc);
  silent_when_stopped = h.silent_when_stopped;
  next = h.next;
  sleeps = h.sleeps;
  ours = h.ours;
}
Step-IsSound env _ _ (disconnects s running) h = record {
  flagged = λ e. absurd (cc);
  telling = λ _. refl;
  silent_when_stopped = λ _. refl;
  next = h.next;
  sleeps = h.sleeps;
  ours = h.ours;
}

-- In every state that the order-update stream can reach, the flag says connected while a socket is
-- open, and only then as long as no socket was closed in order; it does not once the task is
-- cancelled; each sleep between two attempts lasts from 1 to 30
-- seconds; and each frame that made the client do anything was about an order of its own.
pub Reaches-IsSound : (env : Env) (s : Stream) → Reaches env s → IsSound env s
Reaches-IsSound env _ starts = record {
  flagged = λ e. absurd (cc);
  telling = λ _. refl;
  silent_when_stopped = λ e. absurd (cc);
  next = (omega arith, omega arith);
  sleeps = tt;
  ours = tt;
}
Reaches-IsSound env _ (steps s t run step) = Step-IsSound env s t step (Reaches-IsSound env s run)
