-- ===== src/Dhan/Execution/Stream.antt =====
-- `_run_order_update_stream`, `_on_stream_lost` and `_disconnect` of nautilus_india/dhan/execution.py
-- as steps. That the socket opens, ends, fails or gives a frame is what the step takes.
pub mod Runs
pub mod Recovers
use nautilus_trader_india.Prelude.{
  ℕ, suc, ◌*◌, ◌≡◌, Bool, true, false, List, [], ◌∷◌, ◌++◌, ltb, if◌then◌else◌,
}
use nautilus_trader_india.Dhan.Json.{Json}
use nautilus_trader_india.Dhan.Exc.{Exc, ok, err}
use nautilus_trader_india.Dhan.Execution.Client.{Env}
use nautilus_trader_india.Dhan.Execution.Books.{Books}
use nautilus_trader_india.Dhan.Execution.Update.Messages.{Outcome, handle_message}

-- A frame, the cache and the books that it was handled with, and what it made the client do.
pub record Acted : Type 0 where
  pub books : Books
  pub message : Json
  pub outcome : Outcome

-- Whether the task runs, whether it is inside of the `async with` of a socket,
-- `order_updates_connected`, and the seconds of the next sleep; then the history: the sleeps so far,
-- how many sockets were closed in order, and what the frames made the client do.
pub record Stream : Type 0 where
  pub is_running : Bool
  pub in_session : Bool
  pub connected : Bool
  pub backoff : ℕ
  pub slept : List ℕ
  pub closed_in_order : ℕ
  pub acted : List Acted

-- The task as `_connect` creates it.
abbrev pub started : Stream
started = record {
  is_running = true;
  in_session = false;
  connected = false;
  backoff = 1;
  slept = [];
  closed_in_order = 0;
  acted = [];
}

-- The socket is open and the login is sent.
unfoldable pub opened : Stream → Stream
opened s = record s { in_session = true; connected = true; backoff = 1 }

-- `min(backoff * 2, 30)`
unfoldable pub doubled : ℕ → ℕ
doubled backoff = if ltb 30 (backoff * 2) then 30 else backoff * 2

-- `except Exception`: `_on_stream_lost`, the sleep, and the next backoff.
unfoldable pub lost : Stream → Stream
lost s = record s {
  in_session = false;
  connected = false;
  backoff = doubled s.backoff;
  slept = s.slept ++ s.backoff ∷ [];
}

-- The frames are at their end: the socket was closed in order, and the loop starts over.
unfoldable pub ended : Stream → Stream
ended s = record s { in_session = false; closed_in_order = suc s.closed_in_order }

unfoldable pub handled : Books → Json → Outcome → Stream → Stream
handled books message outcome s = record s {
  acted = s.acted ++ record { books = books; message = message; outcome = outcome } ∷ [];
}

-- `_disconnect`: the task is cancelled.
unfoldable pub disconnected : Stream → Stream
disconnected s = record s { is_running = false; in_session = false; connected = false }

-- The steps of the task. The cache may be another one at each frame.
pub data Step (env : Env) : Stream → Stream → Type 0 where
  opens : (s : Stream) → s.is_running ≡ true → s.in_session ≡ false → Step env s (opened s)
  fails_to_open : (s : Stream) → s.is_running ≡ true → s.in_session ≡ false → Step env s (lost s)
  not_json : (s : Stream) → s.is_running ≡ true → s.in_session ≡ true → Step env s s
  handles :
      (s : Stream) (books : Books) (message : Json) (outcome : Outcome)
      → s.is_running ≡ true
      → s.in_session ≡ true
      → handle_message env books message ≡ ok outcome
      → Step env s (handled books message outcome s)
  raises :
      (s : Stream) (books : Books) (message : Json) (e : Exc)
      → s.is_running ≡ true
      → s.in_session ≡ true
      → handle_message env books message ≡ err e
      → Step env s (lost s)
  breaks : (s : Stream) → s.is_running ≡ true → s.in_session ≡ true → Step env s (lost s)
  ends : (s : Stream) → s.is_running ≡ true → s.in_session ≡ true → Step env s (ended s)
  disconnects : (s : Stream) → s.is_running ≡ true → Step env s (disconnected s)

-- A run from the start of the task.
pub data Reaches (env : Env) : Stream → Type 0 where
  starts : Reaches env started
  steps : (s t : Stream) → Reaches env s → Step env s t → Reaches env t
