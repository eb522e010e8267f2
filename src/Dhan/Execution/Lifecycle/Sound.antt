-- ===== src/Dhan/Execution/Lifecycle/Sound.antt =====
-- What holds of a session however it is connected and disconnected.
use mathlib.Core.Option.{some-injective}
use nautilus_trader_india.Prelude.{
  ◌≡◌, refl, subst, String, Bool, true, false, none, some, is_some, arith, ℕ, suc, ◌<◌, ◌⊎◌, inl,
  inr, ◌&&◌, ◌||◌, Option, if◌then◌else◌,
}
use nautilus_trader_india.Dhan.Auth.{
  DhanCredentials, Resolved, credentials, missing, IsFull, connect_credentials-IsFull,
}
use nautilus_trader_india.Dhan.Execution.Lifecycle.{
  Settings, creates_task, HttpClient, http_client, Session, account_named, or_unset, initial,
  connect_as, connect_with, connect, disconnect, Step, connects, says, disconnects, Reaches, starts,
  follows,
}

-- The account is named for the id that the orders are sent under; a client that can send has both
-- credentials, and this id; the stream's task has a client beside it; and the flag is up only while
-- a task runs, which is the one that is held or one that was lost.
pub record IsSound (name : String) (s : Session) : Type 0 where
  pub account : s.account_id ≡ account_named name (or_unset s.dhan_client_id)
  pub full :
      (h : HttpClient)
      → s.http ≡ some h
      → IsFull h.credentials × (h.credentials.client_id ≡ s.dhan_client_id)
  pub accompanied : s.has_task ≡ true → is_some s.http ≡ true
  pub flagged : s.order_updates_connected ≡ true → (s.has_task ≡ true) ⊎ (0 < s.lost_tasks)

-- A disconnect lowers the flag unless only a lost task held it up.
down_or_lost :
    (held up : Bool) (lost : ℕ)
    → (up ≡ true → (held ≡ true) ⊎ (0 < lost))
    → (if held then false else up) ≡ true
    → (false ≡ true) ⊎ (0 < lost)
down_or_lost true up lost h e = inl e
down_or_lost false up lost h e = h e

-- A task that runs goes on beside the one that a connect creates.
still_running :
    (held : Bool) (lost : ℕ) (created : Bool)
    → (held ≡ true) ⊎ (0 < lost)
    → ((created || held) ≡ true) ⊎ (0 < (if created && held then suc lost else lost))
still_running true lost true h = inl refl
still_running true lost false h = inl refl
still_running false lost true h = inl refl
still_running false lost false h = h

module _ (name : String) (settings : Settings) where
  connect_as-IsSound :
      (initializes : Bool) (found : DhanCredentials) (s : Session)
      → IsFull found
      → IsSound name s
      → IsSound name (connect_as name settings initializes found s)
  unfolding connect_as or_unset
  connect_as-IsSound initializes found s full sound =
      let i = full.has_client_id in
      record {
        account = ground (arith, i);
        full = λ h e.
            subst
              (λ (k : HttpClient).
                IsFull k.credentials × (k.credentials.client_id ≡ found.client_id))
              (some-injective (http_client found settings.base_url) h e) (full, refl);
        accompanied = λ _. refl;
        flagged = λ up.
            still_running s.has_task s.lost_tasks (creates_task settings initializes)
              (sound.flagged up);
      }

  connect_with-IsSound :
      (initializes : Bool) (r : Resolved) (s : Session)
      → ((found : DhanCredentials) → r ≡ credentials found → IsFull found)
      → IsSound name s
      → IsSound name (connect_with name settings initializes r s).0
  unfolding connect_with
  connect_with-IsSound initializes (missing names) s full sound = sound
  connect_with-IsSound initializes (credentials found) s full sound =
      connect_as-IsSound initializes found s (full found refl) sound

  disconnect-IsSound : (s : Session) → IsSound name s → IsSound name (disconnect s)
  unfolding disconnect
  disconnect-IsSound s sound = record {
    account = sound.account;
    full = λ h e. absurd (cc);
    accompanied = λ e. absurd (cc);
    flagged = λ up. down_or_lost s.has_task s.order_updates_connected s.lost_tasks sound.flagged up;
  }

  Step-IsSound : (s t : Session) → Step name settings s t → IsSound name s → IsSound name t
  unfolding connect
  Step-IsSound _ _ (connects s source initializes) sound =
      connect_with-IsSound initializes _ s
        (connect_credentials-IsFull settings.client_id settings.access_token source) sound
  Step-IsSound _ _ (says s connected running) sound = record {
    account = sound.account;
    full = sound.full;
    accompanied = sound.accompanied;
    flagged = λ _. running;
  }
  Step-IsSound _ _ (disconnects s) sound = disconnect-IsSound s sound

  initial-IsSound : IsSound name (initial name settings)
  unfolding initial
  initial-IsSound = record {
    account = refl;
    full = λ h e. absurd (cc);
    accompanied = λ e. absurd (cc);
    flagged = λ e. absurd (cc);
  }

  reached-IsSound : (s : Session) → Reaches name settings s → IsSound name s
  reached-IsSound _ starts = initial-IsSound
  reached-IsSound _ (follows s t run step) = Step-IsSound s t step (reached-IsSound s run)

-- There is no client and no task is held; and unless a task was lost before, the flag is down.
pub record IsReleased (s : Session) : Type 0 where
  pub no_client : s.http ≡ none
  pub no_task : s.has_task ≡ false
  pub down : s.lost_tasks ≡ 0 → s.order_updates_connected ≡ false

disconnect-IsReleased : (name : String) (s : Session) → IsSound name s → IsReleased (disconnect s)
unfolding disconnect
disconnect-IsReleased name s sound = record {
  no_client = refl;
  no_task = refl;
  down = λ none_lost.
      lowered s.has_task s.order_updates_connected s.lost_tasks sound.flagged none_lost;
}
  where
    lowered :
        (held up : Bool) (lost : ℕ)
        → (up ≡ true → (held ≡ true) ⊎ (0 < lost))
        → lost ≡ 0
        → (if held then false else up) ≡ false
    lowered true up lost h none_lost = refl
    lowered false false lost h none_lost = refl
    lowered false true lost h none_lost = absurd (ground (arith, h refl))

-- How a connect and a disconnect change the count of the lost tasks: only a connect that creates a
-- task while one is held adds to it, by that one.
pub record Loses (name : String) (settings : Settings) (s : Session) : Type 0 where
  pub by_connect :
      (source : String → Option String) (initializes : Bool)
      → let t = (connect name settings source initializes s).0 in
        (t.lost_tasks ≡ s.lost_tasks)
        ⊎ ((s.has_task ≡ true)
            × (settings.order_updates ≡ true)
            × (initializes ≡ true)
            × (t.lost_tasks ≡ suc s.lost_tasks))
  pub by_disconnect : (disconnect s).lost_tasks ≡ s.lost_tasks

connect_with-lost_tasks :
    (name : String) (settings : Settings) (initializes : Bool) (r : Resolved) (s : Session)
    → let t = (connect_with name settings initializes r s).0 in
      (t.lost_tasks ≡ s.lost_tasks)
      ⊎ ((s.has_task ≡ true)
          × (settings.order_updates ≡ true)
          × (initializes ≡ true)
          × (t.lost_tasks ≡ suc s.lost_tasks))
unfolding connect_with connect_as
connect_with-lost_tasks name settings initializes (missing names) s = inl refl
connect_with-lost_tasks name settings initializes (credentials found) s =
    counted initializes settings.order_updates s.has_task
  where
    counted :
        (initializes asked held : Bool)
        → let lost = if (initializes && asked) && held then suc s.lost_tasks else s.lost_tasks in
          (lost ≡ s.lost_tasks)
          ⊎ ((held ≡ true) × (asked ≡ true) × (initializes ≡ true) × (lost ≡ suc s.lost_tasks))
    counted true true true = inr (refl, refl, refl, refl)
    counted true true false = inl refl
    counted true false held = inl refl
    counted false asked held = inl refl

session-Loses : (name : String) (settings : Settings) (s : Session) → Loses name settings s
unfolding connect disconnect
session-Loses name settings s = record {
  by_connect = λ source initializes. connect_with-lost_tasks name settings initializes _ s;
  by_disconnect = refl;
}

-- However a session is connected and disconnected, and whichever of its connects fail, its account
-- is named for the id that it sends under, a client that can send has an id and a token and sends
-- under this id, a task that is held has such a client beside it, and the flag is up only while a
-- task runs: the one that is held, or one that was lost. A task is lost only by a connect that
-- creates another while it is held. A disconnect leaves no client, no task that is held, and the
-- flag down unless a task was lost before.
pub lifecycle-IsSound :
    (name : String) (settings : Settings) (s : Session)
    → Reaches name settings s
    → IsSound name s × IsReleased (disconnect s) × Loses name settings s
lifecycle-IsSound name settings s run =
    let sound = reached-IsSound name settings s run in
    (sound, disconnect-IsReleased name s sound, session-Loses name settings s)
