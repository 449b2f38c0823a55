-- ===== src/Client/Backoff.antt =====
-- `WsClient` of apps/web/src/ws/client.ts: the delay after failures.
use konvo_pro.Shared.{ℕ, zero, suc, ◌≡◌, Bool, refl, true, false, List, [], ◌∷◌, String}
use konvo_pro.Client.State.{
  reconnect_backoff_ms, reconnect_backoff_cap_ms, WsClient, Stepped, Input, token_fails,
  token_arrives, errored, opened, socket_closed, timer_fires, entry_or, client_run,
}
use konvo_pro.Client.Attempts.{At, delay}

entry_or-nil : (cap k : ℕ) → entry_or cap k [] ≡ cap
entry_or-nil cap zero = refl
entry_or-nil cap (suc k) = refl

-- How an attempt fails: its token cannot be had, the constructor of the socket throws, the socket
-- closes before it opens, or it opens and closes before HELLO_OK, its HELLO sent or not.
pub data Failure : Type 0 where
  no_token : Failure
  no_socket : Failure
  unreachable : Failure
  hung_up : Bool → Failure

-- The events of attempts that fail one after another, where the next socket is `k`.
abbrev pub failures : ℕ → List Failure → List Input
failures k [] = []
failures k (no_token ∷ fs) = timer_fires ∷ token_fails ∷ failures k fs
failures k (no_socket ∷ fs) = timer_fires ∷ token_arrives false ∷ failures k fs
failures k (unreachable ∷ fs) =
    timer_fires ∷ token_arrives true ∷ errored k ∷ socket_closed k ∷ failures (suc k) fs
failures k (hung_up goes ∷ fs) =
    timer_fires ∷ token_arrives true ∷ opened k goes ∷ socket_closed k ∷ failures (suc k) fs

module _ (device_id : String) where
  abbrev run : List Input → WsClient → Stepped
  run = client_run reconnect_backoff_cap_ms reconnect_backoff_ms device_id

  -- A client that waits on its timer after `n` failures, whatever its next socket.
  abbrev IsWaiting : ℕ → WsClient → Type 0
  IsWaiting n c = (next : ℕ) × At n 0 next (delay n) c
