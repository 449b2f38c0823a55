-- ===== src/Client/Attempts.antt =====
-- `WsClient` of apps/web/src/ws/client.ts: what the steps of an attempt leave in its fields.
use konvo_pro.Shared.{
  ℕ, suc, ◌≡◌, Bool, ==_refl, ◌-◌, Option, sym, ap, subst, arith, true, false, none, some, ◌∷◌,
  String,
}
use konvo_pro.Client.State.{
  reconnect_backoff_ms, reconnect_backoff_cap_ms, WsClient, Input, token_fails, token_arrives,
  errored, opened, disconnected, drop_socket, socket_closed, timer_fires, set_state, holds,
  schedule_reconnect, open_socket, without_token, with_token, on_open, on_close, on_timer,
  client_step, compute_backoff_ms,
}

-- A client that failed `n` times since its HELLO_OK, with its waiting calls, its next socket and its
-- timer.
pub record At (n calls k : ℕ) (timer : Option ℕ) (c : WsClient) : Type 0 where
  pub flag : c.explicitly_closed ≡ false
  pub attempts : c.attempt_count ≡ n
  pub calls_wait : c.waiting ≡ calls
  pub next : c.next_socket ≡ k
  pub set : c.reconnect_timer ≡ timer

abbrev pub delay : ℕ → Option ℕ
delay n = some (compute_backoff_ms reconnect_backoff_cap_ms reconnect_backoff_ms n)

abbrev pub called : WsClient → WsClient
called c = record c { waiting = c.waiting - 1 }

pub called-At : (n k : ℕ) (c : WsClient) → At n 1 k none c → At n 0 k none (called c)
called-At n k c a = record {
  flag = a.flag;
  attempts = a.attempts;
  calls_wait = omega (arith, a.calls_wait);
  next = a.next;
  set = a.set;
}

-- A client whose socket `k` is the last that it made.
abbrev pub HasSocket : ℕ → ℕ → WsClient → Type 0
HasSocket n k c = At n 0 (suc k) none c × (holds k c.sockets ≡ true)

abbrev gone : ℕ → WsClient → WsClient
gone k c = record c { socket = none; sockets = drop_socket k c.sockets }

abbrev lost : ℕ → WsClient → WsClient
lost k c = (set_state disconnected (gone k c)).client

set_state-At :
    (n k : ℕ) (c : WsClient) → At n 0 k none c → At n 0 k none (set_state disconnected c).client
unfolding set_state
set_state-At n k c a = record {
  flag = ground (arith, a.flag);
  attempts = ground (arith, a.attempts);
  calls_wait = ground (arith, a.calls_wait);
  next = ground (arith, a.next);
  set = ground (arith, a.set);
}

module _ (device_id : String) where
  abbrev pub step : Input → WsClient → WsClient
  step i c = (client_step reconnect_backoff_cap_ms reconnect_backoff_ms device_id i c).client

  pub timer_fires-At :
      (n k : ℕ) (c : WsClient) → At n 0 k (delay n) c → At n 1 k none (step timer_fires c)
  unfolding client_step on_timer open_socket set_state
  timer_fires-At n k c a = record {
    flag = ground (arith, a.flag, a.set);
    attempts = ground (arith, a.attempts, a.set);
    calls_wait = ground (arith, a.calls_wait, a.set);
    next = ground (arith, a.next, a.set);
    set = ground (arith, a.set);
  }

  pub schedule_reconnect-At :
      (n k : ℕ) (c : WsClient)
      → At n 0 k none c
      → At
          (suc n)
          0
          k
          (delay (suc n))
          (schedule_reconnect reconnect_backoff_cap_ms reconnect_backoff_ms device_id c).client
  unfolding schedule_reconnect
  schedule_reconnect-At n k c a = record {
    flag = ground (arith, a.flag, a.set);
    attempts = ground (arith, a.flag, a.attempts, a.set);
    calls_wait = ground (arith, a.flag, a.calls_wait, a.set);
    next = ground (arith, a.flag, a.next, a.set);
    set = ground (arith, a.flag, a.attempts, a.set);
  }

  abbrev pub rescheduled : WsClient → WsClient
  rescheduled c =
      (schedule_reconnect reconnect_backoff_cap_ms reconnect_backoff_ms device_id c).client

  pub token_fails_lem : (c : WsClient) → c.waiting ≡ 1 → step token_fails c ≡ rescheduled (called c)
  unfolding client_step without_token
  token_fails_lem c e = ground (arith, e)

  pub no_socket_lem :
      (c : WsClient) → c.waiting ≡ 1 → step (token_arrives false) c ≡ rescheduled (called c)
  unfolding client_step with_token
  no_socket_lem c e = ground (arith, e)

  token_arrives_lem :
      (c : WsClient)
      → c.waiting ≡ 1
      → step (token_arrives true) c ≡ record (called c) {
        socket = some c.next_socket;
        sockets = c.next_socket ∷ c.sockets;
        next_socket = suc c.next_socket;
      }
  unfolding client_step with_token
  token_arrives_lem c e = ground (arith, e)

  pub token_arrives-HasSocket :
      (n k : ℕ) (c : WsClient) → At n 1 k none c → HasSocket n k (step (token_arrives true) c)
  token_arrives-HasSocket n k c a =
      let b = called-At n k c a in
      subst (HasSocket n k) (sym (token_arrives_lem c a.calls_wait)) (
        record {
          flag = b.flag;
          attempts = b.attempts;
          calls_wait = b.calls_wait;
          next = ap suc a.next;
          set = b.set;
        },
        ground (arith, a.next, ==_refl k),
      )

  pub errored_lem : (k : ℕ) (c : WsClient) → step (errored k) c ≡ c
  unfolding client_step
  errored_lem k c = ground arith

  pub opened-HasSocket :
      (n k : ℕ) (goes : Bool) (c : WsClient)
      → HasSocket n k c
      → HasSocket n k (step (opened k goes) c)
  unfolding client_step on_open set_state
  opened-HasSocket n k goes c h = (
    record {
      flag = ground (arith, h.0.flag);
      attempts = ground (arith, h.0.attempts);
      calls_wait = ground (arith, h.0.calls_wait);
      next = ground (arith, h.0.next);
      set = ground (arith, h.0.set);
    },
    ground (arith, h.1),
  )

  socket_closed_lem :
      (k : ℕ) (c : WsClient)
      → c.explicitly_closed ≡ false
      → holds k c.sockets ≡ true
      → step (socket_closed k) c ≡ rescheduled (lost k c)
  unfolding client_step on_close
  socket_closed_lem k c flag there = ground (arith, flag, there)

  pub socket_closed-At :
      (n k next : ℕ) (c : WsClient)
      → At n 0 next none c
      → holds k c.sockets ≡ true
      → At (suc n) 0 next (delay (suc n)) (step (socket_closed k) c)
  socket_closed-At n k next c a there =
      subst (At (suc n) 0 next (delay (suc n))) (sym (socket_closed_lem k c a.flag there)) (
        schedule_reconnect-At n next (lost k c) (
          set_state-At n next (gone k c) (record {
            flag = a.flag;
            attempts = a.attempts;
            calls_wait = a.calls_wait;
            next = a.next;
            set = a.set;
          })))
