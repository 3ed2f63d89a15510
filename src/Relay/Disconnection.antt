-- ===== src/Relay/Disconnection.antt =====
-- What is left of a channel, and of the others, once it is disconnected.
use pywssocks.Base.{
  list_eq, nat_eq, ℕ, ◌<◌, ◌≡◌, ◌≢◌, refl, ap, ◌∙◌, Bool, ◌&&◌, none, ltb, lt→ltb, eq_iff, eq_refl,
  arith, Bool-cases, inl, inr, sym, Option, some, List, [], ◌∷◌, ◌++◌, if◌then◌else◌, append-nil,
  true,
}
use pywssocks.Base.Dict.{Dict, get, contains, erase, get-erase}
use pywssocks.Text.{Str}
use pywssocks.Relay.Channels.{
  Relay, cleared, disconnect_channel, cancel, drop_queue, delayed_queue_cleanup,
}

-- One channel in the maps of two relays.
pub record Same (c : Str) (r r' : Relay) : Type 0 where
  queue : get c r'.message_queues ≡ get c r.message_queues
  addr : get c r'.udp_client_addrs ≡ get c r.udp_client_addrs
  tcp_task : get c r'.tcp_tasks ≡ get c r.tcp_tasks
  udp_task : get c r'.udp_tasks ≡ get c r.udp_tasks
  success : get c r'.connection_success_map ≡ get c r.connection_success_map

pub record IsOver (c : Str) (r : Relay) : Type 0 where
  addr : get c r.udp_client_addrs ≡ none
  tcp_task : get c r.tcp_tasks ≡ none
  udp_task : get c r.udp_tasks ≡ none
  success : get c r.connection_success_map ≡ none

module _ {A : Type 0} where
  erased : (c : Str) (d : Dict Str A) → get c (erase c d) ≡ none
  erased c d = ground (arith, get-erase c c d, eq_refl c)

  kept : (c c' : Str) (d : Dict Str A) → c ≢ c' → get c' (erase c d) ≡ get c' d
  kept c c' d h = ground (arith, get-erase c c' d, eq_iff c c')

queue_at_once : (c : Str) (r : Relay) → get c (drop_queue c 0 r).message_queues ≡ none
queue_at_once c r = erased c r.message_queues

queue_later :
    (c : Str) (delay : ℕ) (r : Relay)
    → 0 < delay
    → get c (drop_queue c delay r).message_queues ≡ get c r.message_queues
queue_later c delay r h = elim (Bool-cases (contains c r.message_queues)) [
  | inl there ↦ rw (lt→ltb 0 delay h, there) refl
  | inr gone ↦ rw (lt→ltb 0 delay h, gone) (ground (arith, gone, erased c r.message_queues))
]

-- The choice about the queue touches no other map, and no other channel's queue.
record Frame (c : Str) (r r' : Relay) : Type 0 where
  addrs : r'.udp_client_addrs ≡ r.udp_client_addrs
  tcp_tasks : r'.tcp_tasks ≡ r.tcp_tasks
  udp_tasks : r'.udp_tasks ≡ r.udp_tasks
  successes : r'.connection_success_map ≡ r.connection_success_map
  queues : (c' : Str) → c ≢ c' → get c' r'.message_queues ≡ get c' r.message_queues

drop_queue-Frame : (c : Str) (delay : ℕ) (r : Relay) → Frame c r (drop_queue c delay r)
drop_queue-Frame c delay r = elim (Bool-cases (ltb 0 delay && contains c r.message_queues)) [
  | inl later ↦ rw later (record {
    addrs = refl;
    tcp_tasks = refl;
    udp_tasks = refl;
    successes = refl;
    queues = λ c' h. refl;
  })
  | inr now ↦ rw now (record {
    addrs = refl;
    tcp_tasks = refl;
    udp_tasks = refl;
    successes = refl;
    queues = λ c' h. kept c c' r.message_queues h;
  })
]

-- A task that is there and not done.
abbrev pub running : (ℕ → Bool) → Option ℕ → List ℕ
running is_done none = []
running is_done (some task) = if is_done task then [] else task ∷ []

drop_queue-cancelled :
    (c : Str) (delay : ℕ) (r : Relay) → (drop_queue c delay r).cancelled ≡ r.cancelled
drop_queue-cancelled c delay r = elim (Bool-cases (ltb 0 delay && contains c r.message_queues)) [
  | inl later ↦ rw later refl
  | inr now ↦ rw now refl
]

cancel-running :
    (is_done : ℕ → Bool) (o : Option ℕ) (l : List ℕ) → cancel is_done o l ≡ l ++ running is_done o
cancel-running is_done none l = sym (append-nil l)
cancel-running is_done (some task) l = elim (Bool-cases (is_done task)) [
  | inl over ↦ rw over (sym (append-nil l))
  | inr runs ↦ rw runs refl
]

cancelled_both :
    (is_done : ℕ → Bool) (tcp udp : Option ℕ) (l : List ℕ)
    → cancel is_done udp (cancel is_done tcp l) ≡ l ++ running is_done tcp ++ running is_done udp
cancelled_both is_done tcp udp l =
    cancel-running is_done udp (cancel is_done tcp l)
    ∙ ap (λ k. k ++ running is_done udp) (cancel-running is_done tcp l)

module _ (is_done : ℕ → Bool) (c : Str) (delay : ℕ) (r : Relay) where
  -- After `disconnect_channel` the channel has no tasks, no client address and no mark of success.
  -- Its queue is gone at once where the delay is 0; else it stays as it is, and where there is one the
  -- delayed clean-up of this channel is started, last of all, which removes it. The tasks that are
  -- cancelled are those that were before and, in this order, the TCP task and the UDP task of the
  -- channel, each where there is one that is not done. Every other channel keeps all that it has.
  pub disconnect_channel-IsOver :
      IsOver c (disconnect_channel is_done c delay r)
      × (delay ≡ 0 → get c (disconnect_channel is_done c delay r).message_queues ≡ none)
      × (0 < delay
          → get c (disconnect_channel is_done c delay r).message_queues ≡ get c r.message_queues)
      × (get c (delayed_queue_cleanup c (disconnect_channel is_done c delay r)).message_queues
          ≡ none)
      × (0 < delay
          → contains c r.message_queues ≡ true
          → (disconnect_channel is_done c delay r).cleanups ≡ r.cleanups ++ (c ∷ []))
      × ((disconnect_channel is_done c delay r).cancelled
          ≡ r.cancelled
            ++ running is_done (get c r.tcp_tasks)
            ++ running is_done (get c r.udp_tasks))
      × ((c' : Str) → c ≢ c' → Same c' r (disconnect_channel is_done c delay r))
  unfolding disconnect_channel delayed_queue_cleanup
  disconnect_channel-IsOver =
      let f = drop_queue-Frame c delay (cleared is_done c r) in
      (
        record {
          addr = ap (get c) f.addrs ∙ erased c r.udp_client_addrs;
          tcp_task = ap (get c) f.tcp_tasks ∙ erased c r.tcp_tasks;
          udp_task = ap (get c) f.udp_tasks ∙ erased c r.udp_tasks;
          success = ap (get c) f.successes ∙ erased c r.connection_success_map;
        },
        λ h. rw h (queue_at_once c (cleared is_done c r)),
        λ h. queue_later c delay (cleared is_done c r) h,
        erased c _,
        λ h there. rw (lt→ltb 0 delay h, there) refl,
        drop_queue-cancelled c delay (cleared is_done c r)
            ∙ cancelled_both is_done (get c r.tcp_tasks) (get c r.udp_tasks) r.cancelled,
        λ c' h. record {
          queue = f.queues c' h;
          addr = ap (get c') f.addrs ∙ kept c c' r.udp_client_addrs h;
          tcp_task = ap (get c') f.tcp_tasks ∙ kept c c' r.tcp_tasks h;
          udp_task = ap (get c') f.udp_tasks ∙ kept c c' r.udp_tasks h;
          success = ap (get c') f.successes ∙ kept c c' r.connection_success_map h;
        },
      )
