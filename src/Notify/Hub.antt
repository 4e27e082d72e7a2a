-- ===== src/Notify/Hub.antt =====
-- internal/notify/hub.go: the waiters of each job and the flag that some job ended. A channel is its
-- number, and closing it puts it on a list; the nil hub, which does nothing, is left out.
pub mod Wakes
use tenta_cron.Prelude.{
  ℕ, ◌+◌, String, Bool, true, false, ◌&&◌, ◌||◌, not, List, [], ◌∷◌, ◌++◌, map, ◌==◌, str_eq,
  select_where, length,
}

pub record Waiter : Type 0 where
  pub id : String
  pub channel : ℕ

pub record Hub : Type 0 where
  pub waiters : List Waiter
  pub closed : List ℕ
  pub next_channel : ℕ
  pub terminals : Bool

-- `New`
abbrev pub new_hub : Hub
new_hub = record { waiters = []; closed = []; next_channel = 0; terminals = false }

-- `Wait`
unfoldable pub wait : String → Hub → ℕ × Hub
wait id h = (
  h.next_channel,
  record h {
    waiters = h.waiters ++ record { id = id; channel = h.next_channel } ∷ [];
    next_channel = h.next_channel + 1;
  },
)

-- `Notify`: a wake-up that is pending already stays the only one.
unfoldable pub notify : String → Hub → Hub
notify id h = record h {
  waiters = select_where (λ x. not (str_eq x.id id)) h.waiters;
  closed = h.closed ++ map (λ x. x.channel) (select_where (λ x. str_eq x.id id) h.waiters);
  terminals = true;
}

-- `Forget`
unfoldable pub forget : String → ℕ → Hub → Hub
forget id channel h = record h {
  waiters = select_where (λ x. not (str_eq x.id id && x.channel == channel)) h.waiters;
}

-- `Pending`
unfoldable pub pending : Hub → ℕ
pending h = length h.waiters
