-- ===== src/Statistics/Manager.antt =====
-- `StatsManager` (service/network-service/src/statistics/manager.rs) and the writes of database.rs.
-- The rates, which are floats, and the events that show them are left out. `db` holds the statements
-- that reached the database, newest first; a statement that fails is only logged.
use network_client.Prelude.{
  ℕ, ◌+◌, ◌-◌, ◌%◌, ◌^◌, Bool, true, false, ◌||◌, Option, none, some, List, ◌∷◌, Text, ltb,
  if◌then◌else◌,
}

pub data Statement : Type 0 where
  begin_session : Text → Text → Statement
  end_session_row : Text → ℕ → ℕ → Statement
  insert_traffic : Text → ℕ → ℕ → Statement

pub record StatsManager : Type 0 where
  pub up : ℕ  -- u64
  pub down : ℕ  -- u64
  pub session : Option (Text × Text)  -- the session's id and its node's
  pub last : Option (ℕ × ℕ)  -- the counters at the last flush
  pub db : List Statement

execute : Bool → Statement → List Statement → List Statement
execute true s db = s ∷ db
execute false s db = db

end_from : Bool → Option (Text × Text) → StatsManager → StatsManager
unfolding execute
end_from works none m = m
end_from works (some (id, _)) m = record m {
  session = none;
  db = execute works (end_session_row id m.up m.down) m.db;
}

-- `works`: the database executes the statement.
unfoldable pub end_session : Bool → StatsManager → StatsManager
unfolding end_from
end_session works m = end_from works m.session m

-- `id` is made from a new UUID.
unfoldable pub start_session : Bool → Text → Text → StatsManager → StatsManager
unfolding end_session execute
start_session works id node_id m =
    let ended = end_session works m in
    record ended {
      up = 0;
      down = 0;
      last = some (0, 0);
      session = some (id, node_id);
      db = execute works (begin_session id node_id) ended.db;
    }

-- `fetch_add` wraps.
unfoldable pub record_up : ℕ → StatsManager → StatsManager
record_up bytes m = record m { up = (m.up + bytes) % 2 ^ 64 }

unfoldable pub record_down : ℕ → StatsManager → StatsManager
record_down bytes m = record m { down = (m.down + bytes) % 2 ^ 64 }

-- The increments since the last flush: `saturating_sub`, which is `-` on the naturals.
unfoldable pub deltas : Option (ℕ × ℕ) → ℕ → ℕ → ℕ × ℕ
deltas (some (pu, pd)) up down = (up - pu, down - pd)
deltas none up down = (0, 0)

flush_from : Bool → Option (Text × Text) → ℕ × ℕ → StatsManager → StatsManager
unfolding execute
flush_from works none d m = m
flush_from works (some (_, node)) (du, dd) m =
    if ltb 0 du || ltb 0 dd
    then record m { db = execute works (insert_traffic node du dd) m.db }
    else m

unfoldable pub flush_once : Bool → StatsManager → StatsManager
unfolding deltas flush_from
flush_once works m =
    flush_from works m.session (deltas m.last m.up m.down) (record m { last = some (m.up, m.down) })
