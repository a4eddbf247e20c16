-- ===== src/Statistics/Flush.antt =====
-- What the flushes of statistics/manager.rs write to the database.
use network_client.Prelude.{
  ℕ, ◌+◌, ◌-◌, ◌^◌, ◌<◌, ◌≤◌, ◌≡◌, refl, ◌∙◌, Bool, true, some, List, [], ◌∷◌, Text, arith,
}
use network_client.Statistics.Manager.{
  Statement, begin_session, end_session_row, insert_traffic, StatsManager, start_session,
  end_session, record_up, record_down, flush_once,
}

pub data Traffic : Type 0 where
  sends receives : ℕ → Traffic
  flushes : Traffic

unfoldable pub step : StatsManager → Traffic → StatsManager
step m (sends n) = record_up n m
step m (receives n) = record_down n m
step m flushes = flush_once true m

unfoldable pub run : StatsManager → List Traffic → StatsManager
run m [] = m
run m (x ∷ xs) = run (step m x) xs

-- No counter wraps on the way.
unfoldable pub Fits : StatsManager → List Traffic → Type 0
Fits m [] = Unit
Fits m (sends n ∷ xs) = (m.up + n < 2 ^ 64) × Fits (step m (sends n)) xs
Fits m (receives n ∷ xs) = (m.down + n < 2 ^ 64) × Fits (step m (receives n)) xs
Fits m (flushes ∷ xs) = Fits (step m flushes) xs

-- The bytes up and down in the traffic rows.
unfoldable pub rows_up : List Statement → ℕ
rows_up [] = 0
rows_up (insert_traffic _ u _ ∷ db) = u + rows_up db
rows_up (begin_session _ _ ∷ db) = rows_up db
rows_up (end_session_row _ _ _ ∷ db) = rows_up db

unfoldable pub rows_down : List Statement → ℕ
rows_down [] = 0
rows_down (insert_traffic _ _ d ∷ db) = d + rows_down db
rows_down (begin_session _ _ ∷ db) = rows_down db
rows_down (end_session_row _ _ _ ∷ db) = rows_down db

-- The rows hold what the counters were at the last flush, on top of what was there.
pub record IsCounted (u d : ℕ) (m : StatsManager) : Type 0 where
  pub last_up : ℕ
  pub last_down : ℕ
  pub session_id : Text
  pub node_id : Text
  pub last : m.last ≡ some (last_up, last_down)
  pub session : m.session ≡ some (session_id, node_id)
  pub up_le : last_up ≤ m.up
  pub down_le : last_down ≤ m.down
  pub up_rows : rows_up m.db ≡ u + last_up
  pub down_rows : rows_down m.db ≡ d + last_down

flush_lem :
    (m : StatsManager) (lu ld : ℕ) (sid nid : Text)
    → m.last ≡ some (lu, ld)
    → m.session ≡ some (sid, nid)
    → let m' = flush_once true m in
      (m'.last ≡ some (m.up, m.down))
      × (m'.session ≡ m.session)
      × (m'.up ≡ m.up)
      × (m'.down ≡ m.down)
      × (rows_up m'.db ≡ (m.up - lu) + rows_up m.db)
      × (rows_down m'.db ≡ (m.down - ld) + rows_down m.db)
unfolding flush_once rows_up rows_down
flush_lem m lu ld sid nid h k = ground arith

flush-IsCounted : (u d : ℕ) (m : StatsManager) → IsCounted u d m → IsCounted u d (flush_once true m)
flush-IsCounted u d m h =
    let (l, s, a, b, us, ds) =
      flush_lem m h.last_up h.last_down h.session_id h.node_id h.last h.session in
    record {
      last_up = m.up;
      last_down = m.down;
      session_id = h.session_id;
      node_id = h.node_id;
      last = l;
      session = s ∙ h.session;
      up_le = grind arith;
      down_le = grind arith;
      up_rows = grind (arith, h.up_rows, h.up_le);
      down_rows = grind (arith, h.down_rows, h.down_le);
    }

record_up-IsCounted :
    (u d n : ℕ) (m : StatsManager)
    → m.up + n < 2 ^ 64
    → IsCounted u d m
    → IsCounted u d (record_up n m)
unfolding record_up
record_up-IsCounted u d n m fit h = record {
  last_up = h.last_up;
  last_down = h.last_down;
  session_id = h.session_id;
  node_id = h.node_id;
  last = h.last;
  session = h.session;
  up_le = omega (arith, fit, h.up_le);
  down_le = h.down_le;
  up_rows = h.up_rows;
  down_rows = h.down_rows;
}

record_down-IsCounted :
    (u d n : ℕ) (m : StatsManager)
    → m.down + n < 2 ^ 64
    → IsCounted u d m
    → IsCounted u d (record_down n m)
unfolding record_down
record_down-IsCounted u d n m fit h = record {
  last_up = h.last_up;
  last_down = h.last_down;
  session_id = h.session_id;
  node_id = h.node_id;
  last = h.last;
  session = h.session;
  down_le = omega (arith, fit, h.down_le);
  up_le = h.up_le;
  up_rows = h.up_rows;
  down_rows = h.down_rows;
}

run-IsCounted :
    (u d : ℕ) (xs : List Traffic) (m : StatsManager)
    → IsCounted u d m
    → Fits m xs
    → IsCounted u d (run m xs)
unfolding run step Fits
run-IsCounted u d [] m h fit = h
run-IsCounted u d (sends n ∷ xs) m h (fit, fits) =
    run-IsCounted u d xs (record_up n m) (record_up-IsCounted u d n m fit h) fits
run-IsCounted u d (receives n ∷ xs) m h (fit, fits) =
    run-IsCounted u d xs (record_down n m) (record_down-IsCounted u d n m fit h) fits
run-IsCounted u d (flushes ∷ xs) m h fit =
    run-IsCounted u d xs (flush_once true m) (flush-IsCounted u d m h) fit

started-IsCounted :
    (works : Bool) (sid nid : Text) (m : StatsManager)
    → IsCounted (rows_up m.db) (rows_down m.db) (start_session works sid nid m)
unfolding start_session end_session rows_up rows_down
started-IsCounted works sid nid m = record {
  last_up = 0;
  last_down = 0;
  session_id = sid;
  node_id = nid;
  last = refl;
  session = refl;
  up_le = omega arith;
  down_le = omega arith;
  up_rows = ground arith;
  down_rows = ground arith;
}

-- After the start of a session, any traffic that wraps no counter, with flushes anywhere in between,
-- and a last flush, the traffic rows of the database have grown by exactly what the two counters
-- show, no byte lost or counted twice, if the database executes the flushes.
pub flush_once-run :
    (works : Bool) (sid nid : Text) (m : StatsManager) (xs : List Traffic)
    → let s = start_session works sid nid m in
      Fits s xs
      → let e = run s xs in
        (rows_up (flush_once true e).db ≡ rows_up m.db + e.up)
        × (rows_down (flush_once true e).db ≡ rows_down m.db + e.down)
flush_once-run works sid nid m xs fits =
    let e = run (start_session works sid nid m) xs in
    let h =
      run-IsCounted (rows_up m.db) (rows_down m.db) xs (start_session works sid nid m)
        (started-IsCounted works sid nid m) fits in
    let (l, s, a, b, us, ds) =
      flush_lem e h.last_up h.last_down h.session_id h.node_id h.last h.session in
    (omega (arith, us, h.up_rows, h.up_le), omega (arith, ds, h.down_rows, h.down_le))
