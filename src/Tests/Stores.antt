-- ===== src/Tests/Stores.antt =====
-- The tables of nodes and of traffic at concrete calls.
use network_client.Prelude.{
  ◌≡◌, refl, ◌+◌, true, List, [], ◌∷◌, t, pos, ok, err, io, arith, lookup, insert, remove, text_eq,
  trim, is_whitespace,
}
use network_client.Nodes.Model.{Node, validate}
use network_client.Nodes.Manager.{get, add, persist, stamped, delete}
use network_client.Nodes.Keys.{Call, adds, deletes, call, calls, get-calls}
use network_client.Statistics.Manager.{start_session, flush_once, record_up, record_down}
use network_client.Statistics.Flush.{
  Traffic, sends, receives, flushes, step, run, Fits, rows_up, rows_down, flush_once-run,
}
use network_client.Tests.Data.{idle, tokyo}

abbrev osaka : Node
osaka = record tokyo { id = []; name = t "Osaka" }

-- The second write fails, and the node is in memory all the same.
abbrev edits : List Call
edits =
    adds (ok tt) (t "node_1") (pos 5) osaka
    ∷ adds (err (io (t "disk full"))) (t "n2") (pos 6) osaka
    ∷ deletes (ok tt) (t "n1")
    ∷ []

abbrev stored : Node
stored = record osaka { id = t "n2"; created_at = pos 6 }

get-calls_example : stored.id ≡ t "n2"
unfolding calls call add delete get lookup insert remove text_eq validate persist stamped trim
    is_whitespace
get-calls_example = get-calls idle.nodes edits (t "n2") stored (refl, tt) refl

abbrev traffic : List Traffic
traffic = sends 100 ∷ receives 900 ∷ flushes ∷ sends 20 ∷ []

traffic-Fits : Fits (start_session true (t "s1") (t "n1") idle.stats) traffic
unfolding Fits start_session step record_up record_down flush_once
traffic-Fits = (omega arith, (omega arith, (omega arith, tt)))

flush_once-run_example :
    let e = run (start_session true (t "s1") (t "n1") idle.stats) traffic in
    (rows_up (flush_once true e).db ≡ rows_up idle.stats.db + e.up)
    × (rows_down (flush_once true e).db ≡ rows_down idle.stats.db + e.down)
flush_once-run_example = flush_once-run true (t "s1") (t "n1") idle.stats traffic traffic-Fits
