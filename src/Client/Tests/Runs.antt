-- ===== src/Client/Tests/Runs.antt =====
-- A run of the client over a connection that delivers one message and closes.
use smg_secure_microgrid.Client.Run.Skips.{next_answer-ends}
use smg_secure_microgrid.Client.Run.Summary.{run_client-Report, Report}
use smg_secure_microgrid.Client.Run.{
  start_runner, phase_2, p2, attempt, after_rooting, next_answer, run_client, Runner,
}
use smg_secure_microgrid.Base.{◌≡◌, refl, ◌≢◌, true, none, some, [], ◌∷◌, ok}
use smg_secure_microgrid.Client.Tests.{server, w}
use smg_secure_microgrid.Session.Tests.{wire}

abbrev ended : Runner
ended =
    after_rooting w server.json (λ i. i ∷ []) 2
      (attempt w server.json p2 (phase_2 w server.json (4 ∷ []))
        (start_runner w server.json (2 ∷ []) (5 ∷ []) wire))

runs : run_client w server.json (some wire) (2 ∷ []) (5 ∷ []) (4 ∷ []) (λ i. i ∷ []) 2 ≡ some ended
unfolding run_client
runs = refl

run_client-Report_example : (ended.conn.closed ≡ true) × Report 2 ended.p4_count ended.errors
run_client-Report_example =
    run_client-Report w server.json (λ i. i ∷ []) 2 (2 ∷ []) (5 ∷ []) (4 ∷ []) wire ended runs

next_answer-ends_example : (next_answer w server.json wire).0 ≢ ok none
next_answer-ends_example = next_answer-ends w server.json wire
