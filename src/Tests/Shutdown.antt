-- ===== src/Tests/Shutdown.antt =====
-- Witness of the theorem about the accept loops: one connection with one stream, and then a cancel.
use amber_store_iroh.Prelude.{ℕ, ◌<◌, ◌≡◌, ◌≢◌, refl, true, false, arith}
use amber_store_iroh.Server.Accept.{
  draining, stopping, closing, finished, looping, returned, Accept, to_phase, count_running,
  close_conn, accept_conn, cancel, conn, stream, handled, no_stream, drained, stopped, closed_conn,
  leave, done, begun, Reach, start, later,
}
use amber_store_iroh.Server.Accept.Shutdown.{serve_shutdown}

abbrev served : Accept
served = count_running 0 0 (count_running 0 1 (accept_conn begun))

abbrev ended : Accept
ended =
    close_conn 0
      (to_phase 0 finished (to_phase 0 closing (to_phase 0 stopping (to_phase 0 draining served))))

abbrev over : Accept
over = record ended { cancelled = true; stage = returned }

served-Reach : Reach served
served-Reach = later (later (later start (conn refl)) (stream 0 refl)) (handled 0 0 refl)

ended-Reach : Reach ended
ended-Reach =
    later
      (later (later (later served-Reach (no_stream 0 refl)) (drained 0 refl refl)) (stopped 0 refl))
      (closed_conn 0 refl)

only_one : (c : ℕ) → c < 1 → ended.phase c ≡ finished
only_one c lt = ground arith

over-Reach : Reach over
over-Reach = later (later (later ended-Reach cancel) (leave refl refl)) (done refl only_one)

serve_shutdown_example :
    ((c : ℕ)
      → over.cancelled ≡ false
      → over.closed c ≡ true
      → (over.phase c ≡ finished) × (over.running c ≡ 0))
    × (over.stage ≢ looping → over.cancelled ≡ true)
    × (over.stage ≡ returned
        → (c : ℕ) → c < over.accepted
        → (over.closed c ≡ true) × (over.running c ≡ 0))
serve_shutdown_example = serve_shutdown over-Reach
