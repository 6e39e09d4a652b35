-- ===== src/Lossless/Rates.antt =====
-- The send rate that `adjust_rates` of toxcore/Lossless_UDP.c sets, and the division by it.
use project_tox_core.Prelude.{◌+◌, ◌*◌, ℕ, ◌≤◌, ◌≡◌, ◌↔◌, ◌≢◌, none, arith}
use project_tox_core.Lossless.{Connection, buffer_packet_num}
use project_tox_core.Lossless.Conn
use project_tox_core.Lossless.Timers.{adjust_rate, data_due}

-- For a connected peer that we have packets to send to, and that asks for at most 15 of them,
-- `adjust_rates` sets a rate of 10 packets per second for each packet that is not asked for, of 15.
-- The next `do_data` divides by zero exactly when all 15 are asked for.
pub adjusted_rate_faults_iff :
    (now later : ℕ) (c : Connection)
    → c.status ≡ 3
    → Conn.sendqueue c ≢ 0
    → c.num_req_paquets ≤ buffer_packet_num
    → ((adjust_rate now c).data_rate + 10 * c.num_req_paquets ≡ 150)
      × ((data_due later (adjust_rate now c) ≡ none) ↔ (c.num_req_paquets ≡ buffer_packet_num))
unfolding data_due adjust_rate Conn.sendqueue
adjusted_rate_faults_iff now later c connected waiting few =
    (ground arith, (λ e. ground arith, λ e. ground arith))
